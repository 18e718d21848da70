-- ===== src/Db/Marked.antt =====
-- The marks of a transaction keep the statuses of collections and transactions fitting.
use pay.Common.{◌≡◌, refl, ap, ◌∙◌, true, some, ok, >>=-eq-ok, fail_if, leb, ◌<◌, suc, none}
use pay.Common.Uint.{Text}
use pay.Domain.Chain.{ChainBlockRef}
use pay.Ledger.{Uuid, OffsetDateTime}
use pay.Db.Types.{CollectionRecordStatus, OutboundTxRecord, database, integer_out_of_range, i64_end}
use pay.Db.Outbound.{
  Tables, find_tx, open_tx, attached, is_broadcastable, is_confirming, mark_broadcast,
  mark_confirmed, mark_failed, rows_affected, as_broadcast, as_confirmed, as_failed, to_confirming,
  i32_end, with_status,
}
use pay.Db.Lifecycle.{
  fits, AreLinked, found_id, settle-AreLinked, open_inv, open_fits, confirming_fits, counted_fits,
}

module _ (now : OffsetDateTime) (tx_id : Uuid) (tables : Tables) (linked : AreLinked tables) where
  -- the transaction found is held under its own identifier
  held_by :
      {t : OutboundTxRecord}
      → find_tx tx_id tables.outbound_transactions ≡ some t
      → find_tx t.id tables.outbound_transactions ≡ some t
  held_by f = ap (λ i. find_tx i tables.outbound_transactions) (found_id tx_id _ f) ∙ f

  pub mark_broadcast-AreLinked :
      {t : OutboundTxRecord} {tables' : Tables}
      → mark_broadcast now tx_id tables ≡ ok (t, tables')
      → AreLinked tables'
  unfolding mark_broadcast
  mark_broadcast-AreLinked e =
      let (t, opened, k) =
        >>=-eq-ok (open_tx tx_id (find_tx tx_id tables.outbound_transactions)) _ e in
      let (f, is_open) = open_inv tx_id _ opened in
      let (_, _, k') = >>=-eq-ok (fail_if (leb i32_end (suc t.broadcast_count)) database) _ k in
      settle-AreLinked is_broadcastable (to_confirming now) (λ c. refl) (as_broadcast now t) t
        (λ c. refl) tables linked (held_by f) (λ n s fit. open_fits t.status s is_open fit) k'

  -- where only confirming collections are changed
  confirming_only :
      {t : OutboundTxRecord}
      → find_tx t.id tables.outbound_transactions ≡ some t
      → 0 < rows_affected (attached is_confirming t.id) tables.collections
      → (s : CollectionRecordStatus) → fits t.status s ≡ true
      → is_confirming s ≡ true
  confirming_only {t} f n s fit =
      confirming_fits t.status s
        (counted_fits tables.outbound_transactions t.id tables.collections linked f n) fit

  pub mark_confirmed-AreLinked :
      (receipt_block : ChainBlockRef) {t : OutboundTxRecord} {tables' : Tables}
      → mark_confirmed now tx_id receipt_block tables ≡ ok (t, tables')
      → AreLinked tables'
  unfolding mark_confirmed
  mark_confirmed-AreLinked receipt_block e =
      let (_, _, k) =
        >>=-eq-ok (fail_if (leb i64_end receipt_block.number) integer_out_of_range) _ e in
      let (t, opened, k') =
        >>=-eq-ok (open_tx tx_id (find_tx tx_id tables.outbound_transactions)) _ k in
      let (f, is_open) = open_inv tx_id _ opened in
      settle-AreLinked is_confirming (with_status now CollectionRecordStatus.confirmed none)
        (λ c. refl) (as_confirmed now receipt_block t) t (λ c. refl) tables linked (held_by f)
        (confirming_only (held_by f)) k'

  pub mark_failed-AreLinked :
      (error : Text) {t : OutboundTxRecord} {tables' : Tables}
      → mark_failed now tx_id error tables ≡ ok (t, tables')
      → AreLinked tables'
  unfolding mark_failed
  mark_failed-AreLinked error e =
      let (t, opened, k) =
        >>=-eq-ok (open_tx tx_id (find_tx tx_id tables.outbound_transactions)) _ e in
      let (f, is_open) = open_inv tx_id _ opened in
      settle-AreLinked is_confirming (with_status now CollectionRecordStatus.failed (some error))
        (λ c. refl) (as_failed now error t) t (λ c. refl) tables linked (held_by f)
        (confirming_only (held_by f)) k
