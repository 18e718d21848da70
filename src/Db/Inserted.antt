-- ===== src/Db/Inserted.antt =====
-- The inserts and the replacement keep the statuses of collections and transactions fitting.
use pay.Domain.Amount.{RawAmount}
use pay.Common.{
  ◌≡◌, refl, ap, ◌∙◌, true, some, ok, >>=-eq-ok, fail_if, leb, none, ◌||◌, not, false, Bool,
  Bool-cases, inl, inr, ==_iff, ==_self, ◌==◌, All, arith, [], ◌∷◌, sym, List, Option, Result,
  subst, All-imp, ok_or-ok, ok_or,
}
use pay.Ledger.{Uuid, OffsetDateTime}
use pay.Db.Types.{
  CollectionRecordStatus, OutboundTxRecord, database, integer_out_of_range, NewSignedOutboundTx,
  OutboundTxStatus, CollectionRecord, invariant_violation, i64_end,
}
use pay.Db.Outbound.{Tables, find_tx, rows_affected, Schema, update_collections, carries, put_tx}
use pay.Db.Inserts.{
  insert_signed_tx_row, new_row, insert_signed_collect_tx, replace_signed_tx, to_attach,
  to_replacement, as_replaced, relinked, linked, attach, to_replace, ensure_replaceable,
  ensure_replacement_invariants, insert_signed_tx, attempts_fit,
}
use pay.Db.Lifecycle.{AreLinked, found_id, PointsTo, IsLinked, outcome_inj, find-put}

-- the primary key of the transactions
abbrev pub IsKeyed : Schema → Type 0
IsKeyed schema =
    (t : OutboundTxRecord) (txs : List OutboundTxRecord)
    → schema.admits t txs ≡ true
    → find_tx t.id txs ≡ none

updated-All :
    (P Q : CollectionRecord → Type 0) (selected : CollectionRecord → Bool)
    (change : CollectionRecord → CollectionRecord)
    → ((c : CollectionRecord) → selected c ≡ true → Q (change c))
    → ((c : CollectionRecord) → selected c ≡ false → P c → Q c)
    → (cs : List CollectionRecord) → All P cs
    → All Q (update_collections selected change cs)
unfolding update_collections
updated-All P Q selected change changed kept [] h = tt
updated-All P Q selected change changed kept (c ∷ cs) h =
    let rest = updated-All P Q selected change changed kept cs h.1 in
    elim (Bool-cases (selected c)) [
      | inl y ↦ rw y (changed c y, rest)
      | inr n ↦ rw n (kept c n h.0, rest)
    ]

cons-PointsTo :
    (new : OutboundTxRecord) (txs : List OutboundTxRecord) (o : Option Uuid)
    (s : CollectionRecordStatus)
    → find_tx new.id txs ≡ none
    → PointsTo txs o s
    → PointsTo (new ∷ txs) o s
unfolding find_tx
cons-PointsTo new txs none s fresh h = tt
cons-PointsTo new txs (some k) s fresh (t, found, fit) = elim (Bool-cases (new.id == k)) [
  | inl y ↦
      let lost : none ≡ some t =
        sym fresh ∙ ap (λ i. find_tx i txs) ((==_iff new.id k).0 y) ∙ found in
      cc
  | inr n ↦ (t, (rw n found), fit)
]

head-PointsTo :
    (new : OutboundTxRecord) (txs : List OutboundTxRecord)
    → new.status ≡ OutboundTxStatus.signed
    → PointsTo (new ∷ txs) (some new.id) CollectionRecordStatus.transferring
unfolding find_tx
head-PointsTo new txs h = (new, rw (==_self new.id) refl, rw h refl)

result_inj {ℓ κ} : {A : Type ℓ} {E : Type κ} {a b : A} → ◌≡◌ {A = Result A E} (ok a) (ok b) → a ≡ b
result_inj h = cc

module _ (schema : Schema) (keyed : IsKeyed schema) (now : OffsetDateTime) where
  insert_inv :
      (tx : NewSignedOutboundTx) (replacement_of : Option Uuid) (txs : List OutboundTxRecord)
      {t : OutboundTxRecord} {txs' : List OutboundTxRecord}
      → insert_signed_tx_row schema now tx replacement_of txs ≡ ok (t, txs')
      → (t ≡ new_row now tx replacement_of)
        × (txs' ≡ new_row now tx replacement_of ∷ txs)
        × (find_tx tx.id txs ≡ none)
  unfolding insert_signed_tx_row
  insert_inv tx replacement_of txs h =
      let (_, _, k) =
        >>=-eq-ok
          (fail_if (leb i64_end tx.chain_id || leb i64_end tx.gas_limit) integer_out_of_range) _
          h in
      let (_, admitted, k') =
        >>=-eq-ok (fail_if (not (schema.admits (new_row now tx replacement_of) txs)) database) _
          k in
      (cc, cc, keyed (new_row now tx replacement_of) txs (ground (arith, admitted)))

  relinked_inv :
      (selected : CollectionRecord → Bool) (change : CollectionRecord → CollectionRecord)
      (t : OutboundTxRecord) (txs : List OutboundTxRecord) (cs : List CollectionRecord)
      {r : OutboundTxRecord × Tables}
      → relinked schema now selected change t txs cs ≡ ok r
      → r.1 ≡ record {
        outbound_transactions = txs;
        collections = update_collections selected change cs;
      }
  relinked_inv selected change t txs cs {r} h =
      let (_, _, k) =
        >>=-eq-ok (fail_if (not (linked schema now selected change t cs)) database) _ h in
      outcome_inj (ok r) refl (sym k)

  -- collections that are moved to a transaction that was inserted just now
  moved-AreLinked :
      (selected : CollectionRecord → Bool) (change : Uuid → CollectionRecord → CollectionRecord)
      (tx : NewSignedOutboundTx) (replacement_of : Option Uuid) (txs txs1 : List OutboundTxRecord)
      (cs : List CollectionRecord) {r : OutboundTxRecord × Tables} {t : OutboundTxRecord}
      {txs' : List OutboundTxRecord}
      → insert_signed_tx_row schema now tx replacement_of txs1 ≡ ok (t, txs')
      → relinked schema now selected (change t.id) t txs' cs ≡ ok r
      → ((i : Uuid) (c : CollectionRecord)
          → ((change i c).outbound_tx_id ≡ some i)
            × ((change i c).status ≡ CollectionRecordStatus.transferring))
      → ((c : CollectionRecord) → selected c ≡ false → IsLinked txs c → IsLinked txs1 c)
      → All (IsLinked txs) cs
      → AreLinked r.1
  moved-AreLinked selected change tx replacement_of txs txs1 cs {r} {t} {txs'} inserted moved lands
        kept h =
      let row = new_row now tx replacement_of in
      let (is_row, is_txs, fresh) = insert_inv tx replacement_of txs1 inserted in
      let goal =
        updated-All (IsLinked txs) (IsLinked (row ∷ txs1)) selected (change row.id)
          (λ c y.
            let (o, s) = lands row.id c in
            subst (λ z. PointsTo (row ∷ txs1) z (change row.id c).status) (sym o)
              (subst (PointsTo (row ∷ txs1) (some row.id)) (sym s) (head-PointsTo row txs1 refl)))
          (λ c n l. cons-PointsTo row txs1 c.outbound_tx_id c.status fresh (kept c n l)) cs h in
      let moved' : relinked schema now selected (change row.id) row (row ∷ txs1) cs ≡ ok r =
        subst (λ z. relinked schema now selected (change z.id) z (row ∷ txs1) cs ≡ ok r) is_row
          (subst (λ z. relinked schema now selected (change t.id) t z cs ≡ ok r) is_txs moved) in
      subst AreLinked (sym (relinked_inv selected (change row.id) row (row ∷ txs1) cs moved')) goal

  pub insert_signed_collect_tx-AreLinked :
      (collection_id : Uuid) (tx : NewSignedOutboundTx) (amount : RawAmount) (tables : Tables)
      {r : OutboundTxRecord × Tables}
      → AreLinked tables
      → insert_signed_collect_tx schema now collection_id tx amount tables ≡ ok r
      → AreLinked r.1
  unfolding insert_signed_collect_tx
  insert_signed_collect_tx-AreLinked collection_id tx amount tables {r} held h =
      let txs = tables.outbound_transactions in
      let cs = tables.collections in
      let ((t, txs'), inserted, k) = >>=-eq-ok (insert_signed_tx_row schema now tx none txs) _ h in
      let (d, moved, k') =
        >>=-eq-ok
          (relinked schema now (to_attach collection_id) (attach schema now t.id amount) t txs' cs)
          _ k in
      let (_, _, k'') =
        >>=-eq-ok
          (fail_if (not (rows_affected (to_attach collection_id) cs == 1))
            (invariant_violation collection_id))
          _ k' in
      let eq : d ≡ r = result_inj k'' in
      subst (λ z. AreLinked z.1) eq
        (moved-AreLinked (to_attach collection_id) (λ i. attach schema now i amount) tx none txs txs
          cs inserted moved (λ i c. (refl, refl)) (λ c n l. l) held)

  -- a collection that does not carry the transaction that is put keeps its own
  put-PointsTo :
      (new : OutboundTxRecord) (txs : List OutboundTxRecord) (o : Option Uuid)
      (s : CollectionRecordStatus) {t : OutboundTxRecord}
      → find_tx new.id txs ≡ some t
      → carries new.id o ≡ false
      → PointsTo txs o s
      → PointsTo (put_tx new txs) o s
  put-PointsTo new txs none s held n h = tt
  put-PointsTo new txs (some k) s held n (x, found, fit) =
      let other : (new.id == k) ≡ false = ground (arith, n) in
      (x, find-put new k txs held ∙ (rw other found), fit)

  pub replace_signed_tx-AreLinked :
      (old_tx_id : Uuid) (tx : NewSignedOutboundTx) (tables : Tables)
      {r : OutboundTxRecord × Tables}
      → AreLinked tables
      → replace_signed_tx schema now old_tx_id tx tables ≡ ok r
      → AreLinked r.1
  unfolding replace_signed_tx
  replace_signed_tx-AreLinked old_tx_id tx tables held h =
      let txs = tables.outbound_transactions in
      let cs = tables.collections in
      let (old, found, k) =
        >>=-eq-ok (ok_or (find_tx old_tx_id txs) (invariant_violation old_tx_id)) _ h in
      let (_, _, k1) = >>=-eq-ok (ensure_replaceable old) _ k in
      let (_, _, k2) = >>=-eq-ok (ensure_replacement_invariants old tx) _ k1 in
      let marked = put_tx (as_replaced schema now tx.replacement_reason old) txs in
      let ((t, txs'), inserted, k3) =
        >>=-eq-ok (insert_signed_tx_row schema now tx (some old_tx_id) marked) _ k2 in
      let (_, _, moved) =
        >>=-eq-ok (fail_if (not (attempts_fit (to_replace old_tx_id) cs)) database) _ k3 in
      let f = ok_or-ok (find_tx old_tx_id txs) (invariant_violation old_tx_id) found in
      let same = found_id old_tx_id txs f in
      let own : find_tx old.id txs ≡ some old = ap (λ i. find_tx i txs) same ∙ f in
      moved-AreLinked (to_replace old_tx_id) (to_replacement schema now) tx (some old_tx_id) txs
        marked cs inserted moved (λ i c. (refl, refl))
        (λ c n l.
          put-PointsTo (as_replaced schema now tx.replacement_reason old) txs c.outbound_tx_id
            c.status own (ap (λ i. carries i c.outbound_tx_id) same ∙ n) l)
        held

  pub insert_signed_tx-AreLinked :
      (tx : NewSignedOutboundTx) (tables : Tables) {r : OutboundTxRecord × Tables}
      → AreLinked tables
      → insert_signed_tx schema now tx tables ≡ ok r
      → AreLinked r.1
  unfolding insert_signed_tx
  insert_signed_tx-AreLinked tx tables {r} held h =
      let txs = tables.outbound_transactions in
      let ((t, txs'), inserted, k) = >>=-eq-ok (insert_signed_tx_row schema now tx none txs) _ h in
      let (_, is_txs, fresh) = insert_inv tx none txs inserted in
      let eq : (t, record { outbound_transactions = txs'; collections = tables.collections }) ≡ r =
        result_inj k in
      subst (λ z. AreLinked z.1) eq
        (subst (λ z. All (IsLinked z) tables.collections) (sym is_txs)
          (All-imp (IsLinked txs) (IsLinked (new_row now tx none ∷ txs)) tables.collections
            (λ c l. cons-PointsTo (new_row now tx none) txs c.outbound_tx_id c.status fresh l)
            held))
