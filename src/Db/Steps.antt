-- ===== src/Db/Steps.antt =====
-- The operations of the repository keep the statuses of collections and transactions fitting.
use pay.Domain.Amount.{RawAmount}
use pay.Common.{◌≡◌, ok}
use pay.Common.Uint.{Text}
use pay.Domain.Chain.{ChainBlockRef}
use pay.Ledger.{Uuid, OffsetDateTime}
use pay.Db.Types.{OutboundTxRecord, NewSignedOutboundTx}
use pay.Db.Outbound.{Tables, mark_broadcast, mark_confirmed, mark_failed, Schema}
use pay.Db.Inserts.{insert_signed_collect_tx, replace_signed_tx, insert_signed_tx}
use pay.Db.Lifecycle.{AreLinked}
use pay.Db.Marked.{mark_broadcast-AreLinked, mark_confirmed-AreLinked, mark_failed-AreLinked}
use pay.Db.Inserted.{
  IsKeyed, insert_signed_tx-AreLinked, insert_signed_collect_tx-AreLinked,
  replace_signed_tx-AreLinked,
}

-- The tables change by the operations that succeed; the others leave them as they are.
pub data Step (schema : Schema) : Tables → Tables → Type 0 where
  inserts :
      (now : OffsetDateTime) (tx : NewSignedOutboundTx) {s s' : Tables} {t : OutboundTxRecord}
      → insert_signed_tx schema now tx s ≡ ok (t, s')
      → Step schema s s'
  collects :
      (now : OffsetDateTime) (collection_id : Uuid) (tx : NewSignedOutboundTx) (amount : RawAmount)
      {s s' : Tables} {t : OutboundTxRecord}
      → insert_signed_collect_tx schema now collection_id tx amount s ≡ ok (t, s')
      → Step schema s s'
  replaces :
      (now : OffsetDateTime) (old_tx_id : Uuid) (tx : NewSignedOutboundTx) {s s' : Tables}
      {t : OutboundTxRecord}
      → replace_signed_tx schema now old_tx_id tx s ≡ ok (t, s')
      → Step schema s s'
  broadcasts :
      (now : OffsetDateTime) (tx_id : Uuid) {s s' : Tables} {t : OutboundTxRecord}
      → mark_broadcast now tx_id s ≡ ok (t, s')
      → Step schema s s'
  confirms :
      (now : OffsetDateTime) (tx_id : Uuid) (receipt_block : ChainBlockRef) {s s' : Tables}
      {t : OutboundTxRecord}
      → mark_confirmed now tx_id receipt_block s ≡ ok (t, s')
      → Step schema s s'
  fails :
      (now : OffsetDateTime) (tx_id : Uuid) (error : Text) {s s' : Tables} {t : OutboundTxRecord}
      → mark_failed now tx_id error s ≡ ok (t, s')
      → Step schema s s'

pub data Reaches (schema : Schema) : Tables → Tables → Type 0 where
  here : {s : Tables} → Reaches schema s s
  after : {s s' s'' : Tables} → Reaches schema s s' → Step schema s' s'' → Reaches schema s s''

Step-AreLinked :
    (schema : Schema) {s s' : Tables}
    → IsKeyed schema
    → AreLinked s
    → Step schema s s'
    → AreLinked s'
Step-AreLinked schema {s} keyed held (inserts now tx e) =
    insert_signed_tx-AreLinked schema keyed now tx s held e
Step-AreLinked schema {s} keyed held (collects now i tx a e) =
    insert_signed_collect_tx-AreLinked schema keyed now i tx a s held e
Step-AreLinked schema {s} keyed held (replaces now i tx e) =
    replace_signed_tx-AreLinked schema keyed now i tx s held e
Step-AreLinked schema {s} keyed held (broadcasts now i e) = mark_broadcast-AreLinked now i s held e
Step-AreLinked schema {s} keyed held (confirms now i b e) =
    mark_confirmed-AreLinked now i s held b e
Step-AreLinked schema {s} keyed held (fails now i x e) = mark_failed-AreLinked now i s held x e

-- However the operations of the repository follow each other, each collection that has a transaction
-- points to one that exists, and its status is the one that belongs to that of the transaction:
-- transferring to signed, confirming to broadcast, confirmed to confirmed and failed to failed.
pub Reaches-AreLinked :
    (schema : Schema) {s s' : Tables}
    → IsKeyed schema
    → AreLinked s
    → Reaches schema s s'
    → AreLinked s'
Reaches-AreLinked schema keyed held here = held
Reaches-AreLinked schema keyed held (after r t) =
    Step-AreLinked schema keyed (Reaches-AreLinked schema keyed held r) t
