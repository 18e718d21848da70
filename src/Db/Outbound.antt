-- ===== src/Db/Outbound.antt =====
-- src/db/repositories/outbound.rs: each statement of SQL is a function on the rows of its table, and
-- an operation that fails leaves the tables as they were.
use pay.Common.{
  ℕ, suc, ◌^◌, Bool, true, false, not, ◌&&◌, Option, none, some, List, [], ◌∷◌, Result, ok, err,
  ◌>>=◌, ◌>>◌, fail_if, leb, ◌==◌, if◌then◌else◌, length, filter,
}
use pay.Common.Uint.{Text}
use pay.Domain.Chain.{ChainBlockRef}
use pay.Ledger.{Uuid, OffsetDateTime}
use pay.Db.Types.{
  OutboundTxStatus, CollectionRecordStatus, CollectionRecord, OutboundTxRecord, RepositoryError,
  database, integer_out_of_range, invariant_violation, i64_end,
}

pub record Tables : Type 0 where
  pub outbound_transactions : List OutboundTxRecord
  pub collections : List CollectionRecord

-- What the schema refuses beyond the tests in the code: the primary key and the other constraints of
-- a new transaction, and the trigger that compares a collection with its transaction.
pub record Schema : Type 0 where
  pub admits : OutboundTxRecord → List OutboundTxRecord → Bool
  pub links : CollectionRecord → OutboundTxRecord → Bool

abbrev pub Outcome : Type 0
Outcome = Result (OutboundTxRecord × Tables) RepositoryError

-- `status IN ('signed', 'broadcast')`
abbrev pub is_open : OutboundTxStatus → Bool
is_open OutboundTxStatus.signed = true
is_open OutboundTxStatus.broadcast = true
is_open _ = false

-- the row with an identifier
unfoldable pub find_tx : Uuid → List OutboundTxRecord → Option OutboundTxRecord
find_tx tx_id [] = none
find_tx tx_id (t ∷ ts) = if t.id == tx_id then some t else find_tx tx_id ts

-- `UPDATE outbound_transactions … WHERE id = $1`, with the new row
unfoldable pub put_tx : OutboundTxRecord → List OutboundTxRecord → List OutboundTxRecord
put_tx new [] = []
put_tx new (t ∷ ts) = if t.id == new.id then new ∷ ts else t ∷ put_tx new ts

-- `UPDATE … WHERE id = $1 AND status IN ('signed', 'broadcast') RETURNING …`, of one row
abbrev pub open_tx : Uuid → Option OutboundTxRecord → Result OutboundTxRecord RepositoryError
open_tx tx_id none = err (invariant_violation tx_id)
open_tx tx_id (some t) = if is_open t.status then ok t else err (invariant_violation tx_id)

-- `outbound_tx_id = $1`
abbrev pub carries : Uuid → Option Uuid → Bool
carries tx_id none = false
carries tx_id (some t) = t == tx_id

-- `UPDATE collections SET … WHERE outbound_tx_id = $1 AND status IN (…)`
unfoldable pub update_collections :
    (CollectionRecord → Bool)
    → (CollectionRecord → CollectionRecord)
    → List CollectionRecord
    → List CollectionRecord
update_collections selected change [] = []
update_collections selected change (c ∷ cs) =
    (if selected c then change c else c) ∷ update_collections selected change cs

-- `rows_affected()`
abbrev pub rows_affected : (CollectionRecord → Bool) → List CollectionRecord → ℕ
rows_affected selected cs = length (filter selected cs)

abbrev pub is_broadcastable : CollectionRecordStatus → Bool
is_broadcastable CollectionRecordStatus.transferring = true
is_broadcastable CollectionRecordStatus.confirming = true
is_broadcastable _ = false

abbrev pub is_confirming : CollectionRecordStatus → Bool
is_confirming CollectionRecordStatus.confirming = true
is_confirming _ = false

-- `WHERE outbound_tx_id = $1 AND status IN (…)`
abbrev pub attached : (CollectionRecordStatus → Bool) → Uuid → CollectionRecord → Bool
attached allowed tx_id c = carries tx_id c.outbound_tx_id && allowed c.status

-- the row of the transaction and those of its collection, of which there must be one
abbrev pub settle :
    (CollectionRecordStatus → Bool)
    → (CollectionRecord → CollectionRecord)
    → OutboundTxRecord
    → Tables
    → Outcome
settle allowed change new tables = do
  fail_if (not (rows_affected (attached allowed new.id) tables.collections == 1))
      (invariant_violation new.id)
  ok (
    new,
    record {
      outbound_transactions = put_tx new tables.outbound_transactions;
      collections = update_collections (attached allowed new.id) change tables.collections;
    },
  )

-- the first number that the column of the count does not hold
abbrev pub i32_end : ℕ
i32_end = 2 ^ 31

module _ (now : OffsetDateTime) where
  abbrev pub with_status :
      CollectionRecordStatus → Option Text → CollectionRecord → CollectionRecord
  with_status status error c = record c {
    status = status;
    locked_by = none;
    locked_until = none;
    error = error;
    updated_at = now;
  }

  abbrev pub as_broadcast : OutboundTxRecord → OutboundTxRecord
  as_broadcast t = record t {
    status = OutboundTxStatus.broadcast;
    broadcast_count = suc t.broadcast_count;
    last_broadcast_at = some now;
    error = none;
    updated_at = now;
  }

  abbrev pub as_confirmed : ChainBlockRef → OutboundTxRecord → OutboundTxRecord
  as_confirmed receipt_block t = record t {
    status = OutboundTxStatus.confirmed;
    receipt_block = some receipt_block;
    error = none;
    updated_at = now;
  }

  abbrev pub as_failed : Text → OutboundTxRecord → OutboundTxRecord
  as_failed error t = record t {
    status = OutboundTxStatus.failed;
    error = some error;
    updated_at = now;
  }

  abbrev pub to_confirming : CollectionRecord → CollectionRecord
  to_confirming c = with_status CollectionRecordStatus.confirming c.error c

  unfoldable pub mark_broadcast : Uuid → Tables → Outcome
  mark_broadcast tx_id tables = do
    t ← open_tx tx_id (find_tx tx_id tables.outbound_transactions)
    fail_if (leb i32_end (suc t.broadcast_count)) database
    settle is_broadcastable to_confirming (as_broadcast t) tables

  unfoldable pub mark_confirmed : Uuid → ChainBlockRef → Tables → Outcome
  mark_confirmed tx_id receipt_block tables = do
    fail_if (leb i64_end receipt_block.number) integer_out_of_range
    t ← open_tx tx_id (find_tx tx_id tables.outbound_transactions)
    settle is_confirming (with_status CollectionRecordStatus.confirmed none)
        (as_confirmed receipt_block t) tables

  unfoldable pub mark_failed : Uuid → Text → Tables → Outcome
  mark_failed tx_id error tables = do
    t ← open_tx tx_id (find_tx tx_id tables.outbound_transactions)
    settle is_confirming (with_status CollectionRecordStatus.failed (some error))
        (as_failed error t) tables
