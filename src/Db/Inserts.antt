-- ===== src/Db/Inserts.antt =====
-- src/db/repositories/outbound.rs, the inserts of signed transactions and their replacement.
use pay.Common.{
  suc, Bool, true, false, not, ◌&&◌, Option, none, some, List, [], ◌∷◌, Result, ok, ◌>>=◌, ◌>>◌,
  fail_if, leb, ◌==◌, ◌||◌, ok_or, ltb,
}
use pay.Common.Uint.{Text}
use pay.Domain.Amount.{RawAmount}
use pay.Ledger.{Uuid, OffsetDateTime}
use pay.Db.Types.{
  OutboundTxStatus, CollectionRecordStatus, CollectionRecord, OutboundTxRecord, RepositoryError,
  database, integer_out_of_range, invariant_violation, NewSignedOutboundTx, OutboundTxPurpose,
  collect, i64_end,
}
use pay.Db.Outbound.{
  Outcome, Schema, Tables, carries, find_tx, put_tx, rows_affected, update_collections, i32_end,
}

-- `replacement_of.or(outbound.replacement_of)`
abbrev pub or_else : {A : Type 0} → Option A → Option A → Option A
or_else none o = o
or_else (some a) _ = some a

abbrev pub new_row : OffsetDateTime → NewSignedOutboundTx → Option Uuid → OutboundTxRecord
new_row now tx replacement_of = record {
  id = tx.id;
  chain_id = tx.chain_id;
  purpose = tx.purpose;
  from_address = tx.from_address;
  to_address = tx.to_address;
  nonce = tx.nonce;
  gas_limit = tx.gas_limit;
  max_fee_per_gas = tx.max_fee_per_gas;
  max_priority_fee_per_gas = tx.max_priority_fee_per_gas;
  tx_hash = tx.tx_hash;
  signed_tx = tx.signed_tx;
  status = OutboundTxStatus.signed;
  replacement_of = or_else replacement_of tx.replacement_of;
  replacement_reason = tx.replacement_reason;
  broadcast_count = 0;
  last_broadcast_at = none;
  receipt_block = none;
  error = none;
  created_at = now;
  updated_at = now;
}

abbrev pub is_attachable : CollectionRecordStatus → Bool
is_attachable CollectionRecordStatus.queued = true
is_attachable CollectionRecordStatus.transferring = true
is_attachable CollectionRecordStatus.replacing = true
is_attachable _ = false

-- `WHERE id = $1 AND status IN (…)`
abbrev pub to_attach : Uuid → CollectionRecord → Bool
to_attach collection_id c = c.id == collection_id && is_attachable c.status

abbrev pub is_replaceable : OutboundTxStatus → Bool
is_replaceable OutboundTxStatus.signed = true
is_replaceable OutboundTxStatus.broadcast = true
is_replaceable OutboundTxStatus.failed = true
is_replaceable OutboundTxStatus.dropped = true
is_replaceable _ = false

unfoldable pub ensure_replaceable : OutboundTxRecord → Result (Unit {0}) RepositoryError
ensure_replaceable old = fail_if (not (is_replaceable old.status)) (invariant_violation old.id)

-- `!=` on purposes, and on the identifier that a replacement names
abbrev same_purpose : OutboundTxPurpose → OutboundTxPurpose → Bool
same_purpose collect collect = true

abbrev pub names_another : Uuid → Option Uuid → Bool
names_another old_id none = false
names_another old_id (some replacement_of) = not (replacement_of == old_id)

unfoldable pub ensure_replacement_invariants :
    OutboundTxRecord → NewSignedOutboundTx → Result (Unit {0}) RepositoryError
ensure_replacement_invariants old replacement = do
  fail_if (names_another old.id replacement.replacement_of) (invariant_violation old.id)
  fail_if
      (not (old.chain_id == replacement.chain_id)
        || not (same_purpose old.purpose replacement.purpose)
        || not (old.from_address == replacement.from_address)
        || not (old.to_address == replacement.to_address)
        || not (old.nonce == replacement.nonce))
      (invariant_violation old.id)

-- `WHERE outbound_tx_id = $1`
abbrev pub to_replace : Uuid → CollectionRecord → Bool
to_replace tx_id c = carries tx_id c.outbound_tx_id

-- `attempt_count + 1` fits into its column, for the rows selected
abbrev pub attempts_fit : (CollectionRecord → Bool) → List CollectionRecord → Bool
attempts_fit selected [] = true
attempts_fit selected (c ∷ cs) =
    (not (selected c) || ltb (suc c.attempt_count) i32_end) && attempts_fit selected cs

module _ (schema : Schema) (now : OffsetDateTime) where
  unfoldable pub insert_signed_tx_row :
      NewSignedOutboundTx
      → Option Uuid
      → List OutboundTxRecord
      → Result (OutboundTxRecord × List OutboundTxRecord) RepositoryError
  insert_signed_tx_row tx replacement_of txs = do
    fail_if (leb i64_end tx.chain_id || leb i64_end tx.gas_limit) integer_out_of_range
    fail_if (not (schema.admits (new_row now tx replacement_of) txs)) database
    ok (new_row now tx replacement_of, new_row now tx replacement_of ∷ txs)

  unfoldable pub insert_signed_tx : NewSignedOutboundTx → Tables → Outcome
  insert_signed_tx tx tables = do
    (t, txs) ← insert_signed_tx_row tx none tables.outbound_transactions
    ok (t, record { outbound_transactions = txs; collections = tables.collections })

  -- the trigger, on every collection that is changed
  abbrev pub linked :
      (CollectionRecord → Bool)
      → (CollectionRecord → CollectionRecord)
      → OutboundTxRecord
      → List CollectionRecord
      → Bool
  linked selected change t [] = true
  linked selected change t (c ∷ cs) =
      (not (selected c) || schema.links (change c) t) && linked selected change t cs

  -- the update of the collections behind the insertion of a transaction
  abbrev pub relinked :
      (CollectionRecord → Bool)
      → (CollectionRecord → CollectionRecord)
      → OutboundTxRecord
      → List OutboundTxRecord
      → List CollectionRecord
      → Outcome
  relinked selected change t txs cs = do
    fail_if (not (linked selected change t cs)) database
    ok (
      t,
      record { outbound_transactions = txs; collections = update_collections selected change cs },
    )

  -- `COALESCE(amount_raw, $3)`
  abbrev pub attach : Uuid → RawAmount → CollectionRecord → CollectionRecord
  attach tx_id resolved_amount_raw c = record c {
    outbound_tx_id = some tx_id;
    amount_raw = or_else c.amount_raw (some resolved_amount_raw);
    status = CollectionRecordStatus.transferring;
    locked_by = none;
    locked_until = none;
    error = none;
    updated_at = now;
  }

  unfoldable pub insert_signed_collect_tx :
      Uuid → NewSignedOutboundTx → RawAmount → Tables → Outcome
  insert_signed_collect_tx collection_id tx resolved_amount_raw tables = do
    (t, txs) ← insert_signed_tx_row tx none tables.outbound_transactions
    done ←
        relinked (to_attach collection_id) (attach t.id resolved_amount_raw) t txs
          tables.collections
    fail_if (not (rows_affected (to_attach collection_id) tables.collections == 1))
        (invariant_violation collection_id)
    ok done

  abbrev pub to_replacement : Uuid → CollectionRecord → CollectionRecord
  to_replacement replacement_id c = record c {
    outbound_tx_id = some replacement_id;
    status = CollectionRecordStatus.transferring;
    attempt_count = suc c.attempt_count;
    locked_by = none;
    locked_until = none;
    error = none;
    updated_at = now;
  }

  abbrev pub as_replaced : Option Text → OutboundTxRecord → OutboundTxRecord
  as_replaced reason old = record old {
    status = OutboundTxStatus.replaced;
    replacement_reason = or_else reason old.replacement_reason;
    updated_at = now;
  }

  -- `lock_nonce_row` only locks, and no row of `collections` need be found
  unfoldable pub replace_signed_tx : Uuid → NewSignedOutboundTx → Tables → Outcome
  replace_signed_tx old_tx_id tx tables = do
    old ← ok_or (find_tx old_tx_id tables.outbound_transactions) (invariant_violation old_tx_id)
    ensure_replaceable old
    ensure_replacement_invariants old tx
    (t, txs) ←
        insert_signed_tx_row tx (some old_tx_id)
          (put_tx (as_replaced tx.replacement_reason old) tables.outbound_transactions)
    fail_if (not (attempts_fit (to_replace old_tx_id) tables.collections)) database
    relinked (to_replace old_tx_id) (to_replacement t.id) t txs tables.collections
