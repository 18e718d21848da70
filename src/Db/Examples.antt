-- ===== src/Db/Examples.antt =====
-- A sweep and its transaction, for the tests.
use pay.Common.{Bool, true, false, Option, none, some, [], ◌∷◌, ◌≡◌, refl}
use pay.Domain.Amount.{RawAmount}
use pay.Ledger.{Uuid}
use pay.Db.Types.{
  CollectionRecord, CollectionRecordStatus, NewSignedOutboundTx, OutboundTxRecord, OutboundTxStatus,
  collect,
}
use pay.Db.Outbound.{Tables, Schema, find_tx}
use pay.Db.Inserts.{new_row}
use pay.Db.Inserted.{IsKeyed}

abbrev pub sweep : CollectionRecordStatus → Option Uuid → CollectionRecord
sweep status tx_id = record {
  id = 1;
  owner_sub = [];
  order_id = 11;
  idempotency_key = [];
  request_hash = [];
  child_account_id = 12;
  chain_id = 5;
  token_address = 700;
  from_address = 800;
  to_address = 900;
  amount_raw = some 1000;
  status = status;
  outbound_tx_id = tx_id;
  attempt_count = 1;
  locked_by = none;
  locked_until = none;
  error = none;
  created_at = 10;
  updated_at = 10;
}

abbrev pub new_tx : Uuid → RawAmount → Option Uuid → NewSignedOutboundTx
new_tx id fee replacement_of = record {
  id = id;
  chain_id = 5;
  purpose = collect;
  from_address = 800;
  to_address = 900;
  nonce = 3;
  gas_limit = 80000;
  max_fee_per_gas = fee;
  max_priority_fee_per_gas = 20;
  tx_hash = 4000;
  signed_tx = 1 ∷ 2 ∷ [];
  replacement_of = replacement_of;
  replacement_reason = none;
}

abbrev pub queued_tables : Tables
queued_tables = record {
  outbound_transactions = [];
  collections = sweep CollectionRecordStatus.queued none ∷ [];
}

-- the transaction when it was sent at the instant 30
abbrev pub sent_tx : OutboundTxRecord
sent_tx = record (new_row 20 (new_tx 2 100 none) none) {
  status = OutboundTxStatus.broadcast;
  broadcast_count = 1;
  last_broadcast_at = some 30;
  updated_at = 30;
}

abbrev pub sent_tables : Tables
sent_tables = record {
  outbound_transactions = sent_tx ∷ [];
  collections = record (sweep CollectionRecordStatus.confirming (some 2)) { updated_at = 30 } ∷ [];
}

abbrev is_none : {A : Type 0} → Option A → Bool
is_none none = true
is_none (some _) = false

-- the primary key alone
abbrev pub primary_key : Schema
primary_key = record { admits = λ t txs. is_none (find_tx t.id txs); links = λ c t. true }

is_none_eq : {A : Type 0} (o : Option A) → is_none o ≡ true → o ≡ none
is_none_eq none h = refl
is_none_eq (some a) h = cc

pub primary_key-IsKeyed : IsKeyed primary_key
primary_key-IsKeyed t txs h = is_none_eq (find_tx t.id txs) h
