-- ===== src/Services/Collections/Replace.antt =====
-- src/services/collections.rs, `replace_collection_job`.
use pay.Common.Strings.{is_empty, trim}
use pay.Common.{
  ℕ, Bool, true, false, not, Option, none, some, Result, ok, err, ◌>>=◌, ◌>>◌, ok_or, fail_if, ◌==◌,
  max, min, suc,
}
use pay.Common.Uint.{U256, Text}
use pay.Domain.Address.{EvmAddress, Bytes}
use pay.Domain.Amount.{RawAmount}
use pay.Domain.Collection.{
  CollectionFees, CollectionTxPlan, treasury_sweep, assert_replacement_allowed,
}
use pay.Ledger.{Uuid, OffsetDateTime}
use pay.LogStore.Source.{ChainError}
use pay.Db.Types.{
  CollectionRecord, CollectionRecordStatus, OutboundTxRecord, OutboundTxStatus, NewSignedOutboundTx,
  RepositoryError, collect,
}
use pay.Db.Outbound.{Tables, Schema, Outcome}
use pay.Db.Inserts.{replace_signed_tx}
use pay.Services.Collections.Fees.{
  CollectionServiceError, signed_tx_invariant, replacement_amount_unavailable,
  replacement_not_eligible, chain, other, CollectionJob, Eip1559FeeEstimate, PrefundedGasCheck,
  SignedTx, collection_fees_from_estimate, ensure_signed_tx_matches_job, bump_collection_fees,
  invalid_argument, collection_not_found, repository, raw_amount_to_u64,
}

pub record ReceiptCheckableOutboundTx : Type 0 where
  pub collection_id : Uuid
  pub outbound : OutboundTxRecord

-- who pays for the gas: its address, key and derivation path
pub record Payer : Type 0 where
  pub address : EvmAddress
  pub key_ref : Text
  pub derivation_path : Text

-- What the configuration, the node, the gas checker, the signer and the database answer during one
-- call: the transaction that the signer is given is the job, its amount, nonce and fees, and
-- the refusal of such a transaction by its constructor is an error of the signer.
pub record Host (E : Type 0) : Type 0 where
  pub fees : CollectionFees
  pub relayer : Option Payer
  pub collection_job : Uuid → Result (Option CollectionJob) RepositoryError
  pub estimate_eip1559_fees : Result Eip1559FeeEstimate ChainError
  pub ensure_prefunded_gas : PrefundedGasCheck → Result (Unit {0}) E
  pub health_check : Result (Unit {0}) E
  pub build_collection_calldata :
      CollectionJob → RawAmount → Result Bytes (CollectionServiceError E)
  pub sign_transaction : Payer → ℕ → CollectionFees → Bytes → Result SignedTx E
  pub append_audit_event : Result (Unit {0}) RepositoryError
  pub new_id : Uuid
  pub now : OffsetDateTime

abbrev pub payer_of : Option Payer → CollectionJob → Payer
payer_of (some relayer) job = relayer
payer_of none job = record {
  address = job.collection.from_address;
  key_ref = job.signer_key_ref;
  derivation_path = job.derivation_path;
}

abbrev pub max_fees : CollectionFees → CollectionFees → CollectionFees
max_fees current bumped = record {
  gas_limit = max current.gas_limit bumped.gas_limit;
  max_fee_per_gas = max current.max_fee_per_gas bumped.max_fee_per_gas;
  max_priority_fee_per_gas = max current.max_priority_fee_per_gas bumped.max_priority_fee_per_gas;
}

abbrev pub previous_fees : OutboundTxRecord → CollectionFees
previous_fees t = record {
  gas_limit = t.gas_limit;
  max_fee_per_gas = t.max_fee_per_gas;
  max_priority_fee_per_gas = t.max_priority_fee_per_gas;
}

abbrev pub is_in_flight : CollectionRecordStatus → Bool
is_in_flight CollectionRecordStatus.transferring = true
is_in_flight CollectionRecordStatus.confirming = true
is_in_flight _ = false

abbrev pub is_broadcast : OutboundTxStatus → Bool
is_broadcast OutboundTxStatus.broadcast = true
is_broadcast _ = false

abbrev pub is_tx : Uuid → Option Uuid → Bool
is_tx tx_id none = false
is_tx tx_id (some t) = t == tx_id

abbrev pub plan_of :
    CollectionRecord → ℕ → EvmAddress → RawAmount → CollectionFees → CollectionTxPlan
plan_of c nonce payer amount fees = record {
  chain_id = c.chain_id;
  nonce = nonce;
  «from» = payer;
  to = c.to_address;
  amount = amount;
  purpose = treasury_sweep;
  fees = fees;
}

-- an error of one of the parts, as the service returns it
abbrev pub wrapped : {A E F : Type 0} → (E → F) → Result A E → Result A F
wrapped f (ok a) = ok a
wrapped f (err e) = err (f e)

-- what is known when the replacement is signed
pub record Signed : Type 0 where
  pub collection : CollectionRecord
  pub row : NewSignedOutboundTx
  pub signed_tx : SignedTx

-- `PrepareCollectionJobOutcome::Prepared`
pub record Prepared : Type 0 where
  pub collection : CollectionRecord
  pub outbound : OutboundTxRecord
  pub signed_tx : SignedTx

module _ {E : Type 0} (u : U256) (schema : Schema) (host : Host E) where
  abbrev pub current_collection_fees : Result CollectionFees (CollectionServiceError E)
  current_collection_fees = do
    estimate ← wrapped chain host.estimate_eip1559_fees
    ok (collection_fees_from_estimate host.fees estimate)

  -- the fees of the replacement, with the check that they may replace those of the transaction
  unfoldable pub replacement_fees :
      CollectionRecord
      → OutboundTxRecord
      → RawAmount
      → EvmAddress
      → ℕ
      → Result CollectionFees (CollectionServiceError E)
  replacement_fees c t amount payer nonce = do
    current ← current_collection_fees
    bumped ← bump_collection_fees u (previous_fees t)
    fail_if (not (t.from_address == payer)) signed_tx_invariant
    wrapped (λ _. signed_tx_invariant)
        (assert_replacement_allowed (plan_of c nonce payer amount (previous_fees t))
          (plan_of c nonce payer amount (max_fees current bumped)))
    ok (max_fees current bumped)

  -- the guards on the rows, and the amount
  abbrev pub replaceable_amount :
      CollectionRecord → OutboundTxRecord → Result RawAmount (CollectionServiceError E)
  replaceable_amount c t = do
    fail_if (not (is_in_flight c.status)) (replacement_not_eligible c.id c.status)
    fail_if (not (is_tx t.id c.outbound_tx_id)) signed_tx_invariant
    fail_if (not (is_broadcast t.status)) signed_tx_invariant
    ok_or c.amount_raw (replacement_amount_unavailable c.id)

  abbrev pub gas_check : CollectionRecord → Payer → CollectionFees → PrefundedGasCheck
  gas_check c payer fees = record {
    chain_id = c.chain_id;
    from_address = payer.address;
    gas_limit = fees.gas_limit;
    max_fee_per_gas = fees.max_fee_per_gas;
    max_priority_fee_per_gas = fees.max_priority_fee_per_gas;
  }

  abbrev pub signed_for :
      CollectionJob
      → Payer
      → ℕ
      → RawAmount
      → CollectionFees
      → Result SignedTx (CollectionServiceError E)
  signed_for job payer nonce amount fees = do
    wrapped other (host.ensure_prefunded_gas (gas_check job.collection payer fees))
    wrapped other host.health_check
    calldata ← host.build_collection_calldata job amount
    tx ← wrapped other (host.sign_transaction payer nonce fees calldata)
    ensure_signed_tx_matches_job job tx payer.address nonce
    ok tx

  abbrev pub replacement_row :
      CollectionRecord
      → OutboundTxRecord
      → Payer
      → CollectionFees
      → SignedTx
      → Text
      → NewSignedOutboundTx
  replacement_row c t payer fees tx reason = record {
    id = host.new_id;
    chain_id = c.chain_id;
    purpose = collect;
    from_address = payer.address;
    to_address = c.to_address;
    nonce = t.nonce;
    gas_limit = fees.gas_limit;
    max_fee_per_gas = fees.max_fee_per_gas;
    max_priority_fee_per_gas = fees.max_priority_fee_per_gas;
    tx_hash = tx.tx_hash;
    signed_tx = tx.raw_tx;
    replacement_of = some t.id;
    replacement_reason = some reason;
  }

  -- the replacement of the transaction `t` of a job that was found
  unfoldable pub sign_job :
      CollectionJob → OutboundTxRecord → Text → Result Signed (CollectionServiceError E)
  sign_job j t reason = do
    let payer = payer_of host.relayer j
    amount ← replaceable_amount j.collection t
    nonce ← raw_amount_to_u64 t.nonce
    fees ← replacement_fees j.collection t amount payer.address nonce
    tx ← signed_for j payer nonce amount fees
    ok (record {
      collection = j.collection;
      row = replacement_row j.collection t payer fees tx reason;
      signed_tx = tx;
    })

  -- everything before the transaction is stored
  unfoldable pub sign_replacement :
      Text → ReceiptCheckableOutboundTx → Text → Result Signed (CollectionServiceError E)
  sign_replacement worker_id job reason = do
    fail_if (is_empty (trim worker_id)) invalid_argument
    fail_if (is_empty (trim reason)) invalid_argument
    found ← wrapped repository (host.collection_job job.collection_id)
    collection_job ← ok_or found (collection_not_found job.collection_id)
    sign_job collection_job job.outbound (trim reason)

  -- `saturating_add` on u32
  abbrev pub replaced_collection : CollectionRecord → OutboundTxRecord → CollectionRecord
  replaced_collection c t = record c {
    outbound_tx_id = some t.id;
    status = CollectionRecordStatus.transferring;
    attempt_count = min (suc c.attempt_count) 4294967295;
    locked_by = none;
    locked_until = none;
    error = none;
    updated_at = host.now;
  }

  -- The audit event is written behind the commit of the repository.
  abbrev pub stored :
      Signed → Tables → Outcome → Result Prepared (CollectionServiceError E) × Tables
  stored s tables (err e) = (err (repository e), tables)
  stored s tables (ok (t, after)) = (
    (do
      wrapped repository host.append_audit_event
      ok (record {
        collection = replaced_collection s.collection t;
        outbound = t;
        signed_tx = s.signed_tx;
      })),
    after,
  )

  abbrev pub store_signed :
      Uuid
      → Tables
      → Result Signed (CollectionServiceError E)
      → Result Prepared (CollectionServiceError E) × Tables
  store_signed old_id tables (err e) = (err e, tables)
  store_signed old_id tables (ok s) =
      stored s tables (replace_signed_tx schema host.now old_id s.row tables)

  unfoldable pub replace_collection_job :
      Text
      → ReceiptCheckableOutboundTx
      → Text
      → Tables
      → Result Prepared (CollectionServiceError E) × Tables
  replace_collection_job worker_id job reason tables =
      store_signed job.outbound.id tables (sign_replacement worker_id job reason)
