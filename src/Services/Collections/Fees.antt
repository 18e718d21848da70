-- ===== src/Services/Collections/Fees.antt =====
-- src/services/collections.rs: the fees of a sweep, what it needs, and the checks on what was signed.
use pay.Common.{
  ℕ, ◌/◌, not, Option, none, some, Result, ok, err, ◌>>=◌, ◌>>◌, ok_or, fail_if, ltb, ◌==◌,
  if◌then◌else◌, max,
}
use pay.Common.Uint.{U256, Text}
use pay.Domain.Address.{EvmAddress, Bytes}
use pay.Domain.Amount.{RawAmount}
use pay.Domain.Chain.{u64_end}
use pay.Domain.Collection.{CollectionFees}
use pay.Ledger.{Uuid, TxHash}
use pay.LogStore.Source.{ChainError}
use pay.Db.Types.{CollectionRecord, CollectionRecordStatus, RepositoryError}

-- `E` is the type of the errors of the signer and of the gas checker. `signed_tx_invariant` and
-- `invalid_argument` have no text.
pub data CollectionServiceError (E : Type 0) : Type 0 where
  invalid_argument signed_tx_invariant : CollectionServiceError E
  collection_not_found zero_collection_amount replacement_amount_unavailable :
      Uuid → CollectionServiceError E
  insufficient_token_balance : Uuid → RawAmount → RawAmount → CollectionServiceError E
  nonce_out_of_range : RawAmount → CollectionServiceError E
  replacement_not_eligible : Uuid → CollectionRecordStatus → CollectionServiceError E
  repository : RepositoryError → CollectionServiceError E
  chain : ChainError → CollectionServiceError E
  other : E → CollectionServiceError E

pub record CollectionJob : Type 0 where
  pub collection : CollectionRecord
  pub signer_key_ref : Text
  pub derivation_path : Text

pub record Eip1559FeeEstimate : Type 0 where
  pub max_fee_per_gas : RawAmount
  pub max_priority_fee_per_gas : RawAmount

pub record PrefundedGasCheck : Type 0 where
  pub chain_id : ℕ
  pub from_address : EvmAddress
  pub gas_limit : ℕ
  pub max_fee_per_gas : RawAmount
  pub max_priority_fee_per_gas : RawAmount

pub record SignedTx : Type 0 where
  pub request_id : Text
  pub chain_id : ℕ
  pub nonce : ℕ
  pub «from» : EvmAddress
  pub to : EvmAddress
  pub tx_hash : TxHash
  pub raw_tx : Bytes

unfoldable pub collection_fees_from_estimate : CollectionFees → Eip1559FeeEstimate → CollectionFees
collection_fees_from_estimate configured estimate =
    let priority = max configured.max_priority_fee_per_gas estimate.max_priority_fee_per_gas in
    record {
      gas_limit = configured.gas_limit;
      max_fee_per_gas = max (max configured.max_fee_per_gas estimate.max_fee_per_gas) priority;
      max_priority_fee_per_gas = priority;
    }

module _ {E : Type 0} where
  -- `nonce.to_string().parse::<u64>()`
  unfoldable pub raw_amount_to_u64 : RawAmount → Result ℕ (CollectionServiceError E)
  raw_amount_to_u64 nonce = if ltb nonce u64_end then ok nonce else err (nonce_out_of_range nonce)

  unfoldable pub ensure_signed_tx_matches_job :
      CollectionJob → SignedTx → EvmAddress → ℕ → Result (Unit {0}) (CollectionServiceError E)
  ensure_signed_tx_matches_job job tx expected_from nonce = do
    fail_if (not (tx.chain_id == job.collection.chain_id)) signed_tx_invariant
    fail_if (not (tx.nonce == nonce)) signed_tx_invariant
    fail_if (not (tx.from == expected_from)) signed_tx_invariant
    fail_if (not (tx.to == job.collection.token_address)) signed_tx_invariant

  -- the `match` on the amount that was asked for
  abbrev pub amount_or_balance :
      Uuid → RawAmount → Option RawAmount → Result RawAmount (CollectionServiceError E)
  amount_or_balance collection_id balance none = ok balance
  amount_or_balance collection_id balance (some amount) =
      if ltb balance amount
      then err (insufficient_token_balance collection_id balance amount)
      else ok amount

  unfoldable pub resolve_collection_amount :
      CollectionJob → Result RawAmount ChainError → Result RawAmount (CollectionServiceError E)
  resolve_collection_amount job (err e) = err (chain e)
  resolve_collection_amount job (ok balance) = do
    amount ← amount_or_balance job.collection.id balance job.collection.amount_raw
    fail_if (amount == 0) (zero_collection_amount job.collection.id)
    ok amount

  module _ (u : U256) where
    unfoldable pub bump_raw_amount : RawAmount → Result RawAmount (CollectionServiceError E)
    bump_raw_amount amount =
        let bump = if amount / 10 == 0 then 1 else amount / 10 in
        ok_or (u.checked_add amount bump) signed_tx_invariant

    unfoldable pub bump_collection_fees :
        CollectionFees → Result CollectionFees (CollectionServiceError E)
    bump_collection_fees fees = do
      max_fee ← bump_raw_amount fees.max_fee_per_gas
      priority_fee ← bump_raw_amount fees.max_priority_fee_per_gas
      ok (record {
        gas_limit = fees.gas_limit;
        max_fee_per_gas = max_fee;
        max_priority_fee_per_gas = priority_fee;
      })

-- its error is `GasFundingError::Unavailable`
unfoldable pub required_native_gas : U256 → PrefundedGasCheck → Result RawAmount (Unit {0})
required_native_gas u check = ok_or (u.checked_mul check.max_fee_per_gas check.gas_limit) tt
