-- ===== src/Domain/Collection.antt =====
-- src/domain/collection.rs: a transaction that sweeps a child account, and when another may replace it.
pub mod Replacement
use pay.Common.{ℕ, Bool, true, false, not, Result, ok, err, ◌>>=◌, ◌>>◌, fail_if, leb, ◌==◌}
use pay.Domain.Address.{EvmAddress}
use pay.Domain.Amount.{RawAmount}

pub data CollectionStatus : Type 0 where
  pending signing signed broadcast confirmed failed : CollectionStatus

pub data CollectionPurpose : Type 0 where
  treasury_sweep : CollectionPurpose

pub record CollectionFees : Type 0 where
  pub gas_limit : ℕ
  pub max_fee_per_gas : RawAmount
  pub max_priority_fee_per_gas : RawAmount

pub record CollectionTxPlan : Type 0 where
  pub chain_id : ℕ
  pub nonce : ℕ
  pub «from» : EvmAddress
  pub to : EvmAddress
  pub amount : RawAmount
  pub purpose : CollectionPurpose
  pub fees : CollectionFees

-- each with the existing value and that of the replacement
pub data CollectionReplacementError : Type 0 where
  chain_id_changed nonce_changed : ℕ → ℕ → CollectionReplacementError
  from_changed to_changed : EvmAddress → EvmAddress → CollectionReplacementError
  amount_changed : RawAmount → RawAmount → CollectionReplacementError
  purpose_changed : CollectionPurpose → CollectionPurpose → CollectionReplacementError
  max_fee_not_bumped priority_fee_not_bumped : RawAmount → RawAmount → CollectionReplacementError

-- `==` on purposes
abbrev pub same_purpose : CollectionPurpose → CollectionPurpose → Bool
same_purpose treasury_sweep treasury_sweep = true

unfoldable pub assert_replacement_allowed :
    CollectionTxPlan → CollectionTxPlan → Result (Unit {0}) CollectionReplacementError
assert_replacement_allowed self replacement = do
  fail_if (not (self.chain_id == replacement.chain_id))
      (chain_id_changed self.chain_id replacement.chain_id)
  fail_if (not (self.nonce == replacement.nonce)) (nonce_changed self.nonce replacement.nonce)
  fail_if (not (self.from == replacement.from)) (from_changed self.from replacement.from)
  fail_if (not (self.to == replacement.to)) (to_changed self.to replacement.to)
  fail_if (not (self.amount == replacement.amount)) (amount_changed self.amount replacement.amount)
  fail_if (not (same_purpose self.purpose replacement.purpose))
      (purpose_changed self.purpose replacement.purpose)
  fail_if (leb replacement.fees.max_fee_per_gas self.fees.max_fee_per_gas)
      (max_fee_not_bumped self.fees.max_fee_per_gas replacement.fees.max_fee_per_gas)
  fail_if (leb replacement.fees.max_priority_fee_per_gas self.fees.max_priority_fee_per_gas) (
      priority_fee_not_bumped self.fees.max_priority_fee_per_gas
        replacement.fees.max_priority_fee_per_gas)
