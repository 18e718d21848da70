-- ===== src/Domain/Wallet.antt =====
-- src/domain/wallet.rs: the derivation segments of the wallet, walked in order.
pub mod Walk
use pay.Common.{ℕ, ◌+◌, ◌-◌, ◌^◌, Result, ok, err, ◌>>=◌, ◌>>◌, fail_if, ltb, if◌then◌else◌}

abbrev pub max_derivation_index : ℕ
max_derivation_index = 2 ^ 31 - 1

-- the `field` of the error
pub data Field : Type 0 where
  account change address : Field

pub data DerivationSegmentError : Type 0 where
  index_out_of_range : Field → ℕ → ℕ → DerivationSegmentError
  exhausted : DerivationSegmentError

-- the three indices are u32
pub record DerivationSegment : Type 0 where
  pub account_index : ℕ
  pub change_index : ℕ
  pub address_index : ℕ

abbrev pub first_segment : DerivationSegment
first_segment = record { account_index = 0; change_index = 0; address_index = 0 }

validate_index : Field → ℕ → Result (Unit {0}) DerivationSegmentError
validate_index field value =
    fail_if (ltb max_derivation_index value) (index_out_of_range field value max_derivation_index)

pub new : ℕ → ℕ → ℕ → Result DerivationSegment DerivationSegmentError
unfolding validate_index
new account_index change_index address_index = do
  validate_index account account_index
  validate_index change change_index
  validate_index address address_index
  ok (record {
    account_index = account_index;
    change_index = change_index;
    address_index = address_index;
  })

-- the additions stay below 2 ^ 31
pub next : DerivationSegment → Result DerivationSegment DerivationSegmentError
unfolding new
next s =
    if ltb s.address_index max_derivation_index
    then new s.account_index s.change_index (s.address_index + 1)
    else if ltb s.change_index max_derivation_index
    then new s.account_index (s.change_index + 1) 0
    else if ltb s.account_index max_derivation_index
    then new (s.account_index + 1) 0 0
    else err exhausted

-- `&mut self`: the segment handed out, and the new state
pub take_current_and_advance :
    DerivationSegment → Result (DerivationSegment × DerivationSegment) DerivationSegmentError
take_current_and_advance s = do n ← next s; ok (s, n)
