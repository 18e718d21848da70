-- ===== src/Domain/Kv.antt =====
-- src/domain/kv.rs: the counter of the reorganisations that were seen.
use pay.Common.{
  ℕ, ◌+◌, ◌≡◌, Bool, true, Option, none, some, Result, ok, ◌>>=◌, ok_or, ltb, if◌then◌else◌, arith,
  ◌⊎◌,
}
use pay.Domain.Chain.{u64_end}

pub data KvReorgEpochError : Type 0 where
  overflow : KvReorgEpochError

pub record KvReorgEpoch : Type 0 where
  pub epoch : ℕ
  pub last_reorg_from : Option ℕ

abbrev pub zero_epoch : KvReorgEpoch
zero_epoch = record { epoch = 0; last_reorg_from = none }

-- `u64::checked_add`
abbrev pub checked_add_u64 : ℕ → ℕ → Option ℕ
checked_add_u64 a b = if ltb (a + b) u64_end then some (a + b) else none

pub bump : KvReorgEpoch → ℕ → Result KvReorgEpoch KvReorgEpochError
bump e from = do
  next ← ok_or (checked_add_u64 e.epoch 1) overflow
  ok (record { epoch = next; last_reorg_from = some from })

pub is_newer_than : KvReorgEpoch → ℕ → Bool
is_newer_than e seen_epoch = ltb seen_epoch e.epoch

-- A bumped counter is newer than what anyone saw before, and it names the floor of the last
-- reorganisation.
pub bump-newer :
    (e : KvReorgEpoch) (from seen : ℕ) {e' : KvReorgEpoch}
    → is_newer_than e seen ≡ true ⊎ (seen ≡ e.epoch)
    → bump e from ≡ ok e'
    → (is_newer_than e' seen ≡ true) × (e'.last_reorg_from ≡ some from)
unfolding bump is_newer_than
bump-newer e from seen seen_before h = ground arith
