-- ===== src/Domain/Chain.antt =====
-- src/domain/chain.rs: a block of the chain, and how deep it lies under the head.
pub mod Depth
use pay.Common.{
  ℕ, ◌+◌, ◌-◌, ◌%◌, ◌^◌, Bool, true, false, ◌&&◌, ◌||◌, Option, none, some, ltb, leb, ◌==◌,
  if◌then◌else◌,
}

-- 2 ^ 64, the first number that a u64 does not hold
abbrev pub u64_end : ℕ
u64_end = 2 ^ 64

-- A block hash is represented by the number that its 32 bytes spell.
abbrev pub BlockHash : Type 0
BlockHash = ℕ

pub record ChainBlockRef : Type 0 where
  pub number : ℕ
  pub hash : BlockHash

-- `+ 1` is in u64, and wraps
unfoldable pub confirmations_against : ChainBlockRef → ChainBlockRef → Option ℕ
confirmations_against b canonical_head =
    if ltb canonical_head.number b.number
    then none
    else some ((canonical_head.number - b.number + 1) % u64_end)

-- `is_some_and(|confirmations| confirmations >= required)`
abbrev at_least : ℕ → Option ℕ → Bool
at_least required none = false
at_least required (some confirmations) = leb required confirmations

unfoldable pub has_confirmations : ChainBlockRef → ChainBlockRef → ℕ → Bool
unfolding confirmations_against
has_confirmations b canonical_head required =
    required == 0 || at_least required (confirmations_against b canonical_head)

unfoldable same_block : ChainBlockRef → ChainBlockRef → Bool
same_block a b = a.number == b.number && a.hash == b.hash
