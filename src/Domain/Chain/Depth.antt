-- ===== src/Domain/Chain/Depth.antt =====
-- How confirmations grow with the head of the chain.
use pay.Common.{ℕ, ◌+◌, ◌≤◌, ◌<◌, ◌≡◌, ◌↔◌, true, arith}
use pay.Domain.Chain.{ChainBlockRef, u64_end, has_confirmations}

-- Under a head whose number is below the last u64, a block has at least one required confirmation
-- exactly when it lies that deep, the block itself counted.
pub has_confirmations_iff :
    (b head : ChainBlockRef) (required : ℕ)
    → head.number + 1 < u64_end
    → 0 < required
    → (has_confirmations b head required ≡ true) ↔ (b.number + required ≤ head.number + 1)
unfolding has_confirmations
has_confirmations_iff b head required bound pos = ground arith
