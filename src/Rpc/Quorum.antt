-- ===== src/Rpc/Quorum.antt =====
-- What the blocks of a request that succeeded have in common, and the head taken from them.
use pay.Rpc.Texts.{tag_number}
use pay.Common.Strings.{codes}
use pay.Rpc.Health.{Instant}
use pay.Rpc.Request.{blocks_answered, taken_lem}
use pay.Rpc.Heads.{head_by_tag, request_blocks, blocks_by_tag, head_of, head_ref}
use pay.LogStore.Source.{ChainError, block_not_found}
use pay.Rpc.Manager.{RpcProviderManager, provider_candidates}
use pay.Rpc.Consistent.{AreConsistent, least_lem, ensure_consistent_block_hashes_iff}
use pay.Common.{
  ℕ, ◌≡◌, refl, sym, ◌∙◌, Option, none, some, List, [], ◌∷◌, ok, All, inl, inr, subst, Result, ap,
  ◌≤◌, arith, take, max, ◌<◌, length, ◌>>=◌, err, ◌≢◌, take-ne-nil, ◌⊎◌, ◌++◌, All-imp, Has,
}
use pay.Common.Uint.{Text}
use pay.Common.Maps.{nat_ord}
use pay.Domain.Chain.{ChainBlockRef}
use pay.Rpc.Blocks.{
  ProviderBlock, ensure_consistent_block_hashes, least, Readers, select_conservative_head,
}

-- the blocks that a request takes
abbrev pub chosen_blocks :
    {Value : Type 0}
    → Readers Value
    → RpcProviderManager
    → Instant
    → (ℕ → Result Value ChainError)
    → List ProviderBlock
chosen_blocks readers m now answer =
    take (max 1 m.min_provider_count)
      (blocks_answered readers answer m.providers (provider_candidates m now).0)

-- a head that is right for the blocks it was taken from
abbrev pub IsHeadOf : List ProviderBlock → ChainBlockRef → Type 0
IsHeadOf blocks head =
    (b : ProviderBlock) × Has b blocks
    × (b.block.number ≡ head.number)
    × (b.block.hash ≡ head.hash)
    × AreConsistent blocks
    × All (λ b. head.number ≤ b.block.number) blocks
    × All (λ b. b.block.number ≡ head.number → b.block.hash ≡ head.hash) blocks

ref_of : ProviderBlock → ChainBlockRef
ref_of b = record { number = b.block.number; hash = b.block.hash }

Has-self : (b : ProviderBlock) (bs : List ProviderBlock) → All (λ x. Has x (b ∷ bs)) (b ∷ bs)
Has-self b bs = (inl refl, all_in (b ∷ bs) bs (λ x h. inr h))
  where
    all_in :
        (L xs : List ProviderBlock)
        → ((x : ProviderBlock) → Has x xs → Has x L)
        → All (λ x. Has x L) xs
    all_in L [] f = tt
    all_in L (x ∷ xs) f = (f x (inl refl), all_in L xs (λ y h. f y (inr h)))

least-Has : (b : ProviderBlock) (bs : List ProviderBlock) → Has (least b bs) (b ∷ bs)
least-Has b bs = let all = Has-self b bs in (least_lem (λ x. Has x (b ∷ bs)) b bs all.0 all.1).0

selected_head :
    (b : ProviderBlock) (bs : List ProviderBlock)
    → AreConsistent (b ∷ bs)
    → IsHeadOf (b ∷ bs) (ref_of (least b bs))
unfolding ref_of
selected_head b bs (hash_at, same) =
    let (own, low, all) =
      least_lem (λ x. x.block.hash ≡ hash_at x.block.number) b bs same.0 same.1 in
    let agree : (x : ProviderBlock)
        → x.block.hash ≡ hash_at x.block.number
        → x.block.number ≡ (least b bs).block.number
        → x.block.hash ≡ (least b bs).block.hash =
      λ x h e. h ∙ ap hash_at e ∙ sym own in
    (
      least b bs,
      least-Has b bs,
      refl,
      refl,
      (hash_at, same),
      (low, all),
      All-imp _ _ (b ∷ bs) agree same,
    )

consistent_head :
    (context : Text) (blocks : List ProviderBlock) (check : Result (Unit {0}) ChainError)
    (head : ChainBlockRef)
    → 0 < length blocks
    → ensure_consistent_block_hashes context blocks ≡ check
    → head_ref (head_of (check >>= λ _. ok blocks)) ≡ some (ok head)
    → IsHeadOf blocks head
unfolding select_conservative_head ref_of
consistent_head context [] check head n e h = absurd (omega arith)
consistent_head context (b ∷ bs) (err x) head n e h = cc
consistent_head context (b ∷ bs) (ok tt) head n e h =
    let eq : ref_of (least b bs) ≡ head = cc in
    subst (IsHeadOf (b ∷ bs)) eq
      (selected_head b bs ((ensure_consistent_block_hashes_iff context (b ∷ bs)).0 e))

no_panic :
    (context : Text) (blocks : List ProviderBlock) (check : Result (Unit {0}) ChainError)
    → 0 < length blocks
    → head_ref (head_of (check >>= λ _. ok blocks)) ≢ none
unfolding select_conservative_head
no_panic context [] check n = absurd (omega arith)
no_panic context (b ∷ bs) (err x) n = cc
no_panic context (b ∷ bs) (ok tt) n = cc

empty_or {ℓ} : {A : Type ℓ} (xs : List A) → (xs ≡ []) ⊎ (0 < length xs)
empty_or [] = inl refl
empty_or (x ∷ xs) = inr (omega arith)

nonempty_length {ℓ} : {A : Type ℓ} (xs : List A) → xs ≢ [] → 0 < length xs
nonempty_length [] ne = absurd (ne refl)
nonempty_length (x ∷ xs) ne = omega arith

length-take_pos : (k : ℕ) (bs : List ProviderBlock) → 0 < length bs → 0 < length (take (max 1 k) bs)
length-take_pos k bs h = nonempty_length _ (take-ne-nil (max 1 k) bs (omega arith) h)

-- what a head request may answer
abbrev IsReply : List ProviderBlock → Option (Result ChainBlockRef ChainError) → Type 0
IsReply blocks reply =
    (reply ≢ none) × ((head : ChainBlockRef) → reply ≡ some (ok head) → IsHeadOf blocks head)

-- A request for a head never panics on an empty list of blocks. The head that it returns is the number
-- and the hash of one of the blocks that the request took, which have one hash for each number: no block
-- among them has a smaller number, and those that have the number of the head have its hash.
pub head_by_tag_lem :
    {Value : Type 0} (readers : Readers Value) (m : RpcProviderManager) (now : Instant)
    (answer : ℕ → Result Value ChainError) (at : ℕ → Instant) (tag : Text)
    → let reply = (head_by_tag readers m now answer at tag).0 in
      (reply ≢ none)
      × ((head : ChainBlockRef)
          → reply ≡ some (ok head)
          → IsHeadOf (chosen_blocks readers m now answer) head)
unfolding head_by_tag blocks_by_tag
head_by_tag_lem readers m now answer at tag =
    let context = codes "block tag " ++ tag in
    let not_found = block_not_found tag_number in
    let (right, wrong) = taken_lem readers m now answer at context not_found in
    let chosen = chosen_blocks readers m now answer in
    let result = (request_blocks readers m now answer at context not_found).0 in
    elim (empty_or (blocks_answered readers answer m.providers (provider_candidates m now).0)) [
      | inl e ↦
          let (errors, r) = wrong e in
          subst (λ x. IsReply chosen (head_ref (head_of x))) (sym r) (cc, λ head h. cc)
      | inr n ↦
          let k = length-take_pos m.min_provider_count _ n in
          subst (λ x. IsReply chosen (head_ref (head_of x))) (sym (right n))
            (
              no_panic context chosen (ensure_consistent_block_hashes context chosen) k,
              λ head h. consistent_head context chosen _ head k refl h,
            )
    ]
