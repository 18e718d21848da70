-- ===== src/Rpc/Consistent.antt =====
-- The check of the hashes, and the head chosen, against their descriptions.
use pay.LogStore.Source.{ChainError}
use pay.Common.{
  ℕ, ◌≡◌, refl, sym, ◌∙◌, true, Option, none, some, List, [], ◌∷◌, ok, All, ◌==◌, ==_iff,
  if◌then◌else◌, Bool-cases, inl, inr, subst, Result, >>=-eq-ok, ap, fail_if, ◌↔◌, ◌≤◌, not, arith,
  ltb,
}
use pay.Common.Uint.{Text}
use pay.Common.Maps.{Map, get, insert, nat_ord}
use pay.Common.Maps.Laws.{get-insert}
use pay.Domain.Chain.{BlockHash}
use pay.Rpc.Blocks.{ProviderBlock, compared, compare_from, ensure_consistent_block_hashes, least}

-- there is one hash for each number
abbrev pub AreConsistent : List ProviderBlock → Type 0
AreConsistent blocks =
    (hash_at : ℕ → BlockHash) × All (λ b. b.block.hash ≡ hash_at b.block.number) blocks

-- the hashes that the map holds are those of `hash_at`
abbrev Agrees : (ℕ → BlockHash) → Map ℕ ProviderBlock → Type 0
Agrees hash_at hashes =
    (n : ℕ) (b : ProviderBlock) → get n hashes ≡ some b → b.block.hash ≡ hash_at n

empty-Agrees : (hash_at : ℕ → BlockHash) → Agrees hash_at []
unfolding get
empty-Agrees hash_at n b e = cc

insert-Agrees :
    (hash_at : ℕ → BlockHash) (b : ProviderBlock) (hashes : Map ℕ ProviderBlock)
    → b.block.hash ≡ hash_at b.block.number
    → Agrees hash_at hashes
    → Agrees hash_at (insert b.block.number b hashes)
insert-Agrees hash_at b hashes h a n c e =
    let k : (if b.block.number == n then some b else get n hashes) ≡ some c =
      sym (get-insert b.block.number n b hashes) ∙ e in
    elim (Bool-cases (b.block.number == n)) [
      | inl y ↦
          let same : some b ≡ some c = rw y at k in
          let eq : b ≡ c = cc in
          let number : b.block.number ≡ n = (==_iff b.block.number n).0 y in
          subst (λ x. x.block.hash ≡ hash_at n) eq (subst (λ i. b.block.hash ≡ hash_at i) number h)
      | inr o ↦ a n c (rw o at k)
    ]

module _ (context : Text) where
  compared_complete :
      (hash_at : ℕ → BlockHash) (b : ProviderBlock) (hashes : Map ℕ ProviderBlock)
      (o : Option ProviderBlock)
      → b.block.hash ≡ hash_at b.block.number
      → Agrees hash_at hashes
      → get b.block.number hashes ≡ o
      → (next : Map ℕ ProviderBlock) × (compared context b hashes o ≡ ok next) × Agrees hash_at next
  compared_complete hash_at b hashes none h a e =
      (insert b.block.number b hashes, refl, insert-Agrees hash_at b hashes h a)
  compared_complete hash_at b hashes (some x) h a e =
      let same : (x.block.hash == b.block.hash) ≡ true =
        (==_iff x.block.hash b.block.hash).1 (a b.block.number x e ∙ sym h) in
      (hashes, rw same refl, a)

  compare_complete :
      (hash_at : ℕ → BlockHash) (hashes : Map ℕ ProviderBlock) (bs : List ProviderBlock)
      → Agrees hash_at hashes
      → All (λ b. b.block.hash ≡ hash_at b.block.number) bs
      → compare_from context hashes bs ≡ ok tt
  unfolding compare_from
  compare_complete hash_at hashes [] a h = refl
  compare_complete hash_at hashes (b ∷ bs) a h =
      let (next, e, a') =
        compared_complete hash_at b hashes (get b.block.number hashes) h.0 a refl in
      rw (e) (compare_complete hash_at next bs a' h.1)

  abbrev hash_or : Option ProviderBlock → BlockHash
  hash_or none = 0
  hash_or (some b) = b.block.hash

  kept :
      (m : Result (Map ℕ ProviderBlock) ChainError) {a b : Map ℕ ProviderBlock}
      → m ≡ ok a
      → m ≡ ok b
      → a ≡ b
  kept m h k = cc

  -- what the step keeps, the map had, and it has the hash of the block
  compared_sound :
      (hash_at : ℕ → BlockHash) (b : ProviderBlock) (hashes : Map ℕ ProviderBlock)
      (o : Option ProviderBlock) {next : Map ℕ ProviderBlock}
      → get b.block.number hashes ≡ o
      → compared context b hashes o ≡ ok next
      → Agrees hash_at next
      → (b.block.hash ≡ hash_at b.block.number) × Agrees hash_at hashes
  compared_sound hash_at b hashes (some x) e c a =
      let (_, same, k) = >>=-eq-ok (fail_if (not (x.block.hash == b.block.hash)) _) _ c in
      let eq : x.block.hash ≡ b.block.hash = ground arith in
      let a' = subst (Agrees hash_at) (sym (kept _ refl k)) a in
      (sym eq ∙ a' b.block.number x e, a')
  compared_sound hash_at b hashes none e c a =
      let a' = subst (Agrees hash_at) (sym (kept _ refl c)) a in
      let own : (b.block.number == b.block.number) ≡ true =
        (==_iff b.block.number b.block.number).1 refl in
      (
        a' b.block.number b (get-insert b.block.number b.block.number b hashes ∙ (rw own refl)),
        λ n x k. elim (Bool-cases (b.block.number == n)) [
          | inl y ↦
              let number = (==_iff b.block.number n).0 y in
              let lost : none ≡ some x = sym e ∙ (rw number k) in cc
          | inr other ↦ a' n x (get-insert b.block.number n b hashes ∙ (rw other k))
        ],
      )

  compare_sound :
      (hashes : Map ℕ ProviderBlock) (bs : List ProviderBlock)
      → compare_from context hashes bs ≡ ok tt
      → (hash_at : ℕ → BlockHash) × All (λ b. b.block.hash ≡ hash_at b.block.number) bs
        × Agrees hash_at hashes
  unfolding compare_from
  compare_sound hashes [] h = (λ n. hash_or (get n hashes), tt, λ n b e. sym (ap hash_or e))
  compare_sound hashes (b ∷ bs) h =
      let (next, e, k) = >>=-eq-ok (compared context b hashes (get b.block.number hashes)) _ h in
      let (hash_at, rest, a) = compare_sound next bs k in
      let (own, a') = compared_sound hash_at b hashes (get b.block.number hashes) refl e a in
      (hash_at, (own, rest), a')

  -- The check passes exactly when the blocks have one hash for each number.
  pub ensure_consistent_block_hashes_iff :
      (blocks : List ProviderBlock)
      → (ensure_consistent_block_hashes context blocks ≡ ok tt) ↔ AreConsistent blocks
  unfolding ensure_consistent_block_hashes
  ensure_consistent_block_hashes_iff blocks = (
    λ h. let (hash_at, all, _) = compare_sound [] blocks h in (hash_at, all),
    λ c. compare_complete c.0 [] blocks (empty-Agrees c.0) c.1,
  )

next_le :
    (b c : ProviderBlock)
    → let next = if ltb c.block.number b.block.number then c else b in
      (next.block.number ≤ c.block.number) × (next.block.number ≤ b.block.number)
next_le b c = ground arith

next-P :
    (P : ProviderBlock → Type 0) (b c : ProviderBlock)
    → P b
    → P c
    → P (if ltb c.block.number b.block.number then c else b)
next-P P b c p q = elim (Bool-cases (ltb c.block.number b.block.number)) [
  | inl y ↦ rw y q
  | inr n ↦ rw n p
]

-- The block chosen is one of the list, and no block of the list has a smaller number.
pub least_lem :
    (P : ProviderBlock → Type 0) (b : ProviderBlock) (bs : List ProviderBlock)
    → P b
    → All P bs
    → P (least b bs)
      × (least b bs).block.number ≤ b.block.number
      × All (λ x. (least b bs).block.number ≤ x.block.number) bs
least_lem P b [] p h = (p, omega arith, tt)
least_lem P b (c ∷ bs) p h =
    let next = if ltb c.block.number b.block.number then c else b in
    let (q, low, all) = least_lem P next bs (next-P P b c p h.0) h.1 in
    let (below_c, below_b) = next_le b c in
    (q, omega (arith, low, below_b), (omega (arith, low, below_c), all))
