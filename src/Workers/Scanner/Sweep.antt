-- ===== src/Workers/Scanner/Sweep.antt =====
-- What a sweep confirms.
use pay.Common.{
  ℕ, ◌+◌, ◌<◌, ◌≡◌, refl, ◌↔◌, true, not, Option, none, some, List, [], ◌∷◌, Result, ok, err, arith,
  All, map, filter, >>=-eq-ok, Bool-cases, inl, inr, ◌==◌, ==_iff, subst, fail_if, if◌then◌else◌,
  leb, Bool, false, ◌≢◌, sym, ◌∙◌, ap, max, suc, zero, ◌≤◌,
}
use pay.Common.Maps.{get, insert, nat_ord}
use pay.Common.Maps.Laws.{get-insert}
use pay.Domain.Chain.{ChainBlockRef, u64_end, has_confirmations, confirmations_against}
use pay.Ledger.{ChainBlock, Uuid}
use pay.Workers.Scanner.{
  PaymentConfirmationCandidate, PaymentScannerError, max_confirmable_block, block_ref, Cache,
  canonical_block, confirmable_from, canonical_confirmable_payment_ids, chain,
}

-- the test of the query that looks for the payments
abbrev pub is_up_to : ℕ → Option ℕ → Bool
is_up_to n none = false
is_up_to n (some m) = leb n m

-- Under a head whose number is below the last u64, a sweep asks for the payments of exactly those blocks
-- that lie at the head or below it by at least the confirmations required less one, where none required
-- counts as one. These are exactly the blocks that do not lie above the head and have the confirmations
-- required.
pub max_confirmable_block_iff :
    (b head : ChainBlockRef) (required : ℕ)
    → head.number + 1 < u64_end
    → ((is_up_to b.number (max_confirmable_block head required) ≡ true)
        ↔ (b.number + max 1 required ≤ head.number + 1))
      × ((is_up_to b.number (max_confirmable_block head required) ≡ true)
          ↔ ((has_confirmations b head required ≡ true) × (b.number ≤ head.number)))
unfolding max_confirmable_block has_confirmations confirmations_against
max_confirmable_block_iff b head zero bound = ground arith
max_confirmable_block_iff b head (suc required) bound = ground arith

-- the candidate in front, where it is chosen
chosen :
    (b : Bool) (c : PaymentConfirmationCandidate) (rest ids : List Uuid)
    (cs : List PaymentConfirmationCandidate)
    → (if b then c.payment_id ∷ rest else rest) ≡ ids
    → rest ≡ map (λ c. c.payment_id) cs
    → ids ≡ map (λ c. c.payment_id) (if b then c ∷ cs else cs)
chosen true c rest ids cs e t = sym e ∙ ap (λ r. c.payment_id ∷ r) t
chosen false c rest ids cs e t = sym e ∙ t

module _ {E : Type 0} (block_by_number : ℕ → Result ChainBlock E) where
  -- what the map of the blocks holds was answered by the chain
  abbrev IsCache : Cache → Type 0
  IsCache cache =
      (n : ℕ) (r : ChainBlockRef)
      → get n cache ≡ some r
      → (b : ChainBlock) × (block_by_number n ≡ ok b) × (r ≡ block_ref b)

  -- the chain has the block of the candidate, with the hash that is stored
  abbrev pub IsCanonical : PaymentConfirmationCandidate → Type 0
  IsCanonical c =
      (b : ChainBlock) × (block_by_number c.block.number ≡ ok b) × (b.hash ≡ c.block.hash)

  abbrev Answered : ℕ → ChainBlockRef × Cache → Type 0
  Answered n r = ((b : ChainBlock) × (block_by_number n ≡ ok b) × (r.0 ≡ block_ref b)) × IsCache r.1

  insert-IsCache :
      (n : ℕ) (b : ChainBlock) (cache : Cache)
      → block_by_number n ≡ ok b
      → IsCache cache
      → IsCache (insert n (block_ref b) cache)
  insert-IsCache n b cache a h m r e =
      let k : (if n == m then some (block_ref b) else get m cache) ≡ some r =
        sym (get-insert n m (block_ref b) cache) ∙ e in
      elim (Bool-cases (n == m)) [
        | inl y ↦
            let found : some (block_ref b) ≡ some r = rw y at k in
            let eq : block_ref b ≡ r = cc in
            (b, subst (λ i. block_by_number i ≡ ok b) ((==_iff n m).0 y) a, sym eq)
        | inr o ↦ h m r (rw o at k)
      ]

  empty-IsCache : IsCache []
  unfolding get
  empty-IsCache n r e = cc

  no_answer :
      (n : ℕ) (cache : Cache) (x : E) {r : ChainBlockRef × Cache}
      → block_by_number n ≡ err x
      → canonical_block block_by_number n cache none ≢ ok r
  no_answer n cache x {r} a k = let l : err (chain x) ≡ ok r = rw (a, canonical_block) at k in cc

  pair_inj :
      (p : Result (ChainBlockRef × Cache) (PaymentScannerError E)) {a b : ChainBlockRef × Cache}
      → p ≡ ok a
      → p ≡ ok b
      → a ≡ b
  pair_inj p e k = cc

  canonical_lem :
      (n : ℕ) (cache : Cache) (o : Option ChainBlockRef) (answer : Result ChainBlock E)
      {r : ChainBlockRef × Cache}
      → IsCache cache
      → get n cache ≡ o
      → block_by_number n ≡ answer
      → canonical_block block_by_number n cache o ≡ ok r
      → Answered n r
  canonical_lem n cache (some b) answer {r} h e a k =
      let eq : (b, cache) ≡ r = cc in subst (Answered n) eq (h n b e, h)
  canonical_lem n cache none (err x) h e a k = absurd (no_answer n cache x a k)
  canonical_lem n cache none (ok b) {r} h e a k =
      let found : ok (block_ref b, insert n (block_ref b) cache) ≡ ok r =
        rw (a, canonical_block) at k in
      let eq : (block_ref b, insert n (block_ref b) cache) ≡ r = pair_inj _ refl found in
      subst (Answered n) eq ((b, a, refl), insert-IsCache n b cache a h)

  ids_inj :
      (p : Result (List Uuid) (PaymentScannerError E)) {a b : List Uuid}
      → p ≡ ok a
      → p ≡ ok b
      → a ≡ b
  ids_inj p e k = cc

  confirmable_lem :
      (head : ChainBlockRef) (required : ℕ) (cache : Cache) (cs : List PaymentConfirmationCandidate)
      {ids : List Uuid}
      → IsCache cache
      → confirmable_from block_by_number head required cache cs ≡ ok ids
      → (ids ≡ map (λ c. c.payment_id) (filter (λ c. has_confirmations c.block head required) cs))
        × All IsCanonical cs
  unfolding confirmable_from
  confirmable_lem head required cache [] h k = (cc, tt)
  confirmable_lem head required cache (c ∷ cs) {ids} h k =
      let n = c.block.number in
      let (r, er, k1) = >>=-eq-ok (canonical_block block_by_number n cache (get n cache)) _ k in
      let (_, same, k2) = >>=-eq-ok (fail_if (not (r.0.hash == c.block.hash)) _) _ k1 in
      let (rest, es, k3) = >>=-eq-ok (confirmable_from block_by_number head required r.1 cs) _ k2 in
      let ((b, answered, ref), cached) =
        canonical_lem n cache (get n cache) (block_by_number n) h refl refl er in
      let (tail, canonical) = confirmable_lem head required r.1 cs cached es in
      let equal : r.0.hash ≡ c.block.hash = ground arith in
      let hash : b.hash ≡ c.block.hash = rw ref at equal in
      (
        chosen (has_confirmations c.block head required) c rest ids _ (ids_inj _ refl k3) tail,
        ((b, answered, hash), canonical),
      )

  -- A sweep that succeeds confirms exactly the candidates that have the required confirmations, in their
  -- order, and the chain has the block of each candidate with the hash that is stored for it.
  pub canonical_confirmable_payment_ids_lem :
      (head : ChainBlockRef) (required : ℕ) (cs : List PaymentConfirmationCandidate)
      {ids : List Uuid}
      → canonical_confirmable_payment_ids block_by_number head required cs ≡ ok ids
      → (ids ≡ map (λ c. c.payment_id) (filter (λ c. has_confirmations c.block head required) cs))
        × All IsCanonical cs
  unfolding canonical_confirmable_payment_ids
  canonical_confirmable_payment_ids_lem head required cs k =
      confirmable_lem head required [] cs empty-IsCache k
