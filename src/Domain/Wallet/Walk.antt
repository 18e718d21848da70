-- ===== src/Domain/Wallet/Walk.antt =====
-- The segments are walked one by one, in the order of their number, and none twice.
use pay.Common.{
  ℕ, zero, suc, ◌+◌, ◌*◌, ◌^◌, ◌≤◌, ◌<◌, ◌≡◌, refl, List, [], ◌∷◌, ◌⊎◌, inl, inr, Result, ok, err,
  ◌>>=◌, arith, Bool-cases, ltb, length,
}
use pay.Domain.Wallet.{
  max_derivation_index, DerivationSegmentError, exhausted, DerivationSegment, next,
  take_current_and_advance,
}

pub record IsValid (s : DerivationSegment) : Type 0 where
  pub account_ok : s.account_index ≤ max_derivation_index
  pub change_ok : s.change_index ≤ max_derivation_index
  pub address_ok : s.address_index ≤ max_derivation_index

-- the place of a segment in the walk
abbrev pub place : DerivationSegment → ℕ
place s = (s.account_index * 2 ^ 31 + s.change_index) * 2 ^ 31 + s.address_index

-- the number of segments
abbrev pub places : ℕ
places = 2 ^ 93

-- The next segment is valid and stands at the next place; the walk ends at the last place alone.
pub next_lem :
    (s : DerivationSegment)
    → IsValid s
    → ((t : DerivationSegment) × (next s ≡ ok t) × IsValid t × (place t ≡ place s + 1))
      ⊎ ((next s ≡ err exhausted) × (place s + 1 ≡ places))
unfolding next
next_lem s v = elim (Bool-cases (ltb s.address_index max_derivation_index)) [
  | inl p ↦
      inl
        (record s { address_index = s.address_index + 1 }, ground arith, ground arith, ground arith)
  | inr p ↦ elim (Bool-cases (ltb s.change_index max_derivation_index)) [
    | inl q ↦ inl (
      record s { change_index = s.change_index + 1; address_index = 0 },
      ground arith,
      ground arith,
      ground arith,
    )
    | inr q ↦ elim (Bool-cases (ltb s.account_index max_derivation_index)) [
      | inl r ↦ inl (
        record { account_index = s.account_index + 1; change_index = 0; address_index = 0 },
        ground arith,
        ground arith,
        ground arith,
      )
      | inr r ↦ inr (ground arith, ground arith)
    ]
  ]
]

-- Valid segments at one place are the same.
pub place_inj : (s t : DerivationSegment) → IsValid s → IsValid t → place s ≡ place t → s ≡ t
place_inj s t vs vt e = ground arith

-- `n` calls of `take_current_and_advance`, and what they handed out
pub hand_out : ℕ → DerivationSegment → Result (List DerivationSegment) DerivationSegmentError
hand_out zero s = ok []
hand_out (suc n) s = do
  taken ← take_current_and_advance s
  rest ← hand_out n taken.1
  ok (taken.0 ∷ rest)

-- valid segments, one at each place from `p` on
abbrev pub AreConsecutive : ℕ → List DerivationSegment → Type 0
AreConsecutive p [] = Unit {0}
AreConsecutive p (s ∷ ss) = IsValid s × (place s ≡ p) × AreConsecutive (p + 1) ss

-- As long as places are left, every call succeeds, and the segments handed out are valid and stand
-- at consecutive places, so that no two are the same.
pub hand_out_lem :
    (n : ℕ) (s : DerivationSegment)
    → IsValid s
    → place s + n < places
    → (ss : List DerivationSegment) × (hand_out n s ≡ ok ss)
      × (length ss ≡ n)
      × AreConsecutive (place s) ss
unfolding hand_out take_current_and_advance
hand_out_lem zero s v h = ([], refl, refl, tt)
hand_out_lem (suc n) s v h = elim (next_lem s v) [
  | inr (e, last) ↦ absurd (omega arith)
  | inl (t, e, vt, pt) ↦
      let (ss, e', len, c) = hand_out_lem n t vt (omega arith) in
      (s ∷ ss, rw (e, e') refl, omega arith, (v, refl, rw pt at c))
]
