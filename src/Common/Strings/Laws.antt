-- ===== src/Common/Strings/Laws.antt =====
-- Laws of the string functions: cutting at a separator, trimming, reversing.
use mathlib.Core.List.{reverse, reverse-reverse, reverse-append}
use pay.Common.{
  ℕ, ◌≡◌, ◌≢◌, refl, sym, ap, ◌∙◌, false, inl, inr, List, [], ◌∷◌, ◌++◌, arith, ◌==◌, All,
  All-append, Bool-cases,
}
use pay.Common.Uint.{Text, IsDigit}
use pay.Common.Strings.{is_whitespace, trim_start, trim, contains, cons_part, split}

pub cons_part-ne-nil : (x : ℕ) (ps : List Text) → cons_part x ps ≢ []
cons_part-ne-nil x [] = cc
cons_part-ne-nil x (p ∷ ps) = cc

pub split-ne-nil : (c : ℕ) (s : Text) → split c s ≢ []
unfolding split
split-ne-nil c [] = cc
split-ne-nil c (x ∷ s) = ground (arith, cons_part-ne-nil x (split c s))

-- the first part taken off
cons_part_inv :
    (x : ℕ) (ps : List Text) {q : Text} {qs : List Text}
    → ps ≢ []
    → cons_part x ps ≡ q ∷ qs
    → (p : Text) × (ps ≡ p ∷ qs) × (q ≡ x ∷ p)
cons_part_inv x [] ne h = absurd (ne refl)
cons_part_inv x (p ∷ ps) ne h = (p, cc, cc)

-- A cut with one part is the text itself.
pub split_one : (c : ℕ) (s : Text) {p : Text} → split c s ≡ p ∷ [] → s ≡ p
unfolding split
split_one c [] h = cc
split_one c (x ∷ s) {p} h = elim (Bool-cases (x == c)) [
  | inl e ↦ absurd (split-ne-nil c s (let k : [] ∷ split c s ≡ p ∷ [] = rw e at h in cc))
  | inr e ↦
      let (q, e1, e2) = cons_part_inv x (split c s) (split-ne-nil c s) (rw e at h) in
      ap (λ r. x ∷ r) (split_one c s e1) ∙ sym e2
]

-- A cut with two parts has one separator, between them.
pub split_two : (c : ℕ) (s : Text) {p q : Text} → split c s ≡ p ∷ q ∷ [] → s ≡ p ++ c ∷ q
unfolding split
split_two c [] h = cc
split_two c (x ∷ s) {p} {q} h = elim (Bool-cases (x == c)) [
  | inl e ↦ ground (arith, split_one c s {p = q})
  | inr e ↦
      let (r, e1, e2) = cons_part_inv x (split c s) (split-ne-nil c s) (rw e at h) in
      rw e2 (ap (λ t. x ∷ t) (split_two c s e1))
]

pub split_lacks : (c : ℕ) (s : Text) → contains c s ≡ false → split c s ≡ s ∷ []
unfolding split
split_lacks c [] h = refl
split_lacks c (x ∷ s) h = ground (arith, split_lacks c s)

pub split_at :
    (c : ℕ) (s t : Text)
    → contains c s ≡ false
    → contains c t ≡ false
    → split c (s ++ c ∷ t) ≡ s ∷ t ∷ []
unfolding split
split_at c [] t hs ht = ground (arith, split_lacks c t)
split_at c (x ∷ s) t hs ht = ground (arith, split_at c s t)

abbrev pub IsInk : ℕ → Type 0
IsInk c = is_whitespace c ≡ false

pub trim_start-ink : (s : Text) → All IsInk s → trim_start s ≡ s
unfolding trim_start
trim_start-ink [] h = refl
trim_start-ink (c ∷ s) h = rw h.0

pub All-reverse {κ} : (P : ℕ → Type κ) (s : Text) → All P s → All P (reverse s)
All-reverse P [] h = h
All-reverse P (c ∷ s) h =
    rw (reverse-append (c ∷ []) s)
      (All-append P (reverse s) (c ∷ []) (All-reverse P s h.1) (h.0, tt))

-- A text without white space is not trimmed.
pub trim-ink : (s : Text) → All IsInk s → trim s ≡ s
unfolding trim
trim-ink s h =
    rw (trim_start-ink s h)
      (rw (trim_start-ink (reverse s) (All-reverse IsInk s h)) (reverse-reverse s))

pub digit-IsInk : (c : ℕ) → IsDigit c → IsInk c
unfolding is_whitespace
digit-IsInk c h = ground arith

pub digits-IsInk : (s : Text) → All IsDigit s → All IsInk s
digits-IsInk [] h = tt
digits-IsInk (c ∷ s) h = (digit-IsInk c h.0, digits-IsInk s h.1)

pub digits-lack : (s : Text) → All IsDigit s → contains b'.' s ≡ false
digits-lack [] h = refl
digits-lack (c ∷ s) h = ground (arith, digits-lack s)

pub point-IsInk : IsInk b'.'
unfolding is_whitespace
point-IsInk = refl

pub digit-not-point : (c : ℕ) → IsDigit c → (c == b'.') ≡ false
digit-not-point c h = ground arith
