-- ===== src/Rpc/Quantity.antt =====
-- `parse_hex_u64` reads back what `quantity_hex` writes, and never more than a u64 holds.
use pay.LogStore.Source.{ChainError}
use pay.Common.Strings.{is_empty}
use pay.Common.{
  ℕ, zero, suc, ◌+◌, ◌*◌, ◌/◌, ◌%◌, ◌^◌, ◌≤◌, ◌<◌, ◌≡◌, refl, sym, ◌∙◌, ap, false, Option, none,
  some, [], ◌∷◌, ◌++◌, Result, ok, >>=-eq-ok, ok_or-ok, arith, Bool-cases, inl, inr, ltb, ◌==◌,
  length, length-append, if◌then◌else◌, fail_if, ltb→lt, lt→ltb, ltb→le, le→ltb, ◌≢◌, ==_iff, ok_or,
}
use pay.Common.Uint.{Text}
use pay.Domain.Address.{Bytes, hex_value, table, nth, strip_0x}
use pay.Domain.Address.Digits.{encodes_lem}
use pay.Domain.Chain.{u64_end}
use pay.Rpc.Hex.{
  hex_digits, quantity_hex, u64_digits, u64_from_hex, parse_digits, parse_hex_u64, digit_then,
}

digit_read : (d : ℕ) → d < 16 → hex_value (nth table d) ≡ some d
digit_read d h =
    let e : d * 16 / 2 ^ 4 ≡ d = omega arith in rw e at (encodes_lem (d * 16) (omega (arith, h))).0

plus_unread : none ≡ hex_value b'+'
unfolding hex_value
plus_unread = refl

pow16-suc : (n : ℕ) → 16 ^ suc n ≡ 16 * 16 ^ n
pow16-suc n = omega arith

pow16_pos : (fuel n : ℕ) → 16 ≤ n → n < 16 ^ suc fuel → 0 < fuel
pow16_pos zero n big small = absurd (omega arith)
pow16_pos (suc fuel) n big small = omega arith

none-some : {m : ℕ} → none ≢ some m
none-some = cc

digit_then-some :
    (n : ℕ) (o : Option ℕ) (rest : ℕ → Option ℕ) {m : ℕ}
    → digit_then n o rest ≡ some m
    → (d : ℕ) × (o ≡ some d) × (n * 16 + d < u64_end) × (rest (n * 16 + d) ≡ some m)
digit_then-some n none rest h = cc
digit_then-some n (some d) rest h = elim (Bool-cases (ltb (n * 16 + d) u64_end)) [
  | inl y ↦ (d, refl, ltb→lt _ _ y, rw y at h)
  | inr o ↦ absurd (none-some (rw o at h))
]

then_digit :
    (n d : ℕ) (rest : ℕ → Option ℕ)
    → n * 16 + d < u64_end
    → digit_then n (some d) rest ≡ rest (n * 16 + d)
then_digit n d rest h = rw (lt→ltb _ _ h) refl

-- one more digit is read behind those that were
u64_digits-append :
    (s : Bytes) (n m : ℕ) (t : Bytes)
    → u64_digits n s ≡ some m
    → u64_digits n (s ++ t) ≡ u64_digits m t
unfolding u64_digits
u64_digits-append [] n m t h = let e : n ≡ m = cc in rw e refl
u64_digits-append (c ∷ s) n m t h =
    let (d, e, small, k) = digit_then-some n (hex_value c) (λ k. u64_digits k s) h in
    ap (λ o. digit_then n o (λ k. u64_digits k (s ++ t))) e
    ∙ then_digit n d (λ k. u64_digits k (s ++ t)) small
    ∙ u64_digits-append s (n * 16 + d) m t k

digit_end :
    (n d : ℕ) → d < 16 → n * 16 + d < u64_end → u64_digits n (nth table d ∷ []) ≡ some (n * 16 + d)
unfolding u64_digits
digit_end n d h fit =
    ap (λ o. digit_then n o (λ k. some k)) (digit_read d h) ∙ then_digit n d (λ k. some k) fit

hex_digits_lem :
    (fuel n : ℕ)
    → n < 16 ^ fuel
    → n < u64_end
    → 0 < fuel
    → u64_digits 0 (hex_digits fuel n) ≡ some n
unfolding hex_digits
hex_digits_lem zero n small fit h = absurd (omega arith)
hex_digits_lem (suc fuel) n small fit h = elim (Bool-cases (ltb n 16)) [
  | inl y ↦
      let e : 0 * 16 + n ≡ n = omega arith in
      rw y (digit_end 0 n (ltb→lt n 16 y) (omega (arith, fit)) ∙ ap some e)
  | inr o ↦
      let big = ltb→le n 16 o in
      let less : n / 16 < 16 ^ fuel = omega (arith, small, pow16-suc fuel) in
      let whole : n / 16 * 16 + n % 16 ≡ n = omega arith in
      let front =
        hex_digits_lem fuel (n / 16) less (omega (arith, fit)) (pow16_pos fuel n big small) in
      rw o (
        u64_digits-append (hex_digits fuel (n / 16)) 0 (n / 16) (nth table (n % 16) ∷ []) front
        ∙ digit_end (n / 16) (n % 16) (omega arith) (omega (arith, whole, fit))
        ∙ ap some whole)
]

digit_not_plus : (d : ℕ) → d < 16 → (nth table d == b'+') ≡ false
digit_not_plus d h = elim (Bool-cases (nth table d == b'+')) [
  | inl y ↦
      let e : nth table d ≡ b'+' = (==_iff (nth table d) b'+').0 y in
      absurd (none-some (plus_unread ∙ sym (ap hex_value e) ∙ digit_read d h))
  | inr n ↦ n
]

-- a text that does not begin with a plus sign
abbrev IsUnsigned : Bytes → Type 0
IsUnsigned [] = ⊥
IsUnsigned (c ∷ s) = (c == b'+') ≡ false

append-IsUnsigned : (s t : Bytes) → IsUnsigned s → IsUnsigned (s ++ t)
append-IsUnsigned [] t h = absurd h
append-IsUnsigned (c ∷ s) t h = h

hex_digits-IsUnsigned :
    (fuel n : ℕ)
    → 0 < fuel
    → n < 16 ^ fuel
    → IsUnsigned (hex_digits fuel n) × (length (hex_digits fuel n) ≤ fuel)
unfolding hex_digits
hex_digits-IsUnsigned zero n h small = absurd (omega arith)
hex_digits-IsUnsigned (suc fuel) n h small = elim (Bool-cases (ltb n 16)) [
  | inl y ↦ rw y (digit_not_plus n (ltb→lt n 16 y), omega arith)
  | inr o ↦
      let big = ltb→le n 16 o in
      let less : n / 16 < 16 ^ fuel = omega (arith, small, pow16-suc fuel) in
      let (front, short) = hex_digits-IsUnsigned fuel (n / 16) (pow16_pos fuel n big small) less in
      let last = nth table (n % 16) ∷ [] in
      rw o (
        append-IsUnsigned (hex_digits fuel (n / 16)) last front,
        omega (arith, short, length-append (hex_digits fuel (n / 16)) last),
      )
]

u64_from_hex_lem : (s : Bytes) → IsUnsigned s → u64_from_hex s ≡ u64_digits 0 s
unfolding u64_from_hex
u64_from_hex_lem [] h = absurd h
u64_from_hex_lem (c ∷ []) h = rw h refl
u64_from_hex_lem (c ∷ d ∷ s) h = rw h refl

digits_read :
    (hex : Bytes) (field : Text) {n : ℕ}
    → IsUnsigned hex
    → length hex ≤ 16
    → u64_from_hex hex ≡ some n
    → (if is_empty hex then ok 0 else parse_digits hex field) ≡ ok n
digits_read [] field h short e = absurd h
digits_read (c ∷ s) field h short e = rw (le→ltb 16 (length (c ∷ s)) short, e) refl

ok_inj : {a b : ℕ} → ◌≡◌ {A = Result ℕ ChainError} (ok a) (ok b) → a ≡ b
ok_inj h = cc

-- Each u64 is read back from the quantity written for it.
pub parse_hex_u64-quantity_hex :
    (n : ℕ) (field : Text) → n < u64_end → parse_hex_u64 (quantity_hex n) field ≡ ok n
unfolding parse_hex_u64 quantity_hex
parse_hex_u64-quantity_hex n field h =
    let hex = hex_digits 16 n in
    let (unsigned, short) = hex_digits-IsUnsigned 16 n (omega arith) h in
    let digits = hex_digits_lem 16 n h h (omega arith) in
    digits_read hex field unsigned short (u64_from_hex_lem hex unsigned ∙ digits)

digits-bound : (s : Bytes) (n : ℕ) {m : ℕ} → n < u64_end → u64_digits n s ≡ some m → m < u64_end
unfolding u64_digits
digits-bound [] n {m} h e = let eq : n ≡ m = cc in omega (arith, h, eq)
digits-bound (c ∷ s) n h e =
    let (d, _, small, k) = digit_then-some n (hex_value c) (λ k. u64_digits k s) e in
    digits-bound s (n * 16 + d) small k

from_hex-bound : (s : Bytes) {m : ℕ} → u64_from_hex s ≡ some m → m < u64_end
unfolding u64_from_hex
from_hex-bound [] h = cc
from_hex-bound (c ∷ []) h = elim (Bool-cases (c == b'+')) [
  | inl y ↦ absurd (none-some (rw y at h))
  | inr n ↦ digits-bound (c ∷ []) 0 (omega arith) (rw n at h)
]
from_hex-bound (c ∷ d ∷ s) h = elim (Bool-cases (c == b'+')) [
  | inl y ↦ digits-bound (d ∷ s) 0 (omega arith) (rw y at h)
  | inr n ↦ digits-bound (c ∷ d ∷ s) 0 (omega arith) (rw n at h)
]

-- A quantity that is read fits into a u64.
pub parse_hex_u64-bound :
    (value : Bytes) (field : Text) {n : ℕ} → parse_hex_u64 value field ≡ ok n → n < u64_end
unfolding parse_hex_u64
parse_hex_u64-bound value field {n} h =
    let (hex, _, k) = >>=-eq-ok (ok_or (strip_0x value) _) _ h in
    elim (Bool-cases (is_empty hex)) [
      | inl y ↦
          let zero_read : ok 0 ≡ ok n = rw y at k in
          let eq : 0 ≡ n = ok_inj zero_read in omega (arith, eq)
      | inr no_digits ↦
          let (_, _, l) = >>=-eq-ok (fail_if (ltb 16 (length hex)) _) _ (rw no_digits at k) in
          from_hex-bound hex (ok_or-ok (u64_from_hex hex) _ l)
    ]
