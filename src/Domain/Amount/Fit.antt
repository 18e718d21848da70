-- ===== src/Domain/Amount/Fit.antt =====
-- The arithmetic of src/domain/amount.rs in one form: a number if it fits 256 bits, else an overflow.
use pay.Common.{
  ℕ, zero, suc, ◌+◌, ◌*◌, ◌^◌, ◌≤◌, ◌<◌, ◌≡◌, ◌≢◌, refl, true, inl, inr, [], ◌∷◌, ok, err, ◌>>=◌,
  ok_or, arith, ltb, if◌then◌else◌, Bool-cases, lt→ltb, ltb→lt, ltb→le, le→ltb, ap, ◌∙◌, all, All,
}
use pay.Common.Uint.{U256, Text, u256_end, IsDigit, value}
use pay.Common.Strings.{is_ascii_digit}
use pay.Domain.Amount.{overflow, Parsed, parse_decimal_u256, pow10_loop, pow10_u256}
use native.Mathlib.Nat.{mul-one, one-mul, mul_assoc}
use pay.Domain.Amount.Powers.{pow10_pos, pow10-suc}

pub fit : ℕ → Parsed
fit n = if ltb n u256_end then ok n else err overflow

pub fit_lt : (n : ℕ) → n < u256_end → fit n ≡ ok n
unfolding fit
fit_lt n h = rw (lt→ltb n u256_end h)

pub fit_lem : (n : ℕ) → fit n ≡ (if ltb n u256_end then ok n else err overflow)
unfolding fit
fit_lem n = refl

pub fit_ok : (n : ℕ) {m : ℕ} → fit n ≡ ok m → (m ≡ n) × (n < u256_end)
unfolding fit
fit_ok n h = ground arith

-- a step that overflows makes any larger result overflow too
pub fit-bind :
    (n m : ℕ) (k : ℕ → Parsed) → n ≤ m → (n < u256_end → k n ≡ fit m) → (fit n >>= k) ≡ fit m
unfolding fit
fit-bind n m k h e = elim (Bool-cases (ltb n u256_end)) [
  | inl p ↦ rw p (e (ltb→lt n _ p))
  | inr p ↦ rw (p, le→ltb m u256_end (omega (arith, ltb→le n _ p)))
]

pub all_digits : (s : Text) → All IsDigit s → all is_ascii_digit s ≡ true
all_digits [] h = refl
all_digits (c ∷ s) h = ground (arith, all_digits s h.1)

pub digits_of_all : (s : Text) → all is_ascii_digit s ≡ true → All IsDigit s
digits_of_all [] h = tt
digits_of_all (c ∷ s) h = ground (arith, digits_of_all s)

ten_step : (v n : ℕ) → v * 10 * 10 ^ n ≡ v * 10 ^ suc n
ten_step v n = rw (pow10-suc n) (omega (arith, mul_assoc v 10 (10 ^ n)))

ten_le : (v n : ℕ) → v * 10 ≤ v * 10 ^ suc n
ten_le v n = rw (← ten_step v n) (grind (arith, pow10_pos n))

module _ (u : U256) where
  pub checked_mul-fit : (a b : ℕ) → ok_or (u.checked_mul a b) overflow ≡ fit (a * b)
  unfolding fit
  checked_mul-fit a b = rw (u.checked_mul_lem a b) (ground arith)

  pub checked_add-fit : (a b : ℕ) → ok_or (u.checked_add a b) overflow ≡ fit (a + b)
  unfolding fit
  checked_add-fit a b = rw (u.checked_add_lem a b) (ground arith)

  pub parse_decimal-fit :
      (s : Text) → s ≢ [] → All IsDigit s → parse_decimal_u256 u s ≡ fit (value 0 s)
  unfolding parse_decimal_u256 fit
  parse_decimal-fit [] h _ = absurd (h refl)
  parse_decimal-fit (c ∷ s) h d =
      rw (all_digits (c ∷ s) d) (rw (u.from_decimal_lem (c ∷ s) h d) (ground arith))

  pub parse_decimal-all :
      (s : Text) {n : ℕ} → parse_decimal_u256 u s ≡ ok n → all is_ascii_digit s ≡ true
  unfolding parse_decimal_u256
  parse_decimal-all s h = ground arith

  pow10_loop-fit : (n v : ℕ) → v < u256_end → pow10_loop u n v ≡ fit (v * 10 ^ n)
  unfolding pow10_loop
  pow10_loop-fit zero v h = rw (mul-one v, fit_lt v h)
  pow10_loop-fit (suc n) v h = rw (checked_mul-fit v 10) (
      fit-bind (v * 10) _ (pow10_loop u n) (ten_le v n)
        λ lt. pow10_loop-fit n (v * 10) lt ∙ ap fit (ten_step v n))

  -- The loop returns the power of ten when it fits 256 bits, and reports an overflow otherwise.
  pub pow10_u256-fit : (n : ℕ) → pow10_u256 u n ≡ fit (10 ^ n)
  unfolding pow10_u256
  pow10_u256-fit n = pow10_loop-fit n 1 (omega arith) ∙ ap fit (one-mul (10 ^ n))
