-- ===== src/Domain/Amount/Powers.antt =====
-- Powers of ten, and the value of a text of digits.
use pay.Common.{
  ℕ, zero, suc, ◌+◌, ◌*◌, ◌-◌, ◌^◌, ◌<◌, ◌≡◌, refl, ◌∙◌, [], ◌∷◌, ◌++◌, arith, length, replicate,
}
use pay.Common.Uint.{Text, value}
use native.Mathlib.Nat.{pow-suc, pow-zero, zero-add, suc-add, mul_assoc}

pub pow10_pos : (n : ℕ) → 0 < 10 ^ n
pow10_pos zero = omega arith
pow10_pos (suc n) = rw pow-suc (omega (arith, pow10_pos n))

pub pow10-suc : (n : ℕ) → 10 ^ suc n ≡ 10 * 10 ^ n
pow10-suc n = rw pow-suc (omega arith)

pub pow10-add : (m n : ℕ) → 10 ^ (m + n) ≡ 10 ^ m * 10 ^ n
pow10-add zero n = simp (zero-add, pow-zero) (omega arith)
pow10-add (suc m) n = rw (suc-add, pow10-suc (m + n), pow10-suc m, pow10-add m n, mul_assoc)

pub value-append : (s t : Text) (n : ℕ) → value n (s ++ t) ≡ value (value n s) t
value-append [] t n = refl
value-append (c ∷ s) t n = value-append s t (n * 10 + (c - b'0'))

-- what stands in front of digits counts with their weight
pub value_shift : (s : Text) (n : ℕ) → value n s ≡ n * 10 ^ length s + value 0 s
value_shift [] n = omega arith
value_shift (c ∷ s) n =
    rw (value_shift s (n * 10 + (c - b'0')), value_shift s (0 + (c - b'0')), pow10-suc (length s))
      (grind arith)

pub value_zeros : (k : ℕ) (n : ℕ) → value n (replicate k b'0') ≡ n * 10 ^ k
value_zeros zero n = omega arith
value_zeros (suc k) n = value_zeros k (n * 10 + 0) ∙ rw (pow10-suc k) (grind arith)
