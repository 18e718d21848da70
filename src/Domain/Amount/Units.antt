-- ===== src/Domain/Amount/Units.antt =====
-- What `parse_token_units` accepts and returns.
use mathlib.Core.List.{cons-ne-nil}
use pay.Common.{
  ℕ, ◌+◌, ◌*◌, ◌-◌, ◌^◌, ◌≤◌, ◌<◌, ◌≡◌, ◌≢◌, ◌≢◌, refl, sym, ap, ◌↔◌, ◌∙◌, [], ◌∷◌, ◌++◌, ok, arith,
  if◌then◌else◌, All, length,
}
use pay.Common.Uint.{U256, Text, u256_end, IsDigit, value}
use pay.Common.Strings.{is_empty}
use pay.Domain.Amount.{Parsed, parse_decimal_u256, add_fraction, check_parts, scale_parts}
use pay.Domain.Amount.Powers.{pow10_pos, pow10-add}
use pay.Domain.Amount.Fit.{
  fit, fit_lt, fit-bind, all_digits, digits_of_all, checked_mul-fit, checked_add-fit,
  parse_decimal-fit, pow10_u256-fit,
}

-- `whole.fraction` units of a token, in its smallest unit
abbrev pub units : Text → Text → ℕ → ℕ
units whole fraction decimals =
    value 0 whole * 10 ^ decimals + value 0 fraction * 10 ^ (decimals - length fraction)

pub pow10-le : (m n : ℕ) → m ≤ n → 10 ^ m ≤ 10 ^ n
pow10-le m n h =
    let e : n ≡ m + (n - m) = omega arith in
    rw e (rw (pow10-add m (n - m)) (grind (arith, pow10_pos (n - m))))

le-mul-pow10 : (n k : ℕ) → n ≤ n * 10 ^ k
le-mul-pow10 n k = grind (arith, pow10_pos k)

module _ (u : U256) where
  add_fraction-fit :
      (raw : ℕ) (fraction : Text) (decimals : ℕ)
      → fraction ≢ []
      → All IsDigit fraction
      → 10 ^ decimals < u256_end
      → add_fraction u raw fraction decimals
        ≡ fit (raw + value 0 fraction * 10 ^ (decimals - length fraction))
  unfolding add_fraction
  add_fraction-fit raw fraction decimals ne digits small =
      let k = decimals - length fraction in
      let v = value 0 fraction in
      rw (parse_decimal-fit u fraction ne digits, pow10_u256-fit u k)
        (fit-bind v (raw + v * 10 ^ k) _ (omega (arith, le-mul-pow10 v k)) λ _.
          rw
            (
              fit_lt (10 ^ k) (omega (arith, pow10-le k decimals (omega arith))),
              checked_mul-fit u v (10 ^ k),
            )
            (fit-bind (v * 10 ^ k) (raw + v * 10 ^ k) _ (omega arith)
              λ _. checked_add-fit u raw (v * 10 ^ k)))

  whole_part : Text → Parsed
  whole_part whole = if is_empty whole then ok 0 else parse_decimal_u256 u whole

  whole_part-fit : (whole : Text) → All IsDigit whole → whole_part whole ≡ fit (value 0 whole)
  unfolding whole_part
  whole_part-fit [] h = sym (fit_lt 0 (omega arith))
  whole_part-fit (c ∷ s) h = parse_decimal-fit u (c ∷ s) (cc) h

  last_step :
      (raw : ℕ) (fraction : Text) (decimals : ℕ)
      → All IsDigit fraction
      → 10 ^ decimals < u256_end
      → raw < u256_end
      → (if is_empty fraction then ok raw else add_fraction u raw fraction decimals)
        ≡ fit (raw + value 0 fraction * 10 ^ (decimals - length fraction))
  last_step raw [] decimals digits small lt = sym (ap fit (omega arith) ∙ fit_lt raw lt)
  last_step raw (c ∷ s) decimals digits small lt =
      add_fraction-fit raw (c ∷ s) decimals (cc) digits small

  pub scale_parts-fit :
      (whole fraction : Text) (decimals : ℕ)
      → All IsDigit whole
      → All IsDigit fraction
      → 10 ^ decimals < u256_end
      → scale_parts u whole fraction decimals ≡ fit (units whole fraction decimals)
  unfolding scale_parts whole_part
  scale_parts-fit whole fraction decimals hw hf small =
      let w = value 0 whole in
      let p = 10 ^ decimals in
      rw (pow10_u256-fit u decimals, fit_lt p small, whole_part-fit whole hw)
        (fit-bind w (units whole fraction decimals) _ (omega (arith, le-mul-pow10 w decimals)) λ _.
          rw (checked_mul-fit u w p) (
            fit-bind (w * p) (units whole fraction decimals) _ (omega arith)
              λ lt. last_step (w * p) fraction decimals hf small lt))

-- What the checks let through: digits, at least one, and no more decimals than the token has.
abbrev pub AreParts : Text → Text → ℕ → Type 0
AreParts whole fraction decimals =
    (whole ++ fraction ≢ [])
    × All IsDigit whole
    × All IsDigit fraction
    × (length fraction ≤ decimals)

check_parts_sound :
    (whole fraction : Text) (decimals : ℕ)
    → check_parts whole fraction decimals ≡ ok tt
    → AreParts whole fraction decimals
unfolding check_parts
check_parts_sound [] [] decimals h = cc
check_parts_sound [] (c ∷ s) decimals h = ground (arith, digits_of_all (c ∷ s), cons-ne-nil c s)
check_parts_sound (c ∷ s) fraction decimals h =
    ground (arith, digits_of_all (c ∷ s), digits_of_all fraction, cons-ne-nil c (s ++ fraction))

check_parts_complete :
    (whole fraction : Text) (decimals : ℕ)
    → AreParts whole fraction decimals
    → check_parts whole fraction decimals ≡ ok tt
unfolding check_parts
check_parts_complete [] [] decimals h = absurd (h.0 refl)
check_parts_complete [] (c ∷ s) decimals h = ground (arith, all_digits (c ∷ s))
check_parts_complete (c ∷ s) fraction decimals h =
    ground (arith, all_digits (c ∷ s), all_digits fraction)

-- The checks pass exactly on such parts.
pub check_parts-ok :
    (whole fraction : Text) (decimals : ℕ)
    → (check_parts whole fraction decimals ≡ ok tt) ↔ AreParts whole fraction decimals
check_parts-ok whole fraction decimals =
    (check_parts_sound whole fraction decimals, check_parts_complete whole fraction decimals)
