-- ===== src/Domain/Amount/Parse.antt =====
-- What the parsers of src/domain/amount.rs accept, and what they return.
use mathlib.Core.List.{cons-ne-nil}
use pay.Common.{
  ℕ, ◌^◌, ◌≤◌, ◌<◌, ◌≡◌, ◌≢◌, refl, sym, ◌∙◌, false, inl, inr, ◌⊎◌, ◌↔◌, List, [], ◌∷◌, ◌++◌, ok,
  err, ◌>>◌, arith, ltb, if◌then◌else◌, All, >>=-eq-ok,
}
use pay.Common.Uint.{U256, Text, u256_end, IsDigit, value}
use pay.Common.Strings.{is_empty, trim, starts_with, split}
use pay.Common.Strings.Laws.{split_one, split_two, split_lacks, split_at, digits-lack, split-ne-nil}
use pay.Domain.Amount.{
  overflow, parse_decimal_u256, pow10_u256, check_parts, scale_parts, parse_parts,
  parse_token_units, parse_dec_str,
}
use pay.Domain.Amount.Fit.{
  fit_lt, digits_of_all, pow10_u256-fit, parse_decimal-fit, fit_ok, fit_lem, parse_decimal-all,
}
use pay.Domain.Amount.Units.{units, AreParts, check_parts-ok, scale_parts-fit, pow10-le}

-- the text before the point and the text behind it; a text without a point is the first alone
abbrev pub IsSplit : Text → Text → Text → Type 0
IsSplit t whole fraction = ((t ≡ whole) × (fraction ≡ [])) ⊎ (t ≡ whole ++ b'.' ∷ fraction)

module _ (u : U256) where
  scale_parts_small :
      (whole fraction : Text) (decimals : ℕ) {n : ℕ}
      → scale_parts u whole fraction decimals ≡ ok n
      → 10 ^ decimals < u256_end
  unfolding scale_parts
  scale_parts_small whole fraction decimals h =
      let (s, e, _) = >>=-eq-ok (pow10_u256 u decimals) _ h in
      (fit_ok (10 ^ decimals) (sym (pow10_u256-fit u decimals) ∙ e)).1

  -- What a successful parse of two parts says of them.
  abbrev pub ParsedAs : Text → ℕ → ℕ → Type 0
  ParsedAs t decimals n =
      (whole : Text) × (fraction : Text) × IsSplit t whole fraction
      × AreParts whole fraction decimals
      × (n ≡ units whole fraction decimals)
      × (n < u256_end)
      × (10 ^ decimals < u256_end)

  both_parts :
      (t whole fraction : Text) (decimals : ℕ) {n : ℕ}
      → IsSplit t whole fraction
      → (check_parts whole fraction decimals >> scale_parts u whole fraction decimals) ≡ ok n
      → ParsedAs t decimals n
  both_parts t whole fraction decimals {n} sp h =
      let (_, checked, scaled) =
        >>=-eq-ok (check_parts whole fraction decimals) (λ _. scale_parts u whole fraction decimals)
          h in
      let parts = (check_parts-ok whole fraction decimals).0 checked in
      let small = scale_parts_small whole fraction decimals scaled in
      let exact =
        fit_ok (units whole fraction decimals)
          (sym (scale_parts-fit u whole fraction decimals parts.1 parts.2 small) ∙ scaled) in
      (whole, fraction, sp, parts, exact.0, rw exact.0 exact.1, small)

  parse_parts_sound :
      (t : Text) (decimals : ℕ) {n : ℕ} (parts : List Text)
      → split b'.' t ≡ parts
      → parse_parts u parts decimals ≡ ok n
      → ParsedAs t decimals n
  unfolding parse_parts
  parse_parts_sound t decimals [] e h = absurd (split-ne-nil b'.' t e)
  parse_parts_sound t decimals (p ∷ []) e h =
      both_parts t p [] decimals (inl (split_one b'.' t e, refl)) h
  parse_parts_sound t decimals (p ∷ q ∷ []) e h =
      both_parts t p q decimals (inr (split_two b'.' t e)) h
  parse_parts_sound t decimals (p ∷ q ∷ r ∷ ps) e h = cc

  -- An accepted text is digits, or digits around one point, at least one digit, with no more
  -- decimals than the token has, and the result is its exact value in the smallest unit.
  pub parse_token_units_sound :
      (input : Text) (decimals : ℕ) {n : ℕ}
      → parse_token_units u input decimals ≡ ok n
      → ParsedAs (trim input) decimals n
  unfolding parse_token_units
  parse_token_units_sound input decimals h =
      parse_parts_sound (trim input) decimals (split b'.' (trim input)) refl (ground arith)

-- no digit and no point is a sign
no_sign :
    (t whole fraction : Text) (decimals : ℕ)
    → IsSplit t whole fraction
    → AreParts whole fraction decimals
    → (is_empty t ≡ false) × (starts_with b'-' t ≡ false) × (starts_with b'+' t ≡ false)
no_sign t [] fraction decimals (inl (e, e')) parts = absurd (parts.0 e')
no_sign t (c ∷ s) fraction decimals (inl (e, e')) parts = rw e (ground arith)
no_sign t [] fraction decimals (inr e) parts = rw e (refl, refl, refl)
no_sign t (c ∷ s) fraction decimals (inr e) parts = rw e (ground arith)

module _ (u : U256) where
  parse_parts-split :
      (t whole fraction : Text) (decimals : ℕ)
      → IsSplit t whole fraction
      → AreParts whole fraction decimals
      → parse_parts u (split b'.' t) decimals
        ≡ (check_parts whole fraction decimals >> scale_parts u whole fraction decimals)
  unfolding parse_parts
  parse_parts-split t whole fraction decimals (inl (e, e')) parts =
      rw (e, e', split_lacks b'.' whole (digits-lack whole parts.1)) refl
  parse_parts-split t whole fraction decimals (inr e) parts =
      rw
        (e, split_at b'.' whole fraction (digits-lack whole parts.1) (digits-lack fraction parts.2))
        refl

  -- A text of digits, or of digits around one point, with one digit at least and no more decimals
  -- than the token has, is accepted if its exact value fits 256 bits, and an overflow is reported if
  -- not, for every token whose unit itself fits.
  pub parse_token_units_complete :
      (input whole fraction : Text) (decimals : ℕ)
      → IsSplit (trim input) whole fraction
      → AreParts whole fraction decimals
      → 10 ^ decimals < u256_end
      → parse_token_units u input decimals ≡ (
          if ltb (units whole fraction decimals) u256_end
          then ok (units whole fraction decimals)
          else err overflow)
  unfolding parse_token_units
  parse_token_units_complete input whole fraction decimals sp parts small =
      let (e1, e2, e3) = no_sign (trim input) whole fraction decimals sp parts in
      rw
        (
          e1,
          e2,
          e3,
          parse_parts-split (trim input) whole fraction decimals sp parts,
          (check_parts-ok whole fraction decimals).1 parts,
        )
        (scale_parts-fit u whole fraction decimals parts.1 parts.2 small
          ∙ fit_lem (units whole fraction decimals))

  -- A token with 78 decimals or more has a unit that does not fit, and nothing parses, zero included.
  pub parse_token_units_wide :
      (input : Text) (decimals n : ℕ) → 78 ≤ decimals → parse_token_units u input decimals ≢ ok n
  parse_token_units_wide input decimals n wide h =
      let (_, _, _, _, _, _, small) = parse_token_units_sound u input decimals h in
      omega (arith, pow10-le 78 decimals wide)

  parse_decimal_sound :
      (s : Text) (n : ℕ)
      → parse_decimal_u256 u s ≡ ok n
      → (s ≢ []) × All IsDigit s × (n ≡ value 0 s) × (n < u256_end)
  parse_decimal_sound [] n h = absurd (unfold parse_decimal_u256 in cc)
  parse_decimal_sound (c ∷ s) n h =
      let digits = digits_of_all (c ∷ s) (parse_decimal-all u (c ∷ s) h) in
      let (e, lt) = fit_ok (value 0 (c ∷ s)) (sym (parse_decimal-fit u (c ∷ s) (cc) digits) ∙ h) in
      (cons-ne-nil c s, digits, e, rw e lt)

  parse_dec_str-inner :
      (input : Text) (n : ℕ)
      → parse_dec_str u input ≡ ok n
      → parse_decimal_u256 u (trim input) ≡ ok n
  unfolding parse_dec_str
  parse_dec_str-inner input n h = ground arith

  parse_dec_str_complete :
      (input t : Text) (n : ℕ)
      → trim input ≡ t
      → (t ≢ []) × All IsDigit t × (n ≡ value 0 t) × (n < u256_end)
      → parse_dec_str u input ≡ ok n
  unfolding parse_dec_str
  parse_dec_str_complete input [] n e h = absurd (h.0 refl)
  parse_dec_str_complete input (c ∷ s) n e (ne, digits, exact, lt) =
      let inner : parse_decimal_u256 u (c ∷ s) ≡ ok n =
        parse_decimal-fit u (c ∷ s) ne digits ∙ rw (← exact) (fit_lt n lt) in
      rw e (ground (arith, digits-lack (c ∷ s) digits, inner))

  -- A raw amount is read as the number that its digits spell, when it fits, and what is accepted is
  -- digits alone.
  pub parse_dec_str_iff :
      (input : Text) (n : ℕ)
      → (parse_dec_str u input ≡ ok n) ↔ (
          (trim input ≢ [])
          × All IsDigit (trim input)
          × (n ≡ value 0 (trim input))
          × (n < u256_end))
  parse_dec_str_iff input n = (
    λ h. parse_decimal_sound (trim input) n (parse_dec_str-inner input n h),
    λ h. parse_dec_str_complete input (trim input) n refl h,
  )
