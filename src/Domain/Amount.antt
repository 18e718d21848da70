-- ===== src/Domain/Amount.antt =====
-- src/domain/amount.rs: amounts of a token in its smallest unit, and their decimal texts.
pub mod Powers
pub mod Fit
pub mod Units
pub mod Parse
pub mod Print
use pay.Common.{
  ℕ, zero, suc, ◌-◌, ◌+◌, Bool, true, false, not, ◌&&◌, ◌||◌, Option, none, some, List, [], ◌∷◌,
  ◌++◌, Result, ok, err, ◌>>=◌, ◌>>◌, ok_or, fail_if, ltb, leb, ◌==◌, if◌then◌else◌, all, length,
  take, drop, replicate,
}
use pay.Common.Uint.{U256, Text}
use pay.Common.Strings.{is_empty, is_ascii_digit, trim, starts_with, contains, split}
use mathlib.Core.List.{reverse}

pub data AmountParseError : Type 0 where
  empty negative invalid_format invalid_digits overflow : AmountParseError
  too_many_fractional_digits : ℕ → ℕ → AmountParseError

-- `RawAmount` is a `U256`, represented by its number.
abbrev pub RawAmount : Type 0
RawAmount = ℕ

abbrev pub Parsed : Type 0
Parsed = Result RawAmount AmountParseError

pub record TokenAmount : Type 0 where
  pub raw : RawAmount
  pub decimals : ℕ  -- u8

-- `value.ends_with('0')` and `pop`, on the reversed text
unfoldable pub pop_zeros : Text → Text
pop_zeros [] = []
pop_zeros (c ∷ s) = let rest = pop_zeros s in if c == b'0' then rest else c ∷ s

unfoldable pub pop_point : Text → Text
pop_point [] = []
pop_point (c ∷ s) = if c == b'.' then s else c ∷ s

-- the text with all its decimals, before the trailing zeros go
unfoldable pub padded_decimal : Text → ℕ → Text
padded_decimal raw decimals =
    if leb (length raw) decimals
    then b'0' ∷ b'.' ∷ (replicate (decimals - length raw) b'0' ++ raw)
    else take (length raw - decimals) raw ++ b'.' ∷ drop (length raw - decimals) raw

-- the nth item of the iterator `s.split('.')`
abbrev pub nth_part : List Text → ℕ → Option Text
nth_part [] n = none
nth_part (p ∷ ps) zero = some p
nth_part (p ∷ ps) (suc n) = nth_part ps n

abbrev pub or_default : Option Text → Text
or_default none = []
or_default (some s) = s

abbrev pub is_some : Option Text → Bool
is_some none = false
is_some (some _) = true

-- the checks of `parse_token_units` on the text before the point and the text behind it
unfoldable pub check_parts : Text → Text → ℕ → Result (Unit {0}) AmountParseError
check_parts whole fraction decimals = do
  fail_if (is_empty whole && is_empty fraction) empty
  fail_if (not (is_empty whole) && not (all is_ascii_digit whole)) invalid_digits
  fail_if (not (all is_ascii_digit fraction)) invalid_digits
  fail_if (ltb decimals (length fraction)) (too_many_fractional_digits (length fraction) decimals)

module _ (u : U256) where
  unfoldable pub parse_decimal_u256 : Text → Parsed
  parse_decimal_u256 s = do
    fail_if (is_empty s) empty
    fail_if (not (all is_ascii_digit s)) invalid_digits
    ok_or (u.from_decimal s) overflow

  -- the rounds of `for _ in 0..decimals`
  unfoldable pub pow10_loop : ℕ → ℕ → Parsed
  pow10_loop zero value = ok value
  pow10_loop (suc n) value = do v ← ok_or (u.checked_mul value 10) overflow; pow10_loop n v

  unfoldable pub pow10_u256 : ℕ → Parsed
  pow10_u256 decimals = pow10_loop decimals 1

  -- `RawAmount::parse_dec_str`
  unfoldable pub parse_dec_str : Text → Parsed
  parse_dec_str input = do
    let s = trim input
    fail_if (is_empty s) empty
    fail_if (starts_with b'-' s) negative
    fail_if (starts_with b'+' s || contains b'.' s) invalid_format
    parse_decimal_u256 s

  unfoldable pub checked_add : RawAmount → RawAmount → Option RawAmount
  checked_add a b = u.checked_add a b

  unfoldable pub checked_sub : RawAmount → RawAmount → Option RawAmount
  checked_sub a b = u.checked_sub a b

  -- the `if !fraction.is_empty()` block
  unfoldable pub add_fraction : RawAmount → Text → ℕ → Parsed
  add_fraction raw fraction decimals = do
    fractional_raw ← parse_decimal_u256 fraction
    fractional_scale ← pow10_u256 (decimals - length fraction)
    scaled ← ok_or (u.checked_mul fractional_raw fractional_scale) overflow
    ok_or (u.checked_add raw scaled) overflow

  -- the arithmetic of `parse_token_units`
  unfoldable pub scale_parts : Text → Text → ℕ → Parsed
  scale_parts whole fraction decimals = do
    scale ← pow10_u256 decimals
    whole_raw ← (if is_empty whole then ok 0 else parse_decimal_u256 whole)
    raw ← ok_or (u.checked_mul whole_raw scale) overflow
    if is_empty fraction then ok raw else add_fraction raw fraction decimals

  unfoldable pub parse_parts : List Text → ℕ → Parsed
  parse_parts parts decimals = do
    fail_if (is_some (nth_part parts 2)) invalid_format
    let whole = or_default (nth_part parts 0)
    let fraction = or_default (nth_part parts 1)
    check_parts whole fraction decimals
    scale_parts whole fraction decimals

  unfoldable pub parse_token_units : Text → ℕ → Parsed
  parse_token_units input decimals = do
    let s = trim input
    fail_if (is_empty s) empty
    fail_if (starts_with b'-' s) negative
    fail_if (starts_with b'+' s) invalid_format
    parse_parts (split b'.' s) decimals

  -- `TokenAmount::parse`
  unfoldable pub parse : Text → ℕ → Result TokenAmount AmountParseError
  parse input decimals = do
    raw ← parse_token_units input decimals
    ok (record { raw = raw; decimals = decimals })

  unfoldable pub to_decimal_string : TokenAmount → Text
  unfolding pop_zeros pop_point
  to_decimal_string amount =
      let raw = u.display amount.raw in
      if amount.decimals == 0
      then raw
      else reverse (pop_point (pop_zeros (reverse (padded_decimal raw amount.decimals))))
