-- ===== src/Common/Uint.antt =====
-- The 256-bit integers of the package `alloy_primitives`, whose code the repository does not hold.
-- A value is represented by the number that it stands for; its checked arithmetic, its parser
-- and its printer are a parameter, with their documented behaviour as laws.
pub mod Model
use Prim.Native.Nat.{ℕ, ◌+◌, ◌-◌, ◌*◌, ◌^◌, ◌≤◌, ◌<◌}
use mathlib.Core.Path.{◌≡◌}
use mathlib.Core.Logic.{◌≢◌}
use mathlib.Core.List.{List, [], ◌∷◌}
use mathlib.Core.Option.{Option, none, some}
use pay.Common.Tests.{ltb, leb, if◌then◌else◌}
use pay.Common.Lists.{All}

-- 2 ^ 256, the first number that does not fit
abbrev pub u256_end : ℕ
u256_end = 2 ^ 256

-- A text is the list of its code points.
abbrev pub Text : Type 0
Text = List ℕ

abbrev pub IsDigit : ℕ → Type 0
IsDigit c = (b'0' ≤ c) × (c ≤ b'9')

-- the number that digits spell behind `n`, with no bound
abbrev pub value : ℕ → Text → ℕ
value n [] = n
value n (c ∷ s) = value (n * 10 + (c - b'0')) s

pub record U256 : Type 0 where
  pub checked_add : ℕ → ℕ → Option ℕ
  pub checked_sub : ℕ → ℕ → Option ℕ
  pub checked_mul : ℕ → ℕ → Option ℕ
  -- `from_str_radix(s, 10)`; its error is not looked at
  pub from_decimal : Text → Option ℕ
  -- `Display`
  pub display : ℕ → Text
  pub checked_add_lem :
      (a b : ℕ) → checked_add a b ≡ (if ltb (a + b) u256_end then some (a + b) else none)
  pub checked_sub_lem : (a b : ℕ) → checked_sub a b ≡ (if leb b a then some (a - b) else none)
  pub checked_mul_lem :
      (a b : ℕ) → checked_mul a b ≡ (if ltb (a * b) u256_end then some (a * b) else none)
  pub from_decimal_lem :
      (s : Text)
      → s ≢ []
      → All IsDigit s
      → from_decimal s ≡ (if ltb (value 0 s) u256_end then some (value 0 s) else none)
  pub display_digits : (n : ℕ) → n < u256_end → All IsDigit (display n)
  pub display-ne-nil : (n : ℕ) → n < u256_end → display n ≢ []
  pub value-display : (n : ℕ) → n < u256_end → value 0 (display n) ≡ n
