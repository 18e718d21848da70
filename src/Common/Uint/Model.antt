-- ===== src/Common/Uint/Model.antt =====
-- An implementation of `U256`, so that what is assumed of it is known to hold of something.
use pay.Common.Tests.{ltb, leb, if◌then◌else◌, Bool-cases}
use pay.Common.Lists.{All, All-append}
use pay.Common.Uint.{U256, Text, IsDigit, value, u256_end}
use Prim.Native.Nat.{ℕ, zero, suc, ◌+◌, ◌-◌, ◌*◌, ◌/◌, ◌%◌, ◌^◌, ◌<◌, ◌≤◌}
use native.Mathlib.Nat.{pow-suc}
use native.Mathlib.Omega.{arith}
use mathlib.Core.Path.{◌≡◌, refl}
use mathlib.Core.Logic.{◌≢◌, inl, inr}
use mathlib.Core.Bool.{Bool, true, false}
use mathlib.Core.Option.{none, some}
use mathlib.Core.List.{[], ◌∷◌, ◌++◌}

-- the digits of a number below 10 ^ `rounds`
unfoldable pub print : ℕ → ℕ → Text
print zero n = []
print (suc rounds) n =
    let front = print rounds (n / 10) in (if ltb n 10 then [] else front) ++ (b'0' + n % 10) ∷ []

value-append : (s t : Text) (n : ℕ) → value n (s ++ t) ≡ value (value n s) t
value-append [] t n = refl
value-append (c ∷ s) t n = value-append s t (n * 10 + (c - b'0'))

rounds_pos : (rounds n : ℕ) → 10 ≤ n → n / 10 < 10 ^ rounds → 0 < rounds
rounds_pos zero n big h = absurd (omega arith)
rounds_pos (suc r) n big h = omega arith

pub value-print : (rounds n : ℕ) → n < 10 ^ rounds → 0 < rounds → value 0 (print rounds n) ≡ n
unfolding print
value-print zero n h p = absurd (omega arith)
value-print (suc rounds) n h p = elim (Bool-cases (ltb n 10)) [
  | inl small ↦ rw small (let e : n < 10 = ground arith in omega arith)
  | inr large ↦
      let big : 10 ≤ n = ground arith in
      let tenth : n / 10 < 10 ^ rounds = omega (arith, pow-suc 10 rounds) in
      rw
        (
          large,
          value-append (print rounds (n / 10)) ((b'0' + n % 10) ∷ []) 0,
          value-print rounds (n / 10) tenth (rounds_pos rounds n big tenth),
        )
        (omega arith)
]

any_digits : (b : Bool) (s : Text) → All IsDigit s → All IsDigit (if b then [] else s)
any_digits true s h = tt
any_digits false s h = h

pub print-digits : (rounds n : ℕ) → All IsDigit (print rounds n)
unfolding print
print-digits zero n = tt
print-digits (suc rounds) n =
    All-append IsDigit (if ltb n 10 then [] else print rounds (n / 10)) ((b'0' + n % 10) ∷ [])
      (any_digits (ltb n 10) (print rounds (n / 10)) (print-digits rounds (n / 10))) (omega arith)

append-ne-nil : (s : Text) (c : ℕ) → s ++ c ∷ [] ≢ []
append-ne-nil [] c = cc
append-ne-nil (d ∷ s) c = cc

pub print-ne-nil : (rounds n : ℕ) → print (suc rounds) n ≢ []
unfolding print
print-ne-nil rounds n =
    append-ne-nil (if ltb n 10 then [] else print rounds (n / 10)) (b'0' + n % 10)

-- 2 ^ 256 has 78 digits.
unfoldable pub u256 : U256
u256 = record {
  checked_add = λ a b. if ltb (a + b) u256_end then some (a + b) else none;
  checked_sub = λ a b. if leb b a then some (a - b) else none;
  checked_mul = λ a b. if ltb (a * b) u256_end then some (a * b) else none;
  from_decimal = λ s. if ltb (value 0 s) u256_end then some (value 0 s) else none;
  display = print 78;
  checked_add_lem = λ a b. refl;
  checked_sub_lem = λ a b. refl;
  checked_mul_lem = λ a b. refl;
  from_decimal_lem = λ s _ _. refl;
  display_digits = λ n _. print-digits 78 n;
  display-ne-nil = λ n _. print-ne-nil 77 n;
  value-display = λ n h. value-print 78 n (omega arith) (omega arith);
}
