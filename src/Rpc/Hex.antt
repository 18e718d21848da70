-- ===== src/Rpc/Hex.antt =====
-- src/chain/rpc.rs: the hexadecimal quantities that nodes read and write, as UTF-8 bytes.
use pay.Common.{
  ℕ, zero, suc, ◌+◌, ◌*◌, ◌/◌, ◌%◌, Option, none, some, [], ◌∷◌, ◌++◌, Result, ok, ◌>>=◌, ◌>>◌,
  ok_or, fail_if, ltb, ◌==◌, if◌then◌else◌, length,
}
use pay.Common.Uint.{Text}
use pay.Common.Strings.{codes, is_empty}
use pay.Domain.Address.{Bytes, hex_value, strip_0x, table, nth}
use pay.Domain.Chain.{u64_end}
use pay.LogStore.Source.{ChainError, malformed_rpc_response}

-- `{value:x}` of a u64, which has 16 digits at most
unfoldable pub hex_digits : ℕ → ℕ → Bytes
hex_digits zero n = []
hex_digits (suc fuel) n =
    let front = hex_digits fuel (n / 16) in
    if ltb n 16 then nth table n ∷ [] else front ++ nth table (n % 16) ∷ []

unfoldable pub quantity_hex : ℕ → Bytes
quantity_hex value = b'0' ∷ b'x' ∷ hex_digits 16 value

-- one digit behind the number `n`; what follows it is `rest`
abbrev pub digit_then : ℕ → Option ℕ → (ℕ → Option ℕ) → Option ℕ
digit_then n none rest = none
digit_then n (some d) rest = if ltb (n * 16 + d) u64_end then rest (n * 16 + d) else none

-- the digits of `u64::from_str_radix(s, 16)`, behind the number `n`
unfoldable pub u64_digits : ℕ → Bytes → Option ℕ
u64_digits n [] = some n
u64_digits n (c ∷ s) = digit_then n (hex_value c) (λ k. u64_digits k s)

-- `u64::from_str_radix(s, 16)`, which takes digits behind an optional plus sign
unfoldable pub u64_from_hex : Bytes → Option ℕ
u64_from_hex [] = none
u64_from_hex (c ∷ []) = if c == b'+' then none else u64_digits 0 (c ∷ [])
u64_from_hex (c ∷ d ∷ s) = if c == b'+' then u64_digits 0 (d ∷ s) else u64_digits 0 (c ∷ d ∷ s)

abbrev malformed : Text → Text → ChainError
malformed field complaint = malformed_rpc_response (field ++ complaint)

-- what is behind the prefix
abbrev pub parse_digits : Bytes → Text → Result ℕ ChainError
parse_digits hex field = do
  fail_if (ltb 16 (length hex)) (malformed field (codes " overflows u64"))
  ok_or (u64_from_hex hex) (malformed field (codes " contains invalid hex"))

unfoldable pub parse_hex_u64 : Bytes → Text → Result ℕ ChainError
parse_hex_u64 value field = do
  hex ← ok_or (strip_0x value) (malformed field (codes " must be a 0x-prefixed hex quantity"))
  if is_empty hex then ok 0 else parse_digits hex field

unfoldable pub parse_required_hex_u64 : Option Bytes → Text → Result ℕ ChainError
parse_required_hex_u64 value field = do
  s ← ok_or value (malformed field (codes " is missing from RPC response"))
  parse_hex_u64 s field
