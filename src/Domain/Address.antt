-- ===== src/Domain/Address.antt =====
-- src/domain/address.rs: addresses and hashes, and their hexadecimal texts as UTF-8 bytes.
pub mod Digits
pub mod RoundTrip
use Prim.Native.Nat.{bit_and, bit_or}
use pay.Common.{
  ℕ, zero, suc, ◌+◌, ◌-◌, ◌*◌, ◌/◌, ◌%◌, ◌^◌, Bool, true, false, not, ◌&&◌, Option, none, some,
  List, [], ◌∷◌, ◌++◌, Result, ok, err, ◌>>=◌, ◌>>◌, ok_or, fail_if, leb, ◌==◌, if◌then◌else◌,
  length,
}
use pay.Common.Uint.{Text}
use pay.Common.Strings.{codes}

-- Outside this module an address is represented by the number that its 20 bytes spell.
abbrev pub EvmAddress : Type 0
EvmAddress = ℕ

abbrev pub Bytes : Type 0
Bytes = List ℕ

-- each with `kind`, the name of what is parsed
pub data HexParseError : Type 0 where
  missing_prefix : Text → HexParseError
  invalid_length : Text → ℕ → ℕ → HexParseError
  invalid_hex : Text → ℕ → HexParseError

abbrev pub is_between : ℕ → ℕ → ℕ → Bool
is_between lo hi c = leb lo c && leb c hi

unfoldable pub hex_value : ℕ → Option ℕ
hex_value byte =
    if is_between b'0' b'9' byte
    then some (byte - b'0')
    else if is_between b'a' b'f' byte
    then some (byte - b'a' + 10)
    else if is_between b'A' b'F' byte
    then some (byte - b'A' + 10)
    else none

-- `input.strip_prefix("0x").or_else(|| input.strip_prefix("0X"))`
abbrev pub strip_0x : Bytes → Option Bytes
strip_0x [] = none
strip_0x (_ ∷ []) = none
strip_0x (a ∷ b ∷ hex) =
    if a == b'0' && (b == b'x')
    then some hex
    else if a == b'0' && (b == b'X')
    then some hex
    else none

module _ (kind : Text) where
  -- the loop over `chunks_exact(2)`, which leaves an odd byte at the end alone; the shift is in u8
  unfoldable pub decode_chunks : ℕ → Bytes → Result Bytes HexParseError
  decode_chunks index [] = ok []
  decode_chunks index (_ ∷ []) = ok []
  decode_chunks index (c ∷ d ∷ rest) = do
    high ← ok_or (hex_value c) (invalid_hex kind (index * 2))
    low ← ok_or (hex_value d) (invalid_hex kind (index * 2 + 1))
    bytes ← decode_chunks (index + 1) rest
    ok (bit_or (high * 16 % 256) low ∷ bytes)

-- `decode_prefixed_fixed::<n>`
unfoldable pub decode_prefixed_fixed : ℕ → Bytes → Text → Result Bytes HexParseError
decode_prefixed_fixed n input kind = do
  hex ← ok_or (strip_0x input) (missing_prefix kind)
  let expected = n * 2
  fail_if (not (length hex == expected)) (invalid_length kind expected (length hex))
  decode_chunks kind 0 hex

abbrev pub table : Text
table = codes "0123456789abcdef"

-- `TABLE[i]`; `i` is below 16 at both uses
abbrev pub nth : Text → ℕ → ℕ
nth [] i = 0
nth (c ∷ cs) zero = c
nth (c ∷ cs) (suc i) = nth cs i

unfoldable pub encode_bytes : Bytes → Bytes
encode_bytes [] = []
encode_bytes (byte ∷ bytes) =
    nth table (byte / 2 ^ 4) ∷ nth table (bit_and byte 0x0f) ∷ encode_bytes bytes

unfoldable pub encode_lower_prefixed : Bytes → Bytes
encode_lower_prefixed bytes = b'0' ∷ b'x' ∷ encode_bytes bytes

-- `EvmAddress::from_str`, `TxHash::from_str` and `BlockHash::from_str`
unfoldable parse_address : Bytes → Result Bytes HexParseError
parse_address s = decode_prefixed_fixed 20 s (codes "evm address")

unfoldable parse_tx_hash : Bytes → Result Bytes HexParseError
parse_tx_hash s = decode_prefixed_fixed 32 s (codes "tx hash")

unfoldable parse_block_hash : Bytes → Result Bytes HexParseError
parse_block_hash s = decode_prefixed_fixed 32 s (codes "block hash")
