-- ===== src/Domain/Address/Digits.antt =====
-- Facts about single hexadecimal digits and bytes, checked over all bytes.
use Prim.Native.Nat.{bit_and, bit_or}
use pay.Common.{
  ℕ, zero, suc, ◌+◌, ◌*◌, ◌/◌, ◌%◌, ◌^◌, ◌<◌, ◌≡◌, refl, Bool, true, false, ◌&&◌, Option, none,
  some, ltb, leb, ◌==◌, if◌then◌else◌, arith, ==_iff, ltb→lt,
}
use pay.Domain.Address.{hex_value, table, nth}

-- `test` passes on every number under the bound
passes : (ℕ → Bool) → ℕ → Bool
passes test zero = true
passes test (suc bound) = passes test bound && test bound

passes_at : (test : ℕ → Bool) (bound c : ℕ) → c < bound → passes test bound ≡ true → test c ≡ true
unfolding passes
passes_at test zero c small checked = absurd (omega arith)
passes_at test (suc bound) c small checked = ground (arith, passes_at test bound c)

-- an ASCII letter in lower case
abbrev pub to_lower : ℕ → ℕ
to_lower c = if leb b'A' c && leb c b'Z' then c + 32 else c

abbrev is_value : ℕ → Option ℕ → Bool
is_value v none = false
is_value v (some w) = w == v

is_value_eq : (v : ℕ) (o : Option ℕ) → is_value v o ≡ true → o ≡ some v
is_value_eq v none h = cc
is_value_eq v (some w) h = ground arith

abbrev encodes : ℕ → Bool
encodes b =
    is_value (b / 2 ^ 4) (hex_value (nth table (b / 2 ^ 4)))
    && (is_value (b % 16) (hex_value (nth table (bit_and b 0x0f)))
        && (bit_or (b / 2 ^ 4 * 16 % 256) (b % 16) == b))

encodes_table : passes encodes 256 ≡ true
unfolding passes hex_value
encodes_table = refl

and_true : (a b : Bool) → (a && b) ≡ true → (a ≡ true) × (b ≡ true)
and_true true b h = (refl, h)
and_true false b h = cc

-- The two digits written for a byte are read as its halves, and these make the byte again.
pub encodes_lem :
    (b : ℕ)
    → b < 256
    → (hex_value (nth table (b / 2 ^ 4)) ≡ some (b / 2 ^ 4))
      × (hex_value (nth table (bit_and b 0x0f)) ≡ some (b % 16))
      × (bit_or (b / 2 ^ 4 * 16 % 256) (b % 16) ≡ b)
encodes_lem b h =
    let t = passes_at encodes 256 b h encodes_table in
    let (p, r) = and_true _ _ t in
    let (q, e) = and_true _ _ r in (is_value_eq _ _ p, is_value_eq _ _ q, (==_iff _ _).0 e)

abbrev decodes : ℕ → Bool
decodes c = elim (hex_value c) [ none ↦ true | some v ↦ ltb v 16 && (nth table v == to_lower c) ]

decodes_table : passes decodes 256 ≡ true
unfolding passes hex_value
decodes_table = refl

hex_value_lt : (c : ℕ) {v : ℕ} → hex_value c ≡ some v → c < 256
unfolding hex_value
hex_value_lt c h = ground arith

-- A digit that is read has a value below 16, and the table has the digit in lower case.
pub decodes_lem : (c : ℕ) {v : ℕ} → hex_value c ≡ some v → (v < 16) × (nth table v ≡ to_lower c)
decodes_lem c h =
    let t : decodes c ≡ true = passes_at decodes 256 c (hex_value_lt c h) decodes_table in
    let (p, q) = and_true _ _ (rw (h, decodes) at t) in (ltb→lt _ _ p, (==_iff _ _).0 q)

abbrev halves : ℕ → Bool
halves p =
    let b = bit_or (p / 16 * 16 % 256) (p % 16) in
    ltb b 256 && ((b / 2 ^ 4 == p / 16) && (bit_and b 0x0f == p % 16))

halves_table : passes halves 256 ≡ true
unfolding passes
halves_table = refl

pub halves_lem :
    (h l : ℕ)
    → h < 16
    → l < 16
    → let b = bit_or (h * 16 % 256) l in (b < 256) × (b / 2 ^ 4 ≡ h) × (bit_and b 0x0f ≡ l)
halves_lem h l hh hl =
    let t = passes_at halves 256 (h * 16 + l) (omega arith) halves_table in
    let top : (h * 16 + l) / 16 ≡ h = omega arith in
    let bottom : (h * 16 + l) % 16 ≡ l = omega arith in
    let (p, r) = and_true _ _ (rw (top, bottom) at t) in
    let (q, e) = and_true _ _ r in (ltb→lt _ _ p, (==_iff _ _).0 q, (==_iff _ _).0 e)
