-- ===== src/Domain/Address/RoundTrip.antt =====
-- What the parser of hexadecimal texts accepts, and that printing and parsing undo one another.
use Prim.Native.Nat.{bit_or}
use pay.Common.{
  ℕ, zero, suc, ◌+◌, ◌*◌, ◌%◌, ◌<◌, ◌≡◌, refl, ap, true, not, some, [], ◌∷◌, ok, ok_or, ◌==◌, arith,
  ==_iff, length, All, map, >>=-eq-ok, ok_or-ok, fail_if, ◌⊎◌,
}
use pay.Common.Uint.{Text}
use pay.Domain.Address.{
  Bytes, hex_value, strip_0x, decode_chunks, decode_prefixed_fixed, encode_bytes,
  encode_lower_prefixed,
}
use pay.Domain.Address.Digits.{encodes_lem, decodes_lem, halves_lem, to_lower}

abbrev pub IsByte : ℕ → Type 0
IsByte b = b < 256

decode-encode :
    (kind : Text) (index : ℕ) (bytes : Bytes)
    → All IsByte bytes
    → decode_chunks kind index (encode_bytes bytes) ≡ ok bytes
unfolding decode_chunks encode_bytes
decode-encode kind index [] h = refl
decode-encode kind index (b ∷ bs) h =
    let (high, low, whole) = encodes_lem b h.0 in
    rw (high, low, decode-encode kind (index + 1) bs h.1, whole) refl

length-encode : (bytes : Bytes) → length (encode_bytes bytes) ≡ length bytes * 2
unfolding encode_bytes
length-encode [] = omega arith
length-encode (b ∷ bs) = omega (arith, length-encode bs)

-- Bytes of the right number are read back from the text that is printed for them.
pub decode-encode_lower_prefixed :
    (n : ℕ) (bytes : Bytes) (kind : Text)
    → length bytes ≡ n
    → All IsByte bytes
    → decode_prefixed_fixed n (encode_lower_prefixed bytes) kind ≡ ok bytes
unfolding decode_prefixed_fixed encode_lower_prefixed
decode-encode_lower_prefixed n bytes kind len h =
    let fits : (length (encode_bytes bytes) == n * 2) ≡ true =
      (==_iff _ _).1 (omega (arith, length-encode bytes)) in
    rw fits (decode-encode kind 0 bytes h)

-- What was read from pairs of digits: bytes, and the text that is printed for them is the input in
-- lower case.
decode_sound :
    (kind : Text) (index n : ℕ) (hex bytes : Bytes)
    → length hex ≡ n * 2
    → decode_chunks kind index hex ≡ ok bytes
    → (length bytes ≡ n) × All IsByte bytes × (encode_bytes bytes ≡ map to_lower hex)
unfolding decode_chunks encode_bytes
decode_sound kind index n [] bytes len h =
    let e : [] ≡ bytes = cc in rw (← e) (omega arith, tt, refl)
decode_sound kind index n (c ∷ []) bytes len h = absurd (omega arith)
decode_sound kind index zero (c ∷ d ∷ rest) bytes len h = absurd (omega arith)
decode_sound kind index (suc n) (c ∷ d ∷ rest) bytes len h =
    let (v, ev, h1) = >>=-eq-ok (ok_or (hex_value c) _) _ h in
    let (w, ew, h2) = >>=-eq-ok (ok_or (hex_value d) _) _ h1 in
    let (bs, eb, h3) = >>=-eq-ok (decode_chunks kind (index + 1) rest) _ h2 in
    let (v_small, v_digit) = decodes_lem c (ok_or-ok (hex_value c) _ ev) in
    let (w_small, w_digit) = decodes_lem d (ok_or-ok (hex_value d) _ ew) in
    let (b_small, top, bottom) = halves_lem v w v_small w_small in
    let (len', small, lower) = decode_sound kind (index + 1) n rest bs (omega arith) eb in
    let e : bit_or (v * 16 % 256) w ∷ bs ≡ bytes = cc in
    rw (← e) (omega arith, (b_small, small), rw (top, bottom, v_digit, w_digit, lower) refl)

-- the text behind the prefix
abbrev pub HexOf : Bytes → Bytes → Type 0
HexOf input hex = (input ≡ b'0' ∷ b'x' ∷ hex) ⊎ (input ≡ b'0' ∷ b'X' ∷ hex)

strip_0x_sound : (input : Bytes) {hex : Bytes} → strip_0x input ≡ some hex → HexOf input hex
strip_0x_sound [] h = cc
strip_0x_sound (a ∷ []) h = cc
strip_0x_sound (a ∷ b ∷ rest) h = ground arith

-- An accepted text has the prefix and two digits for each byte, and the text printed for the result
-- is the input with the prefix and the digits in lower case.
pub decode_prefixed_fixed_sound :
    (n : ℕ) (input : Bytes) (kind : Text) {bytes : Bytes}
    → decode_prefixed_fixed n input kind ≡ ok bytes
    → (hex : Bytes) × HexOf input hex
      × (length bytes ≡ n)
      × All IsByte bytes
      × (encode_lower_prefixed bytes ≡ b'0' ∷ b'x' ∷ map to_lower hex)
unfolding decode_prefixed_fixed encode_lower_prefixed
decode_prefixed_fixed_sound n input kind {bytes} h =
    let (hex, e, h1) = >>=-eq-ok (ok_or (strip_0x input) _) _ h in
    let (_, fits, h2) = >>=-eq-ok (fail_if (not (length hex == n * 2)) _) _ h1 in
    let len : length hex ≡ n * 2 = ground arith in
    let (len', small, lower) = decode_sound kind 0 n hex bytes len h2 in
    (
      hex,
      strip_0x_sound input (ok_or-ok (strip_0x input) _ e),
      len',
      small,
      ap (λ r. b'0' ∷ b'x' ∷ r) lower,
    )
