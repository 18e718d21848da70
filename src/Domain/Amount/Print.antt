-- ===== src/Domain/Amount/Print.antt =====
-- `to_decimal_string` writes an exact text: `TokenAmount::parse` reads the same amount back.
use mathlib.Core.List.{reverse, reverse-reverse, reverse-append, cons-ne-nil}
use native.Mathlib.Nat.{zero-mul}
use pay.Common.{
  ℕ, zero, suc, ◌+◌, ◌*◌, ◌-◌, ◌^◌, ◌≤◌, ◌<◌, ◌≡◌, ◌≢◌, refl, sym, ap, ◌∙◌, inl, inr, [], ◌∷◌, ◌++◌,
  ok, arith, leb, ◌==◌, if◌then◌else◌, Bool-cases, lt→ltb, le→leb, leb→le, All, All-append, length,
  length-append, take, drop, replicate, length-replicate, append_assoc, All-take, All-drop,
  All-replicate, take-ne-nil, length-drop, take-append-drop,
}
use pay.Common.Uint.{U256, Text, u256_end, IsDigit, value}
use pay.Common.Strings.Laws.{
  All-reverse, trim-ink, IsInk, digits-IsInk, point-IsInk, digit-not-point,
}
use pay.Domain.Amount.{
  TokenAmount, pop_zeros, pop_point, padded_decimal, to_decimal_string, parse_token_units, parse,
}
use pay.Domain.Amount.Powers.{value-append, value_shift, value_zeros}
use pay.Domain.Amount.Units.{units, AreParts}
use pay.Domain.Amount.Parse.{IsSplit, parse_token_units_complete}

-- the zeros that `pop_zeros` took off
zeros_popped : (r : Text) → (k : ℕ) × (r ≡ replicate k b'0' ++ pop_zeros r)
unfolding pop_zeros
zeros_popped [] = (0, refl)
zeros_popped (c ∷ s) = elim (Bool-cases (c == b'0')) [
  | inl e ↦
      let (k, p) = zeros_popped s in
      (suc k, rw e (let z : c ≡ b'0' = ground arith in rw z (ap (λ r. b'0' ∷ r) p)))
  | inr e ↦ (0, rw e refl)
]

-- the zeros at the end of a text, taken off
strip : Text → Text
strip s = reverse (pop_zeros (reverse s))

replicate-snoc : (k : ℕ) (c : ℕ) → replicate k c ++ c ∷ [] ≡ c ∷ replicate k c
replicate-snoc zero c = refl
replicate-snoc (suc k) c = ap (λ r. c ∷ r) (replicate-snoc k c)

reverse-replicate : (k : ℕ) (c : ℕ) → reverse (replicate k c) ≡ replicate k c
reverse-replicate zero c = refl
reverse-replicate (suc k) c =
    reverse-append (c ∷ []) (replicate k c) ∙ rw (reverse-replicate k c) (replicate-snoc k c)

strip_lem : (s : Text) → (k : ℕ) × (s ≡ strip s ++ replicate k b'0')
unfolding strip
strip_lem s =
    let (k, e) = zeros_popped (reverse s) in
    (
      k,
      sym (reverse-reverse s)
          ∙ ap reverse e
          ∙ reverse-append (replicate k b'0') (pop_zeros (reverse s))
          ∙ rw (reverse-replicate k b'0'),
    )

-- a text that ends in a point keeps it, whatever zeros stand behind
pop_zeros-append : (a b : Text) → pop_zeros (a ++ b'.' ∷ b) ≡ pop_zeros a ++ b'.' ∷ b
unfolding pop_zeros
pop_zeros-append [] b = refl
pop_zeros-append (c ∷ a) b = ground (arith, pop_zeros-append a b)

-- the text that is left of `whole.fraction`: no zeros at the end, and no point behind which nothing stands
tidy : Text → Text
unfolding pop_zeros pop_point
tidy s = reverse (pop_point (pop_zeros (reverse s)))

reverse-point : (w f : Text) → reverse (w ++ b'.' ∷ f) ≡ reverse f ++ b'.' ∷ reverse w
reverse-point w f =
    reverse-append w (b'.' ∷ f)
    ∙ rw (reverse-append (b'.' ∷ []) f) (append_assoc (reverse f) (b'.' ∷ []) (reverse w))

tidy_parts :
    (w f : Text)
    → tidy (w ++ b'.' ∷ f) ≡ reverse (pop_point (pop_zeros (reverse f) ++ b'.' ∷ reverse w))
unfolding tidy
tidy_parts w f = rw (reverse-point w f, pop_zeros-append (reverse f) (reverse w))

pop_zeros-digits : (r : Text) → All IsDigit r → All IsDigit (pop_zeros r)
unfolding pop_zeros
pop_zeros-digits [] h = tt
pop_zeros-digits (c ∷ s) h = ground (arith, pop_zeros-digits s h.1)

tidy-IsSplit :
    (w f g : Text)
    → All IsDigit f
    → pop_zeros (reverse f) ≡ g
    → IsSplit (tidy (w ++ b'.' ∷ f)) w (reverse g)
unfolding pop_point
tidy-IsSplit w f [] df e = inl (tidy_parts w f ∙ rw e (reverse-reverse w), refl)
tidy-IsSplit w f (c ∷ s) df e =
    let d : All IsDigit (c ∷ s) =
      rw e at (pop_zeros-digits (reverse f) (All-reverse IsDigit f df)) in
    inr (
      tidy_parts w f
      ∙ rw e
          (rw (digit-not-point c d.0) (reverse-point (c ∷ s) (reverse w) ∙ rw (reverse-reverse w))))

-- The padded text is digits around a point, with all the decimals of the token, and spells `raw`.
module _ (raw : Text) (decimals : ℕ) where
  abbrev Padded : Type 0
  Padded =
      (w : Text) × (f : Text) × (padded_decimal raw decimals ≡ w ++ b'.' ∷ f)
      × (w ≢ [])
      × All IsDigit w
      × All IsDigit f
      × (length f ≡ decimals)
      × (value 0 (w ++ f) ≡ value 0 raw)

  padded_short : All IsDigit raw → length raw ≤ decimals → Padded
  unfolding padded_decimal
  padded_short digits h =
      let k = decimals - length raw in
      (
        b'0' ∷ [],
        replicate k b'0' ++ raw,
        rw (le→leb (length raw) decimals h) refl,
        cc,
        (omega arith),
        All-append IsDigit (replicate k b'0') raw (All-replicate IsDigit k b'0' (omega arith))
            digits,
        omega (arith, length-append (replicate k b'0') raw, length-replicate {A = ℕ} k b'0'),
        rw (value-append (replicate k b'0') raw 0, value_zeros k 0) (rw (zero-mul (10 ^ k))),
      )

  padded_long : All IsDigit raw → decimals < length raw → Padded
  unfolding padded_decimal
  padded_long digits h =
      let n = length raw - decimals in
      (
        take n raw,
        drop n raw,
        ground arith,
        take-ne-nil n raw (omega arith) (omega arith),
        All-take IsDigit n raw digits,
        All-drop IsDigit n raw digits,
        omega (arith, length-drop n raw),
        ap (value 0) (take-append-drop n raw),
      )

append-ne-nil : (s t : Text) → s ≢ [] → s ++ t ≢ []
append-ne-nil [] t h = absurd (h refl)
append-ne-nil (c ∷ s) t h = cons-ne-nil c (s ++ t)

module _ (w f g : Text) (k : ℕ) (e : f ≡ g ++ replicate k b'0') where
  -- Taking zeros off the end of the decimals changes no value.
  units-strip : units w g (length f) ≡ value 0 (w ++ f)
  units-strip =
      let lf : length f ≡ length g + k =
        ap length e
        ∙ length-append g (replicate k b'0')
        ∙ omega (arith, length-replicate {A = ℕ} k b'0') in
      let vf : value 0 f ≡ value 0 g * 10 ^ k =
        ap (value 0) e ∙ value-append g (replicate k b'0') 0 ∙ value_zeros k (value 0 g) in
      let kd : length f - length g ≡ k = omega arith in
      rw (value-append w f 0, value_shift f (value 0 w), vf, kd) refl

IsInk-split : (t w g : Text) → IsSplit t w g → All IsDigit w → All IsDigit g → All IsInk t
IsInk-split t w g (inl (e, _)) dw dg = rw e (digits-IsInk w dw)
IsInk-split t w g (inr e) dw dg =
    rw e (All-append IsInk w (b'.' ∷ g) (digits-IsInk w dw) (point-IsInk, digits-IsInk g dg))

module _ (u : U256) where
  -- a text of digits whose units are `n` is read as `n`
  read_back :
      (t w g : Text) (decimals n : ℕ)
      → IsSplit t w g
      → AreParts w g decimals
      → units w g decimals ≡ n
      → n < u256_end
      → 10 ^ decimals < u256_end
      → parse_token_units u t decimals ≡ ok n
  read_back t w g decimals n sp parts exact lt small =
      let trimmed = trim-ink t (IsInk-split t w g sp parts.1 parts.2) in
      parse_token_units_complete u t w g decimals (rw trimmed sp) parts small
      ∙ rw (exact, lt→ltb n u256_end lt)

  read_tidy :
      (raw : Text) (decimals n : ℕ)
      → Padded raw decimals
      → value 0 raw ≡ n
      → n < u256_end
      → 10 ^ decimals < u256_end
      → parse_token_units u (tidy (padded_decimal raw decimals)) decimals ≡ ok n
  unfolding strip
  read_tidy raw decimals n (w, f, e, ne, dw, df, len, val) exact lt small =
      let g = strip f in
      let (k, popped) = strip_lem f in
      let dg : All IsDigit g =
        All-reverse IsDigit (pop_zeros (reverse f))
          (pop_zeros-digits (reverse f) (All-reverse IsDigit f df)) in
      let shorter : length g ≤ decimals =
        omega (arith, ap length popped, length-append g (replicate k b'0')) in
      let parts : AreParts w g decimals = (append-ne-nil w g ne, dw, dg, shorter) in
      rw e (
        read_back (tidy (w ++ b'.' ∷ f)) w g decimals n
          (tidy-IsSplit w f (pop_zeros (reverse f)) df refl) parts
          (rw (← len) (units-strip w f g k popped ∙ val ∙ exact)) lt small)

  to_decimal_string-tidy :
      (a : TokenAmount)
      → to_decimal_string u a ≡ (
          if a.decimals == 0
          then u.display a.raw
          else tidy (padded_decimal (u.display a.raw) a.decimals))
  unfolding to_decimal_string tidy
  to_decimal_string-tidy a = refl

  read_text :
      (a : TokenAmount)
      → a.raw < u256_end
      → 10 ^ a.decimals < u256_end
      → parse_token_units u (to_decimal_string u a) a.decimals ≡ ok a.raw
  read_text a lt small =
      let raw = u.display a.raw in
      let digits = u.display_digits a.raw lt in
      let exact = u.value-display a.raw lt in
      rw (to_decimal_string-tidy a) (elim (Bool-cases (a.decimals == 0)) [
        | inl z ↦ rw z (
            read_back raw raw [] a.decimals a.raw (inl (refl, refl))
              (append-ne-nil raw [] (u.display-ne-nil a.raw lt), digits, tt, omega arith)
              (let e : a.decimals ≡ 0 = ground arith in rw (exact, e) (omega arith)) lt small)
        | inr z ↦ rw z (elim (Bool-cases (leb (length raw) a.decimals)) [
          | inl s ↦
              read_tidy raw a.decimals a.raw (padded_short raw a.decimals digits (leb→le _ _ s))
                exact lt small
          | inr l ↦
              read_tidy raw a.decimals a.raw (padded_long raw a.decimals digits (ground arith))
                exact lt small
        ])
      ])

  -- Every amount that fits 256 bits is read back from its decimal text, for a token whose unit fits.
  pub parse-to_decimal_string :
      (a : TokenAmount)
      → a.raw < u256_end
      → 10 ^ a.decimals < u256_end
      → parse u (to_decimal_string u a) a.decimals ≡ ok a
  unfolding parse
  parse-to_decimal_string a lt small = rw (read_text a lt small) refl
