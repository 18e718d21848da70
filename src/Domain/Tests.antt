-- ===== src/Domain/Tests.antt =====
-- The theorems on the value objects at concrete inputs, and runs of the functions.
use mathlib.Core.List.{Permᴰ}
use pay.Common.{
  ℕ, ◌+◌, ◌≤◌, ◌≡◌, refl, inr, true, false, List, [], ◌∷◌, ok, err, arith, All, length, map, ltb,
  if◌then◌else◌, ◌↔◌,
}
use pay.Common.Uint.{u256_end}
use pay.Common.Uint.Model.{u256, print}
use pay.Common.Strings.{codes, trim, trim_start, is_whitespace, split}
use pay.Domain.Amount.{
  overflow, TokenAmount, parse, parse_token_units, to_decimal_string, padded_decimal, parse_parts,
  check_parts, scale_parts, add_fraction, parse_decimal_u256, pow10_u256, pow10_loop,
}
use pay.Domain.Amount.Units.{units}
use pay.Domain.Amount.Parse.{ParsedAs, parse_token_units_sound, parse_token_units_complete}
use pay.Domain.Amount.Print.{parse-to_decimal_string}
use pay.Domain.Address.{decode_prefixed_fixed, encode_lower_prefixed, decode_chunks, hex_value}
use pay.Domain.Address.RoundTrip.{
  IsByte, HexOf, decode-encode_lower_prefixed, decode_prefixed_fixed_sound,
}
use pay.Domain.Address.Digits.{to_lower}
use pay.Domain.Payment.{PaymentFact, on_time, confirmed, observed, is_non_orphaned_on_time}
use pay.Domain.Order.{confirming, recompute_order_status, amount_overflow, status_of}
use pay.Domain.Order.Totals.{confirmed_sum, non_orphaned_sum, recompute_order_status_lem}
use pay.Domain.Order.Status.{
  DecidedAs, Means, recompute_order_status-Means, recompute_order_status-perm,
  recompute_order_status-orphan, orphan,
}
use pay.Domain.Collection.{CollectionTxPlan, treasury_sweep, assert_replacement_allowed}
use pay.Domain.Collection.Replacement.{Replaces, assert_replacement_allowed_iff, replacements_lem}

abbrev dollars : TokenAmount
dollars = record { raw = 12345600; decimals = 6 }

printed : to_decimal_string u256 dollars ≡ codes "12.3456"
unfolding to_decimal_string padded_decimal print u256
printed = refl

read : parse_token_units u256 (codes "12.345600") 6 ≡ ok 12345600
unfolding parse_token_units parse_parts check_parts scale_parts add_fraction parse_decimal_u256
    pow10_u256 pow10_loop trim trim_start is_whitespace split u256
read = refl

too_wide : parse_token_units u256 (codes "2") 78 ≡ err overflow
unfolding parse_token_units parse_parts check_parts scale_parts add_fraction parse_decimal_u256
    pow10_u256 pow10_loop trim trim_start is_whitespace split u256
too_wide = refl

parse-to_decimal_string_example : parse u256 (to_decimal_string u256 dollars) 6 ≡ ok dollars
parse-to_decimal_string_example = parse-to_decimal_string u256 dollars (omega arith) (omega arith)

parse_token_units_sound_example : ParsedAs u256 (trim (codes "12.345600")) 6 12345600
parse_token_units_sound_example = parse_token_units_sound u256 (codes "12.345600") 6 read

parse_token_units_complete_example :
    parse_token_units u256 (codes ".5") 2
    ≡ (if ltb (units [] (codes "5") 2) u256_end then ok (units [] (codes "5") 2) else err overflow)
unfolding trim trim_start is_whitespace
parse_token_units_complete_example =
    parse_token_units_complete u256 (codes ".5") [] (codes "5") 2 (inr refl)
      (cc, tt, omega arith, omega arith) (omega arith)

abbrev four_bytes : List ℕ
four_bytes = 0 ∷ 171 ∷ 205 ∷ 255 ∷ []

decode-encode_lower_prefixed_example :
    decode_prefixed_fixed 4 (encode_lower_prefixed four_bytes) (codes "id") ≡ ok four_bytes
decode-encode_lower_prefixed_example =
    decode-encode_lower_prefixed 4 four_bytes (codes "id") refl (omega arith)

decoded : decode_prefixed_fixed 4 (codes "0X00aBCdfF") (codes "id") ≡ ok four_bytes
unfolding decode_prefixed_fixed decode_chunks hex_value
decoded = refl

decode_prefixed_fixed_sound_example :
    (hex : List ℕ) × HexOf (codes "0X00aBCdfF") hex
    × (length four_bytes ≡ 4)
    × All IsByte four_bytes
    × (encode_lower_prefixed four_bytes ≡ b'0' ∷ b'x' ∷ map to_lower hex)
decode_prefixed_fixed_sound_example =
    decode_prefixed_fixed_sound 4 (codes "0X00aBCdfF") (codes "id") decoded

abbrev early : PaymentFact
early = record { amount = 60; match_status = on_time; chain_status = confirmed }

abbrev fresh : PaymentFact
fresh = record { amount = 40; match_status = on_time; chain_status = observed }

recompute_order_status_lem_example : recompute_order_status u256 100 (early ∷ fresh ∷ []) true ≡ (
    if ltb (non_orphaned_sum (early ∷ fresh ∷ [])) u256_end
    then ok (record {
      status =
          status_of 100 true
            (confirmed_sum (early ∷ fresh ∷ []))
            (non_orphaned_sum (early ∷ fresh ∷ []));
      confirmed_on_time_total = confirmed_sum (early ∷ fresh ∷ []);
      non_orphaned_on_time_total = non_orphaned_sum (early ∷ fresh ∷ []);
    })
    else err amount_overflow)
recompute_order_status_lem_example = recompute_order_status_lem u256 100 (early ∷ fresh ∷ []) true

recompute_order_status-Means_example :
    DecidedAs (recompute_order_status u256 100 (early ∷ fresh ∷ []) true) confirming
    ↔ Means confirming 100 true (early ∷ fresh ∷ [])
unfolding is_non_orphaned_on_time
recompute_order_status-Means_example =
    recompute_order_status-Means u256 100 (early ∷ fresh ∷ []) true confirming (ground arith)

recompute_order_status-perm_example :
    recompute_order_status u256 100 (early ∷ fresh ∷ []) false
    ≡ recompute_order_status u256 100 (fresh ∷ early ∷ []) false
recompute_order_status-perm_example =
    recompute_order_status-perm u256 100 false (Permᴰ.swap refl refl)

recompute_order_status-orphan_example :
    recompute_order_status u256 100 (early ∷ orphan fresh ∷ []) false
    ≡ recompute_order_status u256 100 (early ∷ []) false
recompute_order_status-orphan_example =
    recompute_order_status-orphan u256 100 false (early ∷ []) [] fresh

abbrev sweep : CollectionTxPlan
sweep = record {
  chain_id = 1;
  nonce = 7;
  «from» = 11;
  to = 12;
  amount = 100;
  purpose = treasury_sweep;
  fees = record { gas_limit = 80000; max_fee_per_gas = 100; max_priority_fee_per_gas = 10 };
}

abbrev faster : CollectionTxPlan
faster = record sweep {
  fees = record { gas_limit = 90000; max_fee_per_gas = 200; max_priority_fee_per_gas = 20 };
}

assert_replacement_allowed_iff_example :
    (assert_replacement_allowed sweep faster ≡ ok tt) ↔ Replaces sweep faster
assert_replacement_allowed_iff_example = assert_replacement_allowed_iff sweep faster

replacements_lem_example :
    (faster ≡ record sweep { fees = faster.fees }) × (100 + 1 ≤ 200) × (10 + 1 ≤ 20)
unfolding assert_replacement_allowed
replacements_lem_example = replacements_lem sweep (faster ∷ []) (refl, tt)
