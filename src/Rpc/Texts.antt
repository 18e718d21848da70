-- ===== src/Rpc/Texts.antt =====
-- src/chain/mod.rs and src/chain/rpc.rs: the texts of the errors, which the store looks into.
use pay.Common.{
  ℕ, zero, suc, ◌+◌, ◌/◌, ◌%◌, Bool, true, false, not, ◌&&◌, ◌||◌, List, [], ◌∷◌, ◌++◌, ltb, ◌==◌,
  if◌then◌else◌,
}
use pay.Common.Uint.{Text}
use pay.Common.Strings.{codes}
use pay.Domain.Address.{Bytes, encode_lower_prefixed}
use pay.LogStore.Source.{
  ChainError, rpc_unavailable, malformed_rpc_response, provider_hash_mismatch, invalid_block_range,
  block_not_found, transaction_not_found, chain_id_mismatch, capacity_exceeded, lower, has_part,
}

-- `{n}` of a u64, which has 20 digits at most
abbrev decimal_digits : ℕ → ℕ → Text
decimal_digits zero n = []
decimal_digits (suc fuel) n =
    let front = decimal_digits fuel (n / 10) in
    if ltb n 10 then (n + b'0') ∷ [] else front ++ (n % 10 + b'0') ∷ []

abbrev pub decimal : ℕ → Text
decimal n = decimal_digits 20 n

-- the bytes of a hash, the first one in front
abbrev be_bytes : ℕ → ℕ → Bytes → Bytes
be_bytes zero n tail = tail
be_bytes (suc k) n tail = be_bytes k (n / 256) (n % 256 ∷ tail)

abbrev hash_text : ℕ → Text
hash_text h = encode_lower_prefixed (be_bytes 32 h [])

-- `ChainError` as `thiserror` displays it
unfoldable pub to_string : ChainError → Text
to_string (rpc_unavailable message) = codes "chain RPC unavailable: " ++ message
to_string (malformed_rpc_response message) = codes "malformed chain RPC response: " ++ message
to_string (provider_hash_mismatch context left_provider left_hash right_provider right_hash) =
    codes "RPC provider hash mismatch for "
    ++ context
    ++ codes ": "
    ++ left_provider
    ++ codes " returned "
    ++ hash_text left_hash
    ++ codes ", "
    ++ right_provider
    ++ codes " returned "
    ++ hash_text right_hash
to_string (invalid_block_range from_block to_block) =
    codes "invalid block range " ++ decimal from_block ++ codes "..=" ++ decimal to_block
to_string (block_not_found number) = codes "block not found: " ++ decimal number
to_string (transaction_not_found tx_hash) = codes "transaction not found: " ++ hash_text tx_hash
to_string (chain_id_mismatch expected actual) =
    codes "configured chain id "
    ++ decimal expected
    ++ codes " does not match provider chain id "
    ++ decimal actual
to_string (capacity_exceeded log_count max_logs) =
    codes "transfer log source capacity exceeded: "
    ++ decimal log_count
    ++ codes " logs, max "
    ++ decimal max_logs

-- `errors.join("; ")`
unfoldable pub join : List Text → Text
join [] = []
join (e ∷ []) = e
join (e ∷ f ∷ es) = e ++ codes "; " ++ join (f ∷ es)

-- `u64::MAX`, the number that stands for a block asked by its tag
abbrev pub tag_number : ℕ
tag_number = 18446744073709551615

abbrev is_tag_not_found : ChainError → Bool
is_tag_not_found (block_not_found number) = number == tag_number
is_tag_not_found _ = false

unfoldable pub is_missing_safe_block_error : ChainError → Bool
is_missing_safe_block_error error =
    is_tag_not_found error || has_part (codes "safe block not found") (lower (to_string error))

abbrev is_not_found : ChainError → Bool
is_not_found (block_not_found _) = true
is_not_found (transaction_not_found _) = true
is_not_found _ = false

unfoldable pub is_provider_health_failure : ChainError → Bool
is_provider_health_failure error =
    not (is_not_found error) && not (is_missing_safe_block_error error)

unfoldable pub is_transient_receipt_lookup_error : ChainError → Bool
is_transient_receipt_lookup_error (rpc_unavailable message) =
    has_part (codes "eth_getTransactionReceipt") message
is_transient_receipt_lookup_error _ = false
