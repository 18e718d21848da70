-- ===== src/Rpc/Tests.antt =====
-- Three providers, of which one is left alone, one has no answer and one is ahead of the others.
use pay.Rpc.Agreed.{request_blocks_lem, Checked, Refused}
use pay.Common.{
  ℕ, zero, suc, ◌+◌, ◌*◌, ◌<◌, ◌≤◌, ◌%◌, ◌≡◌, ◌≢◌, refl, true, false, none, some, [], ◌∷◌, ◌++◌,
  Result, ok, err, arith, length, take, drop, min, max, ◌==◌,
}
use pay.Common.Uint.{Text}
use pay.Common.Strings.{codes}
use pay.Domain.Chain.{u64_end, ChainBlockRef}
use pay.LogStore.Source.{
  ChainError, rpc_unavailable, block_not_found, should_reduce_batch_on_error,
  message_indicates_range_or_result_limit,
}
use pay.Rpc.Health.{
  ManagedRpcProvider, RpcProviderHealth, default_health, from_secs, is_available, record_failure,
  record_success, u32_max, Instant,
}
use pay.Rpc.Texts.{to_string}
use pay.Rpc.Hex.{quantity_hex, parse_hex_u64}
use pay.Rpc.Blocks.{Readers}
use pay.Rpc.Manager.{
  RpcProviderManager, provider_candidates, available_from, rotated, request_first_success,
}
use pay.Rpc.Heads.{request_blocks, head_by_tag}
use pay.Rpc.Cooldown.{record_failure_lem}
use pay.Rpc.Rotation.{provider_candidates_lem, ready_places}
use pay.Rpc.Quantity.{parse_hex_u64-quantity_hex}
use pay.Rpc.Request.{blocks_answered, absences}
use pay.Rpc.Quorum.{IsHeadOf, chosen_blocks, head_by_tag_lem}
use pay.Rpc.Failover.{first_answer, lines_before, first_reply, request_first_success_lem}
use pay.Rpc.Limits.{request_first_success-should_reduce}

abbrev struggling : RpcProviderHealth
struggling = record { consecutive_failures = 3; unavailable_until = some 900 }

abbrev provider : Text → RpcProviderHealth → ManagedRpcProvider
provider id health = record { provider_id = id; health = health }

abbrev manager : RpcProviderManager
manager = record {
  expected_chain_id = 1;
  min_provider_count = 2;
  providers =
      provider (codes "a") default_health
      ∷ provider (codes "b") struggling
      ∷ provider (codes "c") default_health
      ∷ provider (codes "d") default_health
      ∷ [];
  round_robin_counter = 5;
}

-- A value is the number of a block; `0` is null.
abbrev readers : Readers ℕ
readers = record {
  is_null = λ v. v == 0;
  to_block = λ v. ok (record {
    number = some (quantity_hex v);
    hash = some (quantity_hex (v + 100));
    parent_hash = some (quantity_hex (v + 99));
    timestamp = some (quantity_hex (v * 10));
  });
  from_unix_timestamp = ok;
  block_hash_from_str = λ s. ok (length s);
}

abbrev answers : ℕ → Result ℕ ChainError
answers zero = ok 9
answers (suc zero) = ok 9
answers (suc (suc zero)) = err (rpc_unavailable (codes "block range too large"))
answers (suc (suc (suc n))) = ok 8

abbrev refusals : ℕ → Result ℕ ChainError
refusals zero = err (block_not_found 7)
refusals (suc n) = err (rpc_unavailable (codes "block range too large"))

abbrev at : ℕ → Instant
at i = 500 + i

asked : (provider_candidates manager 500).0 ≡ 3 ∷ 0 ∷ 2 ∷ []
unfolding provider_candidates available_from is_available rotated
asked = refl

record_failure_lem_example :
    (500 < 100 + from_secs 5 → is_available (record_failure struggling 100) 500 ≡ false)
    × (100 + from_secs 60 ≤ 500 → is_available (record_failure struggling 100) 500 ≡ true)
    × ((record_failure struggling 100).consecutive_failures ≡ min (suc 3) u32_max)
    × (is_available (record_success (record_failure struggling 100)) 500 ≡ true)
record_failure_lem_example = record_failure_lem struggling 100 500

provider_candidates_lem_example :
    let places = ready_places 500 manager.providers in
    let start = 5 % length places in
    (start < length places)
    × ((provider_candidates manager 500).0 ≡ drop start places ++ take start places)
    × ((provider_candidates manager 500).1.round_robin_counter ≡ (5 + 1) % u64_end)
provider_candidates_lem_example = provider_candidates_lem manager 500 (omega arith)

parse_hex_u64-quantity_hex_example : parse_hex_u64 (quantity_hex 1234567) (codes "n") ≡ ok 1234567
parse_hex_u64-quantity_hex_example = parse_hex_u64-quantity_hex 1234567 (codes "n") (omega arith)

request_blocks_lem_example :
    let asked = (provider_candidates manager 500).0 in
    let found = blocks_answered readers answers manager.providers asked in
    let result =
      (request_blocks readers manager 500 answers at (codes "block") (block_not_found 1)).0 in
    (0 < length found → Checked (codes "block") (take (max 1 2) found) result)
    × (found ≡ []
        → Refused
            (codes "block")
            (block_not_found 1)
            (absences readers answers manager.providers asked)
            (length asked)
            result)
request_blocks_lem_example =
    request_blocks_lem readers manager 500 answers at (codes "block") (block_not_found 1)

head_by_tag_lem_example :
    let reply = (head_by_tag readers manager 500 answers at (codes "latest")).0 in
    (reply ≢ none)
    × ((head : ChainBlockRef)
        → reply ≡ some (ok head)
        → IsHeadOf (chosen_blocks readers manager 500 answers) head)
head_by_tag_lem_example = head_by_tag_lem readers manager 500 answers at (codes "latest")

request_first_success_lem_example :
    (request_first_success answers at manager 500 (codes "eth_gasPrice")).0
    ≡ first_reply answers manager.providers
        (codes "eth_gasPrice")
        (lines_before answers manager.providers (provider_candidates manager 500).0)
        (first_answer answers manager.providers (provider_candidates manager 500).0)
request_first_success_lem_example =
    request_first_success_lem manager 500 answers at (codes "eth_gasPrice")

says :
    message_indicates_range_or_result_limit
      (to_string (rpc_unavailable (codes "block range too large")))
    ≡ true
unfolding message_indicates_range_or_result_limit to_string
says = refl

request_first_success-should_reduce_example :
    (e : ChainError) × ((request_first_success refusals at manager 500 (codes "eth_getLogs")).0
      ≡ err e)
    × (should_reduce_batch_on_error e ≡ true)
request_first_success-should_reduce_example =
    request_first_success-should_reduce manager 500 refusals at (codes "eth_getLogs") (3 ∷ 0 ∷ [])
      [] 2 (rpc_unavailable (codes "block range too large")) asked refl refl says
