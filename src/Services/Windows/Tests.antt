-- ===== src/Services/Windows/Tests.antt =====
-- Lookups in a small watch set.
use pay.Common.Maps.{push, insert, get, insert_set, remove}
use pay.Common.{ℕ, List, [], ◌∷◌, ◌≡◌, refl, ok, err}
use pay.Domain.Address.{EvmAddress}
use pay.Domain.Order.{pending}
use pay.Ledger.{PaymentWindowCandidate}
use pay.Services.Windows.{
  Lookup, invalid_config, lookup_batch, lookup_in_repository, replace_watch_set,
  deduplicate_addresses, remove_address, watch_set_len, key_ord, watched, insert_all,
  insert_candidate, from_candidate, candidate_matches, candidate_is_for_lookup,
}
use pay.Services.Windows.Watched.{
  all_found, missed, lookup_batch-replace_watch_set, IsAnswer, distinct,
}

abbrev window : ℕ → ℕ → ℕ → PaymentWindowCandidate
window order token address = record {
  order_id = order;
  child_account_id = 70;
  receive_address = address;
  chain_id = 1;
  token_address = token;
  expected_amount_raw = 50;
  paid_amount_raw = 0;
  order_status = pending;
  window_from = 0;
  window_from_block = record { number = 5; hash = 55 };
  expires_at = 100;
  monitor_until = 200;
}

abbrev windows : List PaymentWindowCandidate
windows = window 1 9 20 ∷ window 2 9 21 ∷ window 3 9 20 ∷ window 4 8 22 ∷ []

-- answers with a window of another token too
abbrev behind : Lookup
behind chain_id token_address to_addresses = ok (window 5 9 22 ∷ window 6 8 22 ∷ [])

abbrev wanted : List EvmAddress
wanted = 21 ∷ 22 ∷ 20 ∷ 21 ∷ []

lookup_test :
    lookup_batch behind (replace_watch_set windows []) 1 9 wanted
    ≡ ok (window 2 9 21 ∷ window 1 9 20 ∷ window 3 9 20 ∷ window 5 9 22 ∷ [])
unfolding lookup_batch replace_watch_set deduplicate_addresses watched get insert_all
    insert_candidate push insert from_candidate candidate_matches insert_set candidate_is_for_lookup
lookup_test = refl

too_many_test : lookup_in_repository (λ c t a. ok []) 2 1 9 wanted ≡ err invalid_config
unfolding lookup_in_repository deduplicate_addresses insert_set
too_many_test = refl

removed_test : watch_set_len (remove_address 1 9 20 (replace_watch_set windows [])).1 ≡ 2
unfolding watch_set_len remove_address replace_watch_set remove insert_all insert_candidate push
    insert from_candidate get
removed_test = refl

lookup_batch-replace_watch_set_example :
    IsAnswer windows 1 9 behind
      (all_found windows 1 9 (distinct wanted))
      (missed windows 1 9 (distinct wanted))
      (lookup_batch behind (replace_watch_set windows []) 1 9 wanted)
lookup_batch-replace_watch_set_example = lookup_batch-replace_watch_set windows 1 9 behind [] wanted
