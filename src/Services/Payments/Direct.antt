-- ===== src/Services/Payments/Direct.antt =====
-- `match_transfer_logs` and `PaymentMatcher::match_range`, over logs as the chain gives them.
use pay.Common.{
  ℕ, Bool, ◌&&◌, none, some, List, [], ◌∷◌, ◌++◌, Result, ok, err, ◌>>=◌, ◌>>◌, fail_if, ltb, ◌==◌,
  if◌then◌else◌, filter, length, Option,
}
use pay.Common.Strings.{is_empty}
use pay.Common.Maps.{Map, get, insert_set, nat_ord}
use pay.Domain.Address.{EvmAddress}
use pay.Domain.Chain.{ChainBlockRef}
use pay.Domain.Payment.{PaymentMatchStatus}
use pay.Ledger.{StreamId, TransferLog, PaymentWindowCandidate, MatchedPaymentInput, Uuid}
use pay.Services.Payments.{
  PaymentMatchingConfig, group_candidates_by_address, chain_status, selected,
  is_within_monitor_window, match_status_at,
}

unfoldable pub candidate_is_within_monitor_window_transfer :
    TransferLog → PaymentWindowCandidate → Bool
candidate_is_within_monitor_window_transfer log c =
    is_within_monitor_window log.block.number log.block.timestamp c

unfoldable pub match_status_transfer : TransferLog → PaymentWindowCandidate → PaymentMatchStatus
match_status_transfer log c = match_status_at log.block.number log.block.timestamp c

unfoldable pub is_candidate_for_transfer : TransferLog → StreamId → PaymentWindowCandidate → Bool
is_candidate_for_transfer log stream c =
    c.chain_id == stream.chain_id
    && c.token_address == stream.token_address
    && c.receive_address == log.to_address
    && log.chain_id == stream.chain_id
    && log.token_address == stream.token_address

unfoldable pub candidates_for_transfer_log :
    TransferLog → List PaymentWindowCandidate → StreamId → List PaymentWindowCandidate
candidates_for_transfer_log log candidates stream =
    filter (is_candidate_for_transfer log stream) candidates

unfoldable pub matched_payment_input_from_transfer_log :
    Uuid → TransferLog → PaymentWindowCandidate → ChainBlockRef → ℕ → MatchedPaymentInput
unfolding match_status_transfer
matched_payment_input_from_transfer_log id log c head min_confirmations =
    let log_block : ChainBlockRef = record { number = log.block.number; hash = log.block.hash } in
    let (status, confirmations) = chain_status log_block head min_confirmations in
    record {
      id = id;
      order_id = c.order_id;
      child_account_id = c.child_account_id;
      chain_id = log.chain_id;
      token_address = log.token_address;
      tx_hash = log.tx_hash;
      log_index = log.log_index;
      from_address = log.from_address;
      to_address = log.to_address;
      amount_raw = log.amount_raw;
      block_number = log.block.number;
      block_hash = log.block.hash;
      block_time = log.block.timestamp;
      confirmations = confirmations;
      match_status = match_status_transfer log c;
      chain_status = status;
    }

-- `new_v4 n` is what the call of `Uuid::new_v4()` returns that makes the payment number `n`.
module _ (new_v4 : ℕ → Uuid) (stream : StreamId) (min_confirmations : ℕ)
    (head : ChainBlockRef) where
  -- what is done with `selected`
  unfoldable pub record_selected :
      TransferLog
      → Option PaymentWindowCandidate
      → List MatchedPaymentInput
      → List MatchedPaymentInput
  record_selected log none matched = matched
  record_selected log (some c) matched =
      matched
      ++ matched_payment_input_from_transfer_log (new_v4 (length matched)) log c head
          min_confirmations
        ∷ []

  unfoldable pub match_candidates :
      TransferLog
      → List PaymentWindowCandidate
      → List MatchedPaymentInput
      → List MatchedPaymentInput
  match_candidates log [] matched = matched
  match_candidates log (m ∷ ms) matched =
      let eligible = filter (candidate_is_within_monitor_window_transfer log) (m ∷ ms) in
      record_selected log (selected (m ∷ ms) eligible) matched

  unfoldable pub match_found :
      TransferLog
      → Option (List PaymentWindowCandidate)
      → List MatchedPaymentInput
      → List MatchedPaymentInput
  match_found log none matched = matched
  match_found log (some candidates) matched =
      match_candidates log (candidates_for_transfer_log log candidates stream) matched

  module _ (by_address : Map EvmAddress (List PaymentWindowCandidate)) where
    unfoldable pub match_log : TransferLog → List MatchedPaymentInput → List MatchedPaymentInput
    match_log log matched = match_found log (get log.to_address by_address) matched

    unfoldable pub match_logs :
        List TransferLog → List MatchedPaymentInput → List MatchedPaymentInput
    match_logs [] matched = matched
    match_logs (log ∷ logs) matched = match_logs logs (match_log log matched)

unfoldable pub match_transfer_logs :
    (ℕ → Uuid)
    → StreamId
    → ℕ
    → List TransferLog
    → List PaymentWindowCandidate
    → ChainBlockRef
    → List MatchedPaymentInput
match_transfer_logs new_v4 stream min_confirmations logs candidates head =
    match_logs new_v4 stream min_confirmations head (group_candidates_by_address candidates) logs []

-- the set of the recipients, by rising order
unfoldable pub unique_to_addresses_from_transfer_logs : List TransferLog → List EvmAddress
unique_to_addresses_from_transfer_logs [] = []
unique_to_addresses_from_transfer_logs (log ∷ logs) =
    insert_set log.to_address (unique_to_addresses_from_transfer_logs logs)

-- `E` is the type of the errors of the chain and of the lookup, boxed.
pub data PaymentMatchingError (E : Type 0) : Type 0 where
  invalid_config : PaymentMatchingError E
  unique_address_limit_exceeded : ℕ → ℕ → PaymentMatchingError E
  transfer_log_store chain payment_window_lookup : E → PaymentMatchingError E

abbrev map_err :
    {A E : Type 0} → (E → PaymentMatchingError E) → Result A E → Result A (PaymentMatchingError E)
map_err f (ok a) = ok a
map_err f (err e) = err (f e)

validate_config : {E : Type 0} → PaymentMatchingConfig → Result (Unit {0}) (PaymentMatchingError E)
validate_config config = fail_if (config.max_unique_to_addresses_per_batch == 0) invalid_config

-- The answers of the chain and of the lookup are parameters: the logs of the range, the head, and the
-- candidates for a list of addresses.
module _ {E : Type 0} (transfer_logs : ℕ → ℕ → Result (List TransferLog) E)
    (latest_head : Result ChainBlockRef E)
    (lookup_batch : ℕ → EvmAddress → List EvmAddress → Result (List PaymentWindowCandidate) E)
    (new_v4 : ℕ → Uuid) where
  unfoldable pub match_range :
      PaymentMatchingConfig → ℕ → ℕ → Result (List MatchedPaymentInput) (PaymentMatchingError E)
  unfolding validate_config
  match_range config from_block to_block = do
    validate_config config
    logs ← map_err chain (transfer_logs from_block to_block)
    head ← map_err chain latest_head
    let addresses = unique_to_addresses_from_transfer_logs logs
    fail_if (ltb config.max_unique_to_addresses_per_batch (length addresses))
        (unique_address_limit_exceeded (length addresses) config.max_unique_to_addresses_per_batch)
    candidates ←
        (if is_empty addresses
          then ok []
          else map_err payment_window_lookup
              (lookup_batch config.stream.chain_id config.stream.token_address addresses))
    ok (match_transfer_logs new_v4 config.stream config.min_confirmations logs candidates head)
