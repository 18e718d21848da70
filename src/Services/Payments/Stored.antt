-- ===== src/Services/Payments/Stored.antt =====
-- `match_stored_transfer_logs`, over logs of the store.
use pay.Common.{
  ℕ, Bool, ◌&&◌, none, some, List, [], ◌∷◌, ◌++◌, ◌==◌, if◌then◌else◌, filter, length, Option,
}
use pay.Common.Maps.{Map, get, nat_ord}
use pay.Domain.Address.{EvmAddress}
use pay.Domain.Chain.{ChainBlockRef}
use pay.Domain.Payment.{PaymentMatchStatus}
use pay.Ledger.{StreamId, StoredTransferLog, PaymentWindowCandidate, MatchedPaymentInput, Uuid}
use pay.Services.Payments.{
  PaymentRejectionReason, removed_log, ambiguous_candidates, RejectedPaymentLog, PaymentMatchPage,
  StoredPaymentMatchInput, group_candidates_by_address, chain_status, selected,
  is_within_monitor_window, match_status_at,
}

unfoldable pub candidate_is_within_monitor_window :
    StoredTransferLog → PaymentWindowCandidate → Bool
candidate_is_within_monitor_window log c =
    is_within_monitor_window log.block_number log.block_timestamp c

unfoldable pub match_status : StoredTransferLog → PaymentWindowCandidate → PaymentMatchStatus
match_status log c = match_status_at log.block_number log.block_timestamp c

-- the test of the filter in `candidates_for_log`
unfoldable pub is_candidate_for : StoredTransferLog → StreamId → PaymentWindowCandidate → Bool
is_candidate_for log stream c =
    c.chain_id == stream.chain_id
    && c.token_address == stream.token_address
    && c.receive_address == log.to_address
    && log.chain_id == stream.chain_id
    && log.token_address == stream.token_address

unfoldable pub candidates_for_log :
    StoredTransferLog → List PaymentWindowCandidate → StreamId → List PaymentWindowCandidate
candidates_for_log log candidates stream = filter (is_candidate_for log stream) candidates

-- `id` is what `Uuid::new_v4()` returned
unfoldable pub matched_payment_input :
    Uuid → StoredTransferLog → PaymentWindowCandidate → ChainBlockRef → ℕ → MatchedPaymentInput
unfolding match_status
matched_payment_input id log c head min_confirmations =
    let log_block : ChainBlockRef = record { number = log.block_number; hash = log.block_hash } in
    let (status, confirmations) = chain_status log_block head min_confirmations in
    record {
      id = id;
      order_id = c.order_id;
      child_account_id = c.child_account_id;
      chain_id = log.chain_id;
      token_address = log.token_address;
      tx_hash = log.tx_hash;
      log_index = log.log_index;
      from_address = log.from_address;
      to_address = log.to_address;
      amount_raw = log.amount_raw;
      block_number = log.block_number;
      block_hash = log.block_hash;
      block_time = log.block_timestamp;
      confirmations = confirmations;
      match_status = match_status log c;
      chain_status = status;
    }

unfoldable pub rejected_log : StoredTransferLog → PaymentRejectionReason → RejectedPaymentLog
rejected_log log reason = record {
  tx_hash = log.tx_hash;
  log_index = log.log_index;
  to_address = log.to_address;
  reason = reason;
}

-- `matched_payments` and `rejected`
abbrev pub Lists : Type 0
Lists = List MatchedPaymentInput × List RejectedPaymentLog

-- `new_v4 n` is what the call of `Uuid::new_v4()` returns that makes the payment number `n`.
module _ (new_v4 : ℕ → Uuid) (stream : StreamId) (min_confirmations : ℕ)
    (head : ChainBlockRef) where
  abbrev pub push_matched : StoredTransferLog → PaymentWindowCandidate → Lists → Lists
  push_matched log c (matched, rejected) = (
    matched ++ matched_payment_input (new_v4 (length matched)) log c head min_confirmations ∷ [],
    rejected,
  )

  abbrev pub push_rejected : StoredTransferLog → PaymentRejectionReason → Lists → Lists
  push_rejected log reason (matched, rejected) = (matched, rejected ++ rejected_log log reason ∷ [])

  -- what is done with `selected`
  unfoldable pub record_selected : StoredTransferLog → Option PaymentWindowCandidate → Lists → Lists
  record_selected log none lists = push_rejected log ambiguous_candidates lists
  record_selected log (some c) lists = push_matched log c lists

  -- the body of the loop behind `candidates_for_log`
  unfoldable pub match_candidates : StoredTransferLog → List PaymentWindowCandidate → Lists → Lists
  match_candidates log [] lists = lists
  match_candidates log (m ∷ ms) lists =
      let eligible = filter (candidate_is_within_monitor_window log) (m ∷ ms) in
      record_selected log (selected (m ∷ ms) eligible) lists

  -- the body behind `candidates_by_address.get`
  unfoldable pub match_found :
      StoredTransferLog → Option (List PaymentWindowCandidate) → Lists → Lists
  match_found log none lists = lists
  match_found log (some candidates) lists =
      match_candidates log (candidates_for_log log candidates stream) lists

  module _ (by_address : Map EvmAddress (List PaymentWindowCandidate)) where
    unfoldable pub match_log : StoredTransferLog → Lists → Lists
    match_log log lists =
        if log.removed
        then push_rejected log removed_log lists
        else match_found log (get log.to_address by_address) lists

    unfoldable pub match_logs : List StoredTransferLog → Lists → Lists
    match_logs [] lists = lists
    match_logs (log ∷ logs) lists = match_logs logs (match_log log lists)

unfoldable pub match_stored_transfer_logs :
    (ℕ → Uuid) → StreamId → ℕ → StoredPaymentMatchInput → PaymentMatchPage
match_stored_transfer_logs new_v4 stream min_confirmations input =
    let by_address = group_candidates_by_address input.candidates in
    let lists =
      match_logs new_v4 stream min_confirmations input.head by_address input.logs ([], []) in
    record {
      matched_payments = lists.0;
      rejected = lists.1;
      next_token = input.next_token;
      complete_to_block = input.complete_to_block;
      kv_reorg_epoch = input.kv_reorg_epoch;
    }
