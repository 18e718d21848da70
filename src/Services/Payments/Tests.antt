-- ===== src/Services/Payments/Tests.antt =====
-- The matcher at concrete inputs.
use pay.Services.Payments.Pays.{Pays, match_log-Pays, match_log_unpaid, Records}
use pay.Common.{ℕ, ◌≡◌, refl, true, false, none, some, List, [], ◌∷◌, map, inl}
use pay.Domain.Chain.{ChainBlockRef}
use pay.Domain.Order.{pending}
use pay.Ledger.{
  StreamId, TransferLog, PaymentWindowCandidate, StoredTransferLog, MatchedPaymentInput,
}
use pay.LogStore.State.{stored_log}
use pay.Services.Payments.{
  StoredPaymentMatchInput, is_within_monitor_window, group_candidates_by_address,
}
use pay.Services.Payments.Stored.{
  match_stored_transfer_logs, candidate_is_within_monitor_window, is_candidate_for, match_log,
}
use pay.Services.Payments.Direct.{match_transfer_logs}
use pay.Services.Payments.Outcome.{paid, outcome, paid_logs, refused_logs}
use pay.Services.Payments.Page.{payments_from, match_stored_transfer_logs_lem}
use pay.Services.Payments.Agree.{kept, match_transfer_logs-eq-stored}

abbrev stream : StreamId
stream = record { chain_id = 1; token_address = 9 }

-- an order that waits for a payment to `address`, from block 5 on, until time 100, watched until 200
abbrev waiting : ℕ → ℕ → PaymentWindowCandidate
waiting order address = record {
  order_id = order;
  child_account_id = 70;
  receive_address = address;
  chain_id = 1;
  token_address = 9;
  expected_amount_raw = 50;
  paid_amount_raw = 0;
  order_status = pending;
  window_from = 0;
  window_from_block = record { number = 5; hash = 55 };
  expires_at = 100;
  monitor_until = 200;
}

abbrev transfer : ℕ → ℕ → ℕ → TransferLog
transfer address number time = record {
  chain_id = 1;
  token_address = 9;
  block = record { number = number; hash = 77; parent_hash = 76; timestamp = time };
  tx_hash = 1000;
  log_index = 0;
  from_address = 3;
  to_address = address;
  amount_raw = 50;
}

abbrev orders : List PaymentWindowCandidate
orders = waiting 1 20 ∷ waiting 2 21 ∷ waiting 3 22 ∷ waiting 4 22 ∷ []

abbrev transfers : List TransferLog
transfers = transfer 20 7 90 ∷ transfer 22 7 90 ∷ transfer 21 8 150 ∷ transfer 23 8 150 ∷ []

abbrev chain_head : ChainBlockRef
chain_head = record { number = 9; hash = 99 }

abbrev input : StoredPaymentMatchInput
input = record {
  logs = map (kept 300) transfers;
  candidates = orders;
  head = chain_head;
  next_token = none;
  complete_to_block = some 8;
  kv_reorg_epoch = 0;
}

abbrev ids : ℕ → ℕ
ids n = n

match_stored_transfer_logs_lem_example : match_stored_transfer_logs ids stream 3 input ≡ record {
  matched_payments =
      payments_from ids stream 3 chain_head 0 (paid_logs stream orders (map (kept 300) transfers));
  rejected = refused_logs stream orders (map (kept 300) transfers);
  next_token = none;
  complete_to_block = some 8;
  kv_reorg_epoch = 0;
}
match_stored_transfer_logs_lem_example = match_stored_transfer_logs_lem ids stream 3 input

match_transfer_logs-eq-stored_example :
    match_transfer_logs ids stream 3 transfers orders chain_head
    ≡ (match_stored_transfer_logs ids stream 3 input).matched_payments
match_transfer_logs-eq-stored_example =
    match_transfer_logs-eq-stored ids stream 3 transfers 300 input refl

one-Pays : Pays stream orders (kept 300 (transfer 20 7 90)) (waiting 1 20)
unfolding is_candidate_for candidate_is_within_monitor_window is_within_monitor_window stored_log
one-Pays = (refl, inl refl)

match_log-Pays_example :
    (p : MatchedPaymentInput) × (match_log ids stream 3 chain_head
        (group_candidates_by_address orders)
        (kept 300 (transfer 20 7 90))
        ([], [])
      ≡ (p ∷ [], []))
    × (p.id ≡ ids 0)
    × Records 3 chain_head (kept 300 (transfer 20 7 90)) (waiting 1 20) p
match_log-Pays_example =
    match_log-Pays ids stream 3 chain_head orders (kept 300 (transfer 20 7 90)) ([], [])
      (waiting 1 20) one-Pays

-- the same log, dropped from the chain
abbrev dropped : StoredTransferLog
dropped = record (kept 300 (transfer 20 7 90)) { removed = true }

none-Pays : (c : PaymentWindowCandidate) → ¬ Pays stream orders dropped c
none-Pays c h = let e : true ≡ false = h.0 in cc

match_log_unpaid_example :
    (match_log ids stream 3 chain_head (group_candidates_by_address orders) dropped ([], [])).0 ≡ []
match_log_unpaid_example =
    match_log_unpaid ids stream 3 chain_head orders dropped ([], []) none-Pays

too_late : outcome stream orders (kept 300 (transfer 20 7 900)) ≡ paid (waiting 1 20)
unfolding outcome is_candidate_for candidate_is_within_monitor_window stored_log
    is_within_monitor_window
too_late = refl
