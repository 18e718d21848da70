-- ===== src/Services/Payments/Agree.antt =====
-- The matcher over the chain's logs and the matcher over stored logs make the same payments.
use pay.Common.{ℕ, Option, none, some, List, [], ◌∷◌, ◌≡◌, refl, map, filter}
use pay.Common.Maps.{Map, get, nat_ord}
use pay.Domain.Address.{EvmAddress}
use pay.Domain.Chain.{ChainBlockRef}
use pay.Ledger.{
  StreamId, TransferLog, StoredTransferLog, PaymentWindowCandidate, Uuid, OffsetDateTime,
}
use pay.LogStore.State.{stored_log}
use pay.Services.Payments.{StoredPaymentMatchInput, group_candidates_by_address, selected}
use pay.Services.Payments.Stored
use pay.Services.Payments.Stored.{
  Lists, candidate_is_within_monitor_window, match_stored_transfer_logs,
}
use pay.Services.Payments.Direct
use pay.Services.Payments.Direct.{candidate_is_within_monitor_window_transfer, match_transfer_logs}

-- a log as the store keeps it, with the time of its own block
abbrev pub kept : OffsetDateTime → TransferLog → StoredTransferLog
kept observed_at log = stored_log log log.block.timestamp observed_at

module _ (new_v4 : ℕ → Uuid) (stream : StreamId) (min_confirmations : ℕ) (head : ChainBlockRef)
    (observed_at : OffsetDateTime) where
  selected_agree :
      (log : TransferLog) (o : Option PaymentWindowCandidate) (lists : Lists)
      → Direct.record_selected new_v4 stream min_confirmations head log o lists.0
        ≡ (Stored.record_selected new_v4 stream min_confirmations head
            (kept observed_at log)
            o
            lists).0
  unfolding Direct.record_selected Stored.record_selected stored_log
      Direct.matched_payment_input_from_transfer_log Stored.matched_payment_input
  selected_agree log none lists = refl
  selected_agree log (some c) lists = refl

  candidates_agree :
      (log : TransferLog) (ms : List PaymentWindowCandidate) (lists : Lists)
      → Direct.match_candidates new_v4 stream min_confirmations head log ms lists.0
        ≡ (Stored.match_candidates new_v4 stream min_confirmations head
            (kept observed_at log)
            ms
            lists).0
  unfolding Direct.match_candidates Stored.match_candidates stored_log
      candidate_is_within_monitor_window candidate_is_within_monitor_window_transfer
  candidates_agree log [] lists = refl
  candidates_agree log (m ∷ ms) lists =
      selected_agree log
        (selected (m ∷ ms) (filter (candidate_is_within_monitor_window_transfer log) (m ∷ ms)))
        lists

  found_agree :
      (log : TransferLog) (o : Option (List PaymentWindowCandidate)) (lists : Lists)
      → Direct.match_found new_v4 stream min_confirmations head log o lists.0
        ≡ (Stored.match_found new_v4 stream min_confirmations head (kept observed_at log) o lists).0
  unfolding Direct.match_found Stored.match_found stored_log Stored.candidates_for_log
      Direct.candidates_for_transfer_log Stored.is_candidate_for Direct.is_candidate_for_transfer
  found_agree log none lists = refl
  found_agree log (some cs) lists =
      candidates_agree log (Direct.candidates_for_transfer_log log cs stream) lists

  log_agree :
      (by_address : Map EvmAddress (List PaymentWindowCandidate)) (log : TransferLog)
      (lists : Lists)
      → Direct.match_log new_v4 stream min_confirmations head by_address log lists.0
        ≡ (Stored.match_log new_v4 stream min_confirmations head by_address
            (kept observed_at log)
            lists).0
  unfolding Direct.match_log Stored.match_log stored_log
  log_agree by_address log lists = found_agree log (get log.to_address by_address) lists

  logs_agree :
      (by_address : Map EvmAddress (List PaymentWindowCandidate)) (logs : List TransferLog)
      (lists : Lists)
      → Direct.match_logs new_v4 stream min_confirmations head by_address logs lists.0
        ≡ (Stored.match_logs new_v4 stream min_confirmations head by_address
            (map (kept observed_at) logs)
            lists).0
  unfolding Direct.match_logs Stored.match_logs
  logs_agree by_address [] lists = refl
  logs_agree by_address (log ∷ logs) lists = rw (log_agree by_address log lists) (
      logs_agree by_address logs (
        Stored.match_log new_v4 stream min_confirmations head by_address (kept observed_at log)
          lists))

-- Matching the logs as the chain gives them makes the payments that matching the logs as the store
-- keeps them makes, where no kept log is marked removed.
pub match_transfer_logs-eq-stored :
    (new_v4 : ℕ → Uuid) (stream : StreamId) (min_confirmations : ℕ) (logs : List TransferLog)
    (observed_at : OffsetDateTime) (input : StoredPaymentMatchInput)
    → input.logs ≡ map (kept observed_at) logs
    → match_transfer_logs new_v4 stream min_confirmations logs input.candidates input.head
      ≡ (match_stored_transfer_logs new_v4 stream min_confirmations input).matched_payments
unfolding match_transfer_logs match_stored_transfer_logs
match_transfer_logs-eq-stored new_v4 stream min_confirmations logs observed_at input e = rw e (
    logs_agree new_v4 stream min_confirmations input.head observed_at
      (group_candidates_by_address input.candidates) logs ([], []))
