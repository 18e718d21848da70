-- ===== src/Services/Payments/Outcome.antt =====
-- What the matcher does with one log, said over the whole list of candidates, with no map; and that
-- `match_stored_transfer_logs` does just that, log by log.
use pay.Common.{
  List, [], ◌∷◌, ◌++◌, ◌≡◌, refl, sym, ◌==◌, if◌then◌else◌, filter, arith, append_assoc, append-nil,
}
use pay.Common.Maps.{Map, get, nat_ord, push, or_default}
use pay.Common.Maps.Laws.{get-push}
use pay.Domain.Address.{EvmAddress}
use pay.Ledger.{StreamId, StoredTransferLog, PaymentWindowCandidate}
use pay.Services.Payments.{
  PaymentRejectionReason, removed_log, ambiguous_candidates, RejectedPaymentLog, group_from,
  group_candidates_by_address,
}
use pay.Services.Payments.Stored.{
  candidate_is_within_monitor_window, is_candidate_for, rejected_log,
}

-- the candidates for one address, in the order of the list
abbrev pub for_address : EvmAddress → List PaymentWindowCandidate → List PaymentWindowCandidate
for_address a = filter (λ c. c.receive_address == a)

-- An address has an entry if and only if some candidate has it, and the entry holds these in order.
get-group_from :
    (a : EvmAddress) (m : Map EvmAddress (List PaymentWindowCandidate))
    (cs : List PaymentWindowCandidate)
    → or_default (get a (group_from m cs)) ≡ or_default (get a m) ++ for_address a cs
unfolding group_from
get-group_from a m [] = sym (append-nil (or_default (get a m)))
get-group_from a m (c ∷ cs) = ground (
  arith,
  get-group_from a (push c.receive_address c m) cs,
  get-push c.receive_address a c m,
  append_assoc (or_default (get a m)) (c ∷ []) (for_address a cs),
)

pub get-group :
    (a : EvmAddress) (cs : List PaymentWindowCandidate)
    → or_default (get a (group_candidates_by_address cs)) ≡ for_address a cs
unfolding group_candidates_by_address get
get-group a cs = get-group_from a [] cs

pub filter-for_address :
    (log : StoredTransferLog) (stream : StreamId) (cs : List PaymentWindowCandidate)
    → filter (is_candidate_for log stream) (for_address log.to_address cs)
      ≡ filter (is_candidate_for log stream) cs
unfolding is_candidate_for
filter-for_address log stream [] = refl
filter-for_address log stream (c ∷ cs) = ground (arith, filter-for_address log stream cs)

pub data Outcome : Type 0 where
  ignored : Outcome
  refused : PaymentRejectionReason → Outcome
  paid : PaymentWindowCandidate → Outcome

-- by the candidates that are eligible, and if there is none by the candidates at all
abbrev pub outcome_of : List PaymentWindowCandidate → List PaymentWindowCandidate → Outcome
outcome_of (c ∷ []) _ = paid c
outcome_of (_ ∷ _ ∷ _) _ = refused ambiguous_candidates
outcome_of [] [] = ignored
outcome_of [] (c ∷ []) = paid c
outcome_of [] (_ ∷ _ ∷ _) = refused ambiguous_candidates

-- the candidates of the log's stream and recipient
abbrev pub matching :
    StreamId → List PaymentWindowCandidate → StoredTransferLog → List PaymentWindowCandidate
matching stream cs log = filter (is_candidate_for log stream) cs

-- those of them whose window the log falls into
abbrev pub eligible :
    StreamId → List PaymentWindowCandidate → StoredTransferLog → List PaymentWindowCandidate
eligible stream cs log = filter (candidate_is_within_monitor_window log) (matching stream cs log)

unfoldable pub outcome : StreamId → List PaymentWindowCandidate → StoredTransferLog → Outcome
outcome stream cs log =
    if log.removed
    then refused removed_log
    else outcome_of (eligible stream cs log) (matching stream cs log)

module _ (stream : StreamId) (cs : List PaymentWindowCandidate) where
  -- the logs that pay, each with its candidate
  abbrev pub cons_paid :
      StoredTransferLog
      → Outcome
      → List (StoredTransferLog × PaymentWindowCandidate)
      → List (StoredTransferLog × PaymentWindowCandidate)
  cons_paid log (paid c) rest = (log, c) ∷ rest
  cons_paid log _ rest = rest

  unfoldable pub paid_logs :
      List StoredTransferLog → List (StoredTransferLog × PaymentWindowCandidate)
  paid_logs [] = []
  paid_logs (log ∷ logs) = cons_paid log (outcome stream cs log) (paid_logs logs)

  abbrev pub cons_refused :
      StoredTransferLog → Outcome → List RejectedPaymentLog → List RejectedPaymentLog
  cons_refused log (refused reason) rest = rejected_log log reason ∷ rest
  cons_refused log _ rest = rest

  unfoldable pub refused_logs : List StoredTransferLog → List RejectedPaymentLog
  refused_logs [] = []
  refused_logs (log ∷ logs) = cons_refused log (outcome stream cs log) (refused_logs logs)
