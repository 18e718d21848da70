-- ===== src/Services/Payments/Page.antt =====
-- A page of matched payments is what each log of it comes to, in order: `match_stored_transfer_logs`
-- against the outcomes of its logs.
use pay.Common.{
  ℕ, suc, Option, none, some, List, [], ◌∷◌, ◌++◌, ◌≡◌, refl, ◌∙◌, filter, length, length-append,
  arith, inl, inr, Bool-cases, append_assoc, append-nil,
}
use pay.Common.Maps.{get, nat_ord, or_default}
use pay.Domain.Chain.{ChainBlockRef}
use pay.Ledger.{StreamId, StoredTransferLog, PaymentWindowCandidate, MatchedPaymentInput, Uuid}
use pay.Services.Payments.{
  RejectedPaymentLog, StoredPaymentMatchInput, group_candidates_by_address, selected,
}
use pay.Services.Payments.Stored.{
  candidate_is_within_monitor_window, candidates_for_log, matched_payment_input, rejected_log,
  Lists, push_matched, push_rejected, match_candidates, match_log, match_logs,
  match_stored_transfer_logs, record_selected, match_found,
}
use pay.Services.Payments.Outcome.{
  Outcome, ignored, refused, paid, outcome_of, outcome, matching, get-group, filter-for_address,
  paid_logs, refused_logs, cons_paid, cons_refused,
}

module _ (new_v4 : ℕ → Uuid) (stream : StreamId) (min_confirmations : ℕ)
    (head : ChainBlockRef) where
  -- the payments for them, numbered from `n` on
  unfoldable pub payments_from :
      ℕ → List (StoredTransferLog × PaymentWindowCandidate) → List MatchedPaymentInput
  payments_from n [] = []
  payments_from n ((log, c) ∷ rest) =
      matched_payment_input (new_v4 n) log c head min_confirmations ∷ payments_from (suc n) rest

  module _ (cs : List PaymentWindowCandidate) where
    abbrev pub by_outcome : StoredTransferLog → Outcome → Lists → Lists
    by_outcome log ignored lists = lists
    by_outcome log (refused reason) lists =
        push_rejected new_v4 stream min_confirmations head log reason lists
    by_outcome log (paid c) lists = push_matched new_v4 stream min_confirmations head log c lists

    selected_lem :
        (log : StoredTransferLog) (m : PaymentWindowCandidate) (ms es : List PaymentWindowCandidate)
        (lists : Lists)
        → record_selected new_v4 stream min_confirmations head log (selected (m ∷ ms) es) lists
          ≡ by_outcome log (outcome_of es (m ∷ ms)) lists
    unfolding selected record_selected
    selected_lem log m ms (e ∷ []) lists = refl
    selected_lem log m ms (e ∷ e' ∷ es) lists = refl
    selected_lem log m [] [] lists = refl
    selected_lem log m (m' ∷ ms) [] lists = refl

    match_candidates_lem :
        (log : StoredTransferLog) (ms : List PaymentWindowCandidate) (lists : Lists)
        → match_candidates new_v4 stream min_confirmations head log ms lists
          ≡ by_outcome log
              (outcome_of (filter (candidate_is_within_monitor_window log) ms) ms)
              lists
    unfolding match_candidates
    match_candidates_lem log [] lists = refl
    match_candidates_lem log (m ∷ ms) lists =
        selected_lem log m ms (filter (candidate_is_within_monitor_window log) (m ∷ ms)) lists

    candidates_lem :
        (log : StoredTransferLog) (found : List PaymentWindowCandidate)
        → or_default (get log.to_address (group_candidates_by_address cs)) ≡ found
        → candidates_for_log log found stream ≡ matching stream cs log
    unfolding candidates_for_log
    candidates_lem log found e =
        rw (← e, get-group log.to_address cs) (filter-for_address log stream cs)

    found_lem :
        (log : StoredTransferLog) (o : Option (List PaymentWindowCandidate)) (lists : Lists)
        → match_found new_v4 stream min_confirmations head log o lists
          ≡ match_candidates new_v4 stream min_confirmations head log
              (candidates_for_log log (or_default o) stream)
              lists
    unfolding match_found match_candidates candidates_for_log
    found_lem log none lists = refl
    found_lem log (some found) lists = refl

    pub match_log_lem :
        (log : StoredTransferLog) (lists : Lists)
        → match_log new_v4 stream min_confirmations head (group_candidates_by_address cs) log lists
          ≡ by_outcome log (outcome stream cs log) lists
    unfolding match_log outcome
    match_log_lem log lists = elim (Bool-cases log.removed) [
      | inl r ↦ simp r
      | inr r ↦ simp r (
          found_lem log (get log.to_address (group_candidates_by_address cs)) lists
          ∙ rw (candidates_lem log _ refl)
              (match_candidates_lem log (matching stream cs log) lists))
    ]

    -- what the loop has made of some logs, from these lists on
    abbrev Made : List StoredTransferLog → Lists → Lists → Type 0
    Made logs (matched, rejected) lists = lists ≡ (
      matched ++ payments_from (length matched) (paid_logs stream cs logs),
      rejected ++ refused_logs stream cs logs,
    )

    abbrev loop : List StoredTransferLog → Lists → Lists
    loop = match_logs new_v4 stream min_confirmations head (group_candidates_by_address cs)

    after_outcome :
        (log : StoredTransferLog) (logs : List StoredTransferLog) (o : Outcome)
        (matched : List MatchedPaymentInput) (rejected : List RejectedPaymentLog)
        → ((m : List MatchedPaymentInput) (r : List RejectedPaymentLog)
            → Made logs (m, r) (loop logs (m, r)))
        → loop logs (by_outcome log o (matched, rejected)) ≡ (
          matched
              ++ payments_from
                  (length matched)
                  (cons_paid stream cs log o (paid_logs stream cs logs)),
          rejected ++ cons_refused stream cs log o (refused_logs stream cs logs),
        )
    unfolding payments_from
    after_outcome log logs ignored matched rejected ih = ih matched rejected
    after_outcome log logs (refused reason) matched rejected ih =
        ih matched (rejected ++ rejected_log log reason ∷ [])
        ∙ rw (append_assoc rejected (rejected_log log reason ∷ []) (refused_logs stream cs logs))
            refl
    after_outcome log logs (paid c) matched rejected ih =
        let p = matched_payment_input (new_v4 (length matched)) log c head min_confirmations in
        let n : length (matched ++ p ∷ []) ≡ suc (length matched) =
          omega (arith, length-append matched (p ∷ [])) in
        ih (matched ++ p ∷ []) rejected
        ∙ rw
            (
              n,
              append_assoc matched (p ∷ [])
                  (payments_from (suc (length matched)) (paid_logs stream cs logs)),
            )
            refl

    match_logs_lem :
        (logs : List StoredTransferLog) (matched : List MatchedPaymentInput)
        (rejected : List RejectedPaymentLog)
        → Made logs (matched, rejected) (loop logs (matched, rejected))
    unfolding match_logs payments_from paid_logs refused_logs
    match_logs_lem [] matched rejected = rw (append-nil matched, append-nil rejected) refl
    match_logs_lem (log ∷ logs) matched rejected =
        rw (match_log_lem log (matched, rejected))
          (after_outcome log logs (outcome stream cs log) matched rejected (match_logs_lem logs))

-- The page has one payment for each log that pays, in the order of the logs and with fresh ids, and
-- one refusal for each log that is refused; the rest of the input is passed on.
pub match_stored_transfer_logs_lem :
    (new_v4 : ℕ → Uuid) (stream : StreamId) (min_confirmations : ℕ)
    (input : StoredPaymentMatchInput)
    → let cs = input.candidates in
      match_stored_transfer_logs new_v4 stream min_confirmations input ≡ record {
        matched_payments =
            payments_from new_v4 stream min_confirmations input.head 0
              (paid_logs stream cs input.logs);
        rejected = refused_logs stream cs input.logs;
        next_token = input.next_token;
        complete_to_block = input.complete_to_block;
        kv_reorg_epoch = input.kv_reorg_epoch;
      }
unfolding match_stored_transfer_logs
match_stored_transfer_logs_lem new_v4 stream min_confirmations input =
    rw (match_logs_lem new_v4 stream min_confirmations input.head input.candidates input.logs [] [])
      refl
