-- ===== src/Services/Payments/Pays.antt =====
-- For which candidate the loop over stored logs makes a payment.
use pay.Common.{
  ℕ, ◌≡◌, refl, ap, ◌∙◌, ◌⊎◌, false, List, [], ◌∷◌, length, ◌++◌, ◌↔◌, ◌≤◌, ◌<◌, true, arith,
}
use pay.Domain.Chain.{ChainBlockRef, has_confirmations, confirmations_against}
use pay.Ledger.{StreamId, StoredTransferLog, PaymentWindowCandidate, Uuid, MatchedPaymentInput}
use pay.Services.Payments.{
  group_candidates_by_address, match_status_at, is_within_monitor_window, chain_status, on_time,
  late, confirmed,
}
use pay.Services.Payments.Stored.{Lists, match_log, matched_payment_input, match_status}
use pay.Services.Payments.Outcome.{Outcome, ignored, refused, paid, outcome, matching, eligible}
use pay.Services.Payments.Page.{match_log_lem, by_outcome}
use pay.Services.Payments.Status.{outcome_paid_iff}

-- The log was not removed, and the candidate is the only one of its stream and recipient into whose
-- window it falls, or there is no such window and it is the only one of its stream and recipient.
abbrev pub Pays :
    StreamId → List PaymentWindowCandidate → StoredTransferLog → PaymentWindowCandidate → Type 0
Pays stream cs log c =
    (log.removed ≡ false)
    × ((eligible stream cs log ≡ c ∷ [])
        ⊎ (eligible stream cs log ≡ []) × (matching stream cs log ≡ c ∷ []))

-- The payment repeats the candidate's order and account and the log, and its statuses say whether the
-- transfer was in time, and whether its block has the confirmations.
abbrev pub Records :
    ℕ → ChainBlockRef → StoredTransferLog → PaymentWindowCandidate → MatchedPaymentInput → Type 0
Records min_confirmations head log c p =
    (p.order_id ≡ c.order_id)
    × (p.child_account_id ≡ c.child_account_id)
    × (p.chain_id ≡ log.chain_id)
    × (p.token_address ≡ log.token_address)
    × (p.tx_hash ≡ log.tx_hash)
    × (p.log_index ≡ log.log_index)
    × (p.from_address ≡ log.from_address)
    × (p.to_address ≡ log.to_address)
    × (p.amount_raw ≡ log.amount_raw)
    × (p.block_number ≡ log.block_number)
    × (p.block_hash ≡ log.block_hash)
    × (p.block_time ≡ log.block_timestamp)
    × ((p.match_status ≡ on_time)
        ↔ ((c.window_from_block.number ≤ log.block_number) × (log.block_timestamp ≤ c.expires_at)))
    × ((p.match_status ≡ late) ↔ (
        (c.window_from_block.number ≤ log.block_number)
        × (c.expires_at < log.block_timestamp)
        × (log.block_timestamp ≤ c.monitor_until)))
    × ((p.chain_status ≡ confirmed) ↔ (
        has_confirmations (record { number = log.block_number; hash = log.block_hash }) head
          min_confirmations
        ≡ true))

module _ (new_v4 : ℕ → Uuid) (stream : StreamId) (min_confirmations : ℕ) (head : ChainBlockRef)
    (cs : List PaymentWindowCandidate) (log : StoredTransferLog) (lists : Lists) where
  input-Records :
      (id : Uuid) (c : PaymentWindowCandidate)
      → Records min_confirmations head log c (matched_payment_input id log c head min_confirmations)
  unfolding matched_payment_input match_status match_status_at is_within_monitor_window chain_status
      has_confirmations confirmations_against
  input-Records id c = (
    refl,
    refl,
    refl,
    refl,
    refl,
    refl,
    refl,
    refl,
    refl,
    refl,
    refl,
    refl,
    ground arith,
    ground arith,
    ground arith,
  )

  -- A log adds one payment behind the ones there are and rejects nothing, if it was not removed and
  -- there is a candidate that is the only one of its stream and recipient into whose window it falls,
  -- or the only one of its stream and recipient at all where it falls into no window. The payment has a
  -- fresh identifier, is for the candidate's order and account, and repeats the transfer of the log. It
  -- is on time from the first block of the window on until the candidate expires, late from then on
  -- until the monitored time ends, and confirmed when its block has the confirmations required.
  pub match_log-Pays :
      (c : PaymentWindowCandidate)
      → Pays stream cs log c
      → (p : MatchedPaymentInput) × (match_log new_v4 stream min_confirmations head
            (group_candidates_by_address cs)
            log
            lists
          ≡ (lists.0 ++ p ∷ [], lists.1))
        × (p.id ≡ new_v4 (length lists.0))
        × Records min_confirmations head log c p
  unfolding matched_payment_input
  match_log-Pays c h =
      let o : outcome stream cs log ≡ paid c = (outcome_paid_iff stream cs log c).1 h in
      let id = new_v4 (length lists.0) in
      (
        matched_payment_input id log c head min_confirmations,
        match_log_lem new_v4 stream min_confirmations head cs log lists ∙ rw o refl,
        refl,
        input-Records id c,
      )

  by_unpaid :
      (o : Outcome)
      → ((c : PaymentWindowCandidate) → ¬ (o ≡ paid c))
      → (by_outcome new_v4 stream min_confirmations head cs log o lists).0 ≡ lists.0
  by_unpaid ignored h = refl
  by_unpaid (refused reason) h = refl
  by_unpaid (paid c) h = absurd (h c refl)

  -- A log that was removed, or for which no candidate is alone of its stream and recipient, by its window or at all, adds no payment.
  pub match_log_unpaid :
      ((c : PaymentWindowCandidate) → ¬ Pays stream cs log c)
      → (match_log new_v4 stream min_confirmations head
          (group_candidates_by_address cs)
          log
          lists).0
        ≡ lists.0
  match_log_unpaid h =
      ap (λ l. l.0) (match_log_lem new_v4 stream min_confirmations head cs log lists)
      ∙ by_unpaid (outcome stream cs log) (λ c e. h c ((outcome_paid_iff stream cs log c).0 e))
