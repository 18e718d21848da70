-- ===== src/Services/Payments/Status.antt =====
-- Which candidate a log pays for, and the statuses of the payment.
use pay.Common.{
  ℕ, ◌≤◌, ◌<◌, ◌≡◌, refl, ◌↔◌, ◌⊎◌, inl, inr, Bool, true, false, List, [], ◌∷◌, filter,
  if◌then◌else◌, arith, Bool-cases,
}
use pay.Domain.Chain.{ChainBlockRef, has_confirmations}
use pay.Domain.Payment.{PaymentMatchStatus, on_time, late, outside_window, confirmed}
use pay.Ledger.{StreamId, StoredTransferLog, PaymentWindowCandidate}
use pay.Services.Payments.{removed_log, chain_status, is_within_monitor_window, match_status_at}
use pay.Services.Payments.Stored.{candidate_is_within_monitor_window, match_status}
use pay.Services.Payments.Outcome.{refused, paid, outcome_of, outcome, matching, eligible}

outcome_of_paid :
    (c : PaymentWindowCandidate) (es ms : List PaymentWindowCandidate)
    → (outcome_of es ms ≡ paid c) ↔ ((es ≡ c ∷ []) ⊎ (es ≡ []) × (ms ≡ c ∷ []))
outcome_of_paid c [] [] = ground arith
outcome_of_paid c [] (m ∷ []) = ground arith
outcome_of_paid c [] (m ∷ m' ∷ ms) = ground arith
outcome_of_paid c (e ∷ []) ms = ground arith
outcome_of_paid c (e ∷ e' ∷ es) ms = ground arith

unless_removed_paid :
    (removed : Bool) (c : PaymentWindowCandidate) (es ms : List PaymentWindowCandidate)
    → ((if removed then refused removed_log else outcome_of es ms) ≡ paid c)
      ↔ ((removed ≡ false) × ((es ≡ c ∷ []) ⊎ (es ≡ []) × (ms ≡ c ∷ [])))
unless_removed_paid true c es ms = ground arith
unless_removed_paid false c es ms =
    (λ h. (refl, (outcome_of_paid c es ms).0 h), λ h. (outcome_of_paid c es ms).1 h.1)

-- A log pays for a candidate exactly when it was not removed from the chain, and the candidate is the
-- only one of its stream and recipient into whose window it falls, or there is no such window and the
-- candidate is the only one of its stream and recipient.
pub outcome_paid_iff :
    (stream : StreamId) (cs : List PaymentWindowCandidate) (log : StoredTransferLog)
    (c : PaymentWindowCandidate)
    → (outcome stream cs log ≡ paid c) ↔ (
        (log.removed ≡ false)
        × ((eligible stream cs log ≡ c ∷ [])
            ⊎ (eligible stream cs log ≡ []) × (matching stream cs log ≡ c ∷ [])))
unfolding outcome
outcome_paid_iff stream cs log c =
    unless_removed_paid log.removed c (eligible stream cs log) (matching stream cs log)

head_passes {ℓ} :
    {A : Type ℓ} (p : A → Bool) (xs : List A) {x : A} {r : List A}
    → filter p xs ≡ x ∷ r
    → p x ≡ true
head_passes p [] h = cc
head_passes p (y ∷ ys) {x} {r} h = elim (Bool-cases (p y)) [
  | inl e ↦ let k : y ∷ filter p ys ≡ x ∷ r = rw e at h in let z : y ≡ x = cc in rw (← z) e
  | inr e ↦ head_passes p ys (rw e at h)
]

none_passes {ℓ} : {A : Type ℓ} (p : A → Bool) (x : A) → filter p (x ∷ []) ≡ [] → p x ≡ false
none_passes p x h = elim (Bool-cases (p x)) [
  | inl e ↦ let k : x ∷ [] ≡ [] = rw e at h in cc
  | inr e ↦ e
]

-- the log lies within the window until the order expires, behind that while the address is watched,
-- or outside of both
abbrev pub StatusOf : PaymentMatchStatus → StoredTransferLog → PaymentWindowCandidate → Type 0
StatusOf on_time log c =
    (c.window_from_block.number ≤ log.block_number) × (log.block_timestamp ≤ c.expires_at)
StatusOf late log c =
    (c.window_from_block.number ≤ log.block_number)
    × (c.expires_at < log.block_timestamp)
    × (log.block_timestamp ≤ c.monitor_until)
StatusOf outside_window log c =
    (log.block_number < c.window_from_block.number)
    ⊎ ((c.expires_at < log.block_timestamp) × (c.monitor_until < log.block_timestamp))

-- A payment is on time in the window until its order expires, late behind that while the address is
-- watched, and outside its window else: each status is given in exactly its case.
pub match_status_iff :
    (log : StoredTransferLog) (c : PaymentWindowCandidate) (s : PaymentMatchStatus)
    → (match_status log c ≡ s) ↔ StatusOf s log c
unfolding match_status match_status_at
match_status_iff log c on_time = ground arith
match_status_iff log c _ = ground arith

outside_of_within :
    (log : StoredTransferLog) (c : PaymentWindowCandidate)
    → c.expires_at ≤ c.monitor_until
    → (match_status log c ≡ outside_window) ↔ (candidate_is_within_monitor_window log c ≡ false)
unfolding match_status match_status_at candidate_is_within_monitor_window is_within_monitor_window
outside_of_within log c h = ground arith

-- For a candidate that is watched until it expires or longer, a payment counts as outside its window
-- exactly when the log falls into the window of no candidate.
pub outside_window_iff :
    (stream : StreamId) (cs : List PaymentWindowCandidate) (log : StoredTransferLog)
    (c : PaymentWindowCandidate)
    → c.expires_at ≤ c.monitor_until
    → outcome stream cs log ≡ paid c
    → (match_status log c ≡ outside_window) ↔ (eligible stream cs log ≡ [])
outside_window_iff stream cs log c watched h = elim ((outcome_paid_iff stream cs log c).0 h).1 [
  | inl one ↦
      let within =
        head_passes (candidate_is_within_monitor_window log) (matching stream cs log) one in
      (λ o. let out = (outside_of_within log c watched).0 o in cc, λ e. cc)
  | inr (no_window, only) ↦
      let outside = none_passes (candidate_is_within_monitor_window log) c (rw only at no_window) in
      (λ _. no_window, λ _. (outside_of_within log c watched).1 outside)
]

-- A payment is confirmed exactly when its block has the confirmations that are required.
pub chain_status_iff :
    (b head : ChainBlockRef) (required : ℕ)
    → ((chain_status b head required).0 ≡ confirmed) ↔ (has_confirmations b head required ≡ true)
unfolding chain_status has_confirmations
chain_status_iff b head required = ground arith
