-- ===== src/Services/Payments.antt =====
-- src/services/payments.rs: transfers on the chain are matched with the payment windows of orders.
-- The source has the matcher twice, over stored logs and over logs as the chain gives them; so have
-- the children `Stored` and `Direct`.
pub mod Stored
pub mod Direct
pub mod Outcome
pub mod Page
pub mod Agree
pub mod Status
pub mod Pays
mod Tests
use pay.Common.{
  ℕ, suc, Bool, true, false, ◌&&◌, ◌||◌, Option, none, some, List, [], ◌∷◌, ltb, leb, ◌==◌,
  if◌then◌else◌, length,
}
use pay.Common.Maps.{Map, push, insert_set, nat_ord}
use pay.Domain.Address.{EvmAddress}
use pay.Domain.Chain.{ChainBlockRef, confirmations_against}
use pay.Domain.Payment.{
  PaymentMatchStatus, PaymentChainStatus, on_time, late, outside_window, observed, confirmed,
}
use pay.Ledger.{
  StreamId, TransferLog, StoredTransferLog, LogPageToken, PaymentWindowCandidate,
  MatchedPaymentInput, TxHash, Uuid, OffsetDateTime,
}

pub record PaymentMatchingConfig : Type 0 where
  pub stream : StreamId
  pub min_confirmations : ℕ
  pub page_limit : ℕ
  pub max_unique_to_addresses_per_batch : ℕ

pub data PaymentRejectionReason : Type 0 where
  removed_log ambiguous_candidates : PaymentRejectionReason

pub record RejectedPaymentLog : Type 0 where
  pub tx_hash : TxHash
  pub log_index : ℕ
  pub to_address : EvmAddress
  pub reason : PaymentRejectionReason

pub record PaymentMatchPage : Type 0 where
  pub matched_payments : List MatchedPaymentInput
  pub rejected : List RejectedPaymentLog
  pub next_token : Option LogPageToken
  pub complete_to_block : Option ℕ
  pub kv_reorg_epoch : ℕ

pub record StoredPaymentMatchInput : Type 0 where
  pub logs : List StoredTransferLog
  pub candidates : List PaymentWindowCandidate
  pub head : ChainBlockRef
  pub next_token : Option LogPageToken
  pub complete_to_block : Option ℕ
  pub kv_reorg_epoch : ℕ

abbrev order_ids : List MatchedPaymentInput → List Uuid
order_ids [] = []
order_ids (p ∷ ps) = insert_set p.order_id (order_ids ps)

-- `PaymentMatchPage::recompute_order_ids`: the set of the order ids, by rising order
unfoldable recompute_order_ids : PaymentMatchPage → List Uuid
recompute_order_ids page = order_ids page.matched_payments

-- the rounds of `for candidate in candidates`
group_from :
    Map EvmAddress (List PaymentWindowCandidate)
    → List PaymentWindowCandidate
    → Map EvmAddress (List PaymentWindowCandidate)
group_from by_address [] = by_address
group_from by_address (c ∷ cs) = group_from (push c.receive_address c by_address) cs

pub group_candidates_by_address :
    List PaymentWindowCandidate → Map EvmAddress (List PaymentWindowCandidate)
group_candidates_by_address candidates = group_from [] candidates

abbrev unwrap_or_zero : Option ℕ → ℕ
unwrap_or_zero none = 0
unwrap_or_zero (some n) = n

unfoldable pub chain_status : ChainBlockRef → ChainBlockRef → ℕ → PaymentChainStatus × ℕ
chain_status log_block head min_confirmations =
    let confirmations = unwrap_or_zero (confirmations_against log_block head) in
    (
      if min_confirmations == 0 || leb min_confirmations confirmations then confirmed else observed,
      confirmations,
    )

-- the `match` on `eligible_candidates.len()`: the one eligible candidate, or the one candidate at all
-- when none is eligible
unfoldable pub selected :
    List PaymentWindowCandidate → List PaymentWindowCandidate → Option PaymentWindowCandidate
selected matching (c ∷ []) = some c
selected matching (_ ∷ _ ∷ _) = none
selected (c ∷ []) [] = some c
selected _ [] = none

-- `candidate_is_within_monitor_window` and `match_status` read of a log its block and its time alone.
unfoldable pub is_within_monitor_window : ℕ → OffsetDateTime → PaymentWindowCandidate → Bool
is_within_monitor_window block_number block_timestamp c =
    leb c.window_from_block.number block_number && leb block_timestamp c.monitor_until

unfoldable pub match_status_at : ℕ → OffsetDateTime → PaymentWindowCandidate → PaymentMatchStatus
unfolding is_within_monitor_window
match_status_at block_number block_timestamp c =
    if leb c.window_from_block.number block_number && leb block_timestamp c.expires_at
    then on_time
    else if is_within_monitor_window block_number block_timestamp c
    then late
    else outside_window
