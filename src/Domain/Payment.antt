-- ===== src/Domain/Payment.antt =====
-- src/domain/payment.rs: what counts of a payment for its order.
use pay.Common.{Bool, true, false, ◌&&◌, not}
use pay.Domain.Amount.{RawAmount}

pub data PaymentMatchStatus : Type 0 where
  on_time late outside_window : PaymentMatchStatus

pub data PaymentChainStatus : Type 0 where
  observed confirmed orphaned : PaymentChainStatus

pub record PaymentFact : Type 0 where
  pub amount : RawAmount
  pub match_status : PaymentMatchStatus
  pub chain_status : PaymentChainStatus

-- `==` on the statuses, as the code uses it
abbrev pub is_on_time : PaymentMatchStatus → Bool
is_on_time on_time = true
is_on_time _ = false

abbrev pub is_confirmed : PaymentChainStatus → Bool
is_confirmed confirmed = true
is_confirmed _ = false

abbrev pub is_orphaned : PaymentChainStatus → Bool
is_orphaned orphaned = true
is_orphaned _ = false

unfoldable pub is_confirmed_on_time : PaymentFact → Bool
is_confirmed_on_time p = is_on_time p.match_status && is_confirmed p.chain_status

unfoldable pub is_non_orphaned_on_time : PaymentFact → Bool
is_non_orphaned_on_time p = is_on_time p.match_status && not (is_orphaned p.chain_status)
