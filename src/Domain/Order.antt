-- ===== src/Domain/Order.antt =====
-- src/domain/order.rs: the status of an order, computed anew from its payments.
pub mod Totals
pub mod Status
use pay.Common.{
  Bool, true, false, ◌&&◌, not, List, [], ◌∷◌, Result, ok, err, ◌>>=◌, ok_or, leb, ◌==◌,
  if◌then◌else◌,
}
use pay.Common.Uint.{U256}
use pay.Domain.Amount.{RawAmount, checked_add}
use pay.Domain.Payment.{PaymentFact, is_confirmed_on_time, is_non_orphaned_on_time}

pub data OrderStatus : Type 0 where
  pending partial confirming paid expired : OrderStatus

pub data OrderStatusError : Type 0 where
  amount_overflow : OrderStatusError

pub record OrderStatusDecision : Type 0 where
  pub status : OrderStatus
  pub confirmed_on_time_total : RawAmount
  pub non_orphaned_on_time_total : RawAmount

-- the `if` ladder over both totals
pub status_of : RawAmount → Bool → RawAmount → RawAmount → OrderStatus
status_of required_amount is_expired confirmed_total non_orphaned_total =
    if leb required_amount confirmed_total
    then paid
    else if leb required_amount non_orphaned_total
    then confirming
    else if not (non_orphaned_total == 0) && not is_expired
    then partial
    else if is_expired
    then expired
    else pending

module _ (u : U256) where
  -- one total behind one payment
  add_if : Bool → RawAmount → RawAmount → Result RawAmount OrderStatusError
  add_if counts total amount =
      if counts then ok_or (checked_add u total amount) amount_overflow else ok total

  -- the `for` loop, over both totals
  add_payments :
      RawAmount → RawAmount → List PaymentFact → Result (RawAmount × RawAmount) OrderStatusError
  add_payments confirmed_total non_orphaned_total [] = ok (confirmed_total, non_orphaned_total)
  add_payments confirmed_total non_orphaned_total (p ∷ ps) = do
    c ← add_if (is_confirmed_on_time p) confirmed_total p.amount
    n ← add_if (is_non_orphaned_on_time p) non_orphaned_total p.amount
    add_payments c n ps

  pub recompute_order_status :
      RawAmount → List PaymentFact → Bool → Result OrderStatusDecision OrderStatusError
  recompute_order_status required_amount payments is_expired = do
    totals ← add_payments 0 0 payments
    ok (record {
      status = status_of required_amount is_expired totals.0 totals.1;
      confirmed_on_time_total = totals.0;
      non_orphaned_on_time_total = totals.1;
    })
