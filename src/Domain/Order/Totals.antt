-- ===== src/Domain/Order/Totals.antt =====
-- The totals of `recompute_order_status` against plain sums over the payments.
use pay.Common.{ℕ, ◌+◌, ◌≤◌, ◌<◌, ◌≡◌, Bool, List, [], ◌∷◌, ok, err, ltb, if◌then◌else◌, arith}
use pay.Common.Uint.{U256, u256_end}
use pay.Domain.Amount.{RawAmount, checked_add}
use pay.Domain.Payment.{PaymentFact, is_confirmed_on_time, is_non_orphaned_on_time}
use pay.Domain.Order.{amount_overflow, status_of, add_if, add_payments, recompute_order_status}

-- the sum of the amounts of those payments that a test picks
abbrev pub sum_of : (PaymentFact → Bool) → List PaymentFact → ℕ
sum_of test [] = 0
sum_of test (p ∷ ps) = (if test p then p.amount else 0) + sum_of test ps

abbrev pub confirmed_sum : List PaymentFact → ℕ
confirmed_sum = sum_of is_confirmed_on_time

abbrev pub non_orphaned_sum : List PaymentFact → ℕ
non_orphaned_sum = sum_of is_non_orphaned_on_time

counted_le :
    (p : PaymentFact)
    → (if is_confirmed_on_time p then p.amount else 0)
      ≤ (if is_non_orphaned_on_time p then p.amount else 0)
unfolding is_confirmed_on_time is_non_orphaned_on_time
counted_le p = ground arith

-- A confirmed payment is not orphaned.
pub confirmed_sum-le : (ps : List PaymentFact) → confirmed_sum ps ≤ non_orphaned_sum ps
unfolding is_confirmed_on_time is_non_orphaned_on_time
confirmed_sum-le [] = omega arith
confirmed_sum-le (p ∷ ps) = ground (arith, confirmed_sum-le ps)

module _ (u : U256) where
  add_if_lem :
      (counts : Bool) (total amount : ℕ)
      → total < u256_end
      → let t = total + (if counts then amount else 0) in
        add_if u counts total amount ≡ (if ltb t u256_end then ok t else err amount_overflow)
  unfolding add_if checked_add
  add_if_lem counts total amount h = ground (arith, u.checked_add_lem total amount)

  add_payments_lem :
      (c n : ℕ) (ps : List PaymentFact)
      → c ≤ n
      → n < u256_end
      → add_payments u c n ps ≡ (
          if ltb (n + non_orphaned_sum ps) u256_end
          then ok (c + confirmed_sum ps, n + non_orphaned_sum ps)
          else err amount_overflow)
  unfolding add_payments
  add_payments_lem c n [] le lt = ground arith
  add_payments_lem c n (p ∷ ps) le lt =
      let x = if is_confirmed_on_time p then p.amount else 0 in
      let y = if is_non_orphaned_on_time p then p.amount else 0 in
      ground (
        arith,
        counted_le p,
        add_if_lem (is_confirmed_on_time p) c p.amount,
        add_if_lem (is_non_orphaned_on_time p) n p.amount,
        add_payments_lem (c + x) (n + y) ps,
      )

  -- The decision is the status for the exact sums; an overflow is reported exactly when the sum of
  -- the payments on time that are not orphaned does not fit 256 bits.
  pub recompute_order_status_lem :
      (required : RawAmount) (ps : List PaymentFact) (is_expired : Bool)
      → recompute_order_status u required ps is_expired ≡ (
          if ltb (non_orphaned_sum ps) u256_end
          then ok (record {
            status = status_of required is_expired (confirmed_sum ps) (non_orphaned_sum ps);
            confirmed_on_time_total = confirmed_sum ps;
            non_orphaned_on_time_total = non_orphaned_sum ps;
          })
          else err amount_overflow)
  unfolding recompute_order_status
  recompute_order_status_lem required ps is_expired =
      rw (add_payments_lem 0 0 ps (omega arith) (omega arith)) (ground arith)
