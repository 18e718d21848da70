-- ===== src/Domain/Order/Status.antt =====
-- What the status of an order says of its payments, in whatever order they are listed.
use mathlib.Core.List.{Permᴰ}
use pay.Common.{
  ◌≤◌, ◌<◌, ◌≡◌, refl, ◌∙◌, ◌↔◌, Bool, true, false, List, [], ◌∷◌, Result, ok, err, arith, lt→ltb,
  ◌++◌,
}
use pay.Common.Uint.{U256, u256_end}
use pay.Domain.Amount.{RawAmount}
use pay.Domain.Payment.{PaymentFact, orphaned, is_confirmed_on_time, is_non_orphaned_on_time}
use pay.Domain.Order.{
  OrderStatus, pending, partial, confirming, paid, expired, OrderStatusError, OrderStatusDecision,
  status_of, recompute_order_status,
}
use pay.Domain.Order.Totals.{
  sum_of, confirmed_sum, non_orphaned_sum, recompute_order_status_lem, confirmed_sum-le,
}

-- the meaning of each status, over the exact sums
abbrev pub Means : OrderStatus → RawAmount → Bool → List PaymentFact → Type 0
Means paid required is_expired ps = required ≤ confirmed_sum ps
Means confirming required is_expired ps =
    (confirmed_sum ps < required) × (required ≤ non_orphaned_sum ps)
Means partial required is_expired ps =
    (non_orphaned_sum ps < required) × (0 < non_orphaned_sum ps) × (is_expired ≡ false)
Means expired required is_expired ps = (non_orphaned_sum ps < required) × (is_expired ≡ true)
Means pending required is_expired ps =
    (non_orphaned_sum ps < required) × (non_orphaned_sum ps ≡ 0) × (is_expired ≡ false)

status_of-Means :
    (required : RawAmount) (is_expired : Bool) (ps : List PaymentFact) (s : OrderStatus)
    → confirmed_sum ps ≤ non_orphaned_sum ps
    → (status_of required is_expired (confirmed_sum ps) (non_orphaned_sum ps) ≡ s)
      ↔ Means s required is_expired ps
unfolding status_of
status_of-Means required is_expired ps paid le = ground arith
status_of-Means required is_expired ps _ le = ground arith

-- the status of a decision, and that it was reached
abbrev pub DecidedAs : Result OrderStatusDecision OrderStatusError → OrderStatus → Type 0
DecidedAs (ok d) s = d.status ≡ s
DecidedAs (err _) s = ⊥

module _ (u : U256) where
  -- For payments whose sum fits 256 bits, each status is decided in exactly the case that it names:
  -- paid and confirming by the confirmed and the not orphaned sum on time, whether or not the order
  -- has expired; the other three by the expiry and by whether anything was paid.
  pub recompute_order_status-Means :
      (required : RawAmount) (ps : List PaymentFact) (is_expired : Bool) (s : OrderStatus)
      → non_orphaned_sum ps < u256_end
      → DecidedAs (recompute_order_status u required ps is_expired) s
        ↔ Means s required is_expired ps
  recompute_order_status-Means required ps is_expired s fits =
      rw
        (
          recompute_order_status_lem u required ps is_expired,
          lt→ltb (non_orphaned_sum ps) u256_end fits,
        )
        (status_of-Means required is_expired ps s (confirmed_sum-le ps))

sum_of-permᴰ :
    (test : PaymentFact → Bool) {ps qs : List PaymentFact}
    → Permᴰ ps qs
    → sum_of test ps ≡ sum_of test qs
sum_of-permᴰ test Permᴰ.nil = refl
sum_of-permᴰ test (Permᴰ.cons {a = a} e h) = rw (← e) (omega (arith, sum_of-permᴰ test h))
sum_of-permᴰ test (Permᴰ.swap e e') = rw (e, e') (omega arith)
sum_of-permᴰ test (Permᴰ.trans h k) = sum_of-permᴰ test h ∙ sum_of-permᴰ test k

module _ (u : U256) where
  -- The decision does not depend on the order in which the payments are read.
  pub recompute_order_status-perm :
      (required : RawAmount) (is_expired : Bool) {ps qs : List PaymentFact}
      → Permᴰ ps qs
      → recompute_order_status u required ps is_expired
        ≡ recompute_order_status u required qs is_expired
  recompute_order_status-perm required is_expired {ps} {qs} h =
      rw
        (
          recompute_order_status_lem u required ps is_expired,
          recompute_order_status_lem u required qs is_expired,
          sum_of-permᴰ is_confirmed_on_time h,
          sum_of-permᴰ is_non_orphaned_on_time h,
        )
        refl

-- a payment as a reorganisation of the chain leaves it
pub orphan : PaymentFact → PaymentFact
orphan p = record p { chain_status = orphaned }

orphan-sum :
    (ps qs : List PaymentFact) (p : PaymentFact)
    → non_orphaned_sum (ps ++ orphan p ∷ qs) ≡ non_orphaned_sum (ps ++ qs)
unfolding orphan is_non_orphaned_on_time
orphan-sum [] qs p = ground arith
orphan-sum (x ∷ ps) qs p = ground (arith, orphan-sum ps qs p)

orphan-confirmed :
    (ps qs : List PaymentFact) (p : PaymentFact)
    → confirmed_sum (ps ++ orphan p ∷ qs) ≡ confirmed_sum (ps ++ qs)
unfolding orphan is_confirmed_on_time
orphan-confirmed [] qs p = ground arith
orphan-confirmed (x ∷ ps) qs p = ground (arith, orphan-confirmed ps qs p)

module _ (u : U256) where
  -- A payment that is orphaned counts no more: the decision is the one without it.
  pub recompute_order_status-orphan :
      (required : RawAmount) (is_expired : Bool) (ps qs : List PaymentFact) (p : PaymentFact)
      → recompute_order_status u required (ps ++ orphan p ∷ qs) is_expired
        ≡ recompute_order_status u required (ps ++ qs) is_expired
  recompute_order_status-orphan required is_expired ps qs p =
      rw
        (
          recompute_order_status_lem u required (ps ++ orphan p ∷ qs) is_expired,
          recompute_order_status_lem u required (ps ++ qs) is_expired,
          orphan-sum ps qs p,
          orphan-confirmed ps qs p,
        )
        refl
