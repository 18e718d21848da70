-- ===== src/Domain/Collection/Replacement.antt =====
-- What a replacement may change, and how often a transaction can be replaced.
use pay.Common.{◌+◌, ◌≤◌, ◌<◌, ◌≡◌, refl, ◌↔◌, List, [], ◌∷◌, ok, arith, length, true}
use pay.Domain.Collection.{
  CollectionTxPlan, assert_replacement_allowed, CollectionPurpose, treasury_sweep, same_purpose,
}

-- one and the same payment, with both fees raised
pub record Replaces (old new : CollectionTxPlan) : Type 0 where
  pub same_payment : new ≡ record old { fees = new.fees }
  pub max_fee_raised : old.fees.max_fee_per_gas < new.fees.max_fee_per_gas
  pub priority_fee_raised : old.fees.max_priority_fee_per_gas < new.fees.max_priority_fee_per_gas

purpose_unique : (p q : CollectionPurpose) → p ≡ q
purpose_unique treasury_sweep treasury_sweep = refl

same_purpose_self : (p : CollectionPurpose) → same_purpose p p ≡ true
same_purpose_self treasury_sweep = refl

allowed :
    (old new : CollectionTxPlan)
    → new ≡ record old { fees = new.fees }
    → old.fees.max_fee_per_gas < new.fees.max_fee_per_gas
    → old.fees.max_priority_fee_per_gas < new.fees.max_priority_fee_per_gas
    → assert_replacement_allowed old new ≡ ok tt
unfolding assert_replacement_allowed
allowed old new e m p =
    ground (arith, same_purpose_self old.purpose, purpose_unique old.purpose new.purpose)

-- A replacement is allowed exactly when it changes nothing but the fees, and raises both.
pub assert_replacement_allowed_iff :
    (old new : CollectionTxPlan) → (assert_replacement_allowed old new ≡ ok tt) ↔ Replaces old new
unfolding assert_replacement_allowed
assert_replacement_allowed_iff old new = (
  λ h. ground (arith, purpose_unique old.purpose new.purpose),
  λ h. allowed old new h.same_payment h.max_fee_raised h.priority_fee_raised,
)

-- plans of which each was allowed to replace the one before it, and the last of them
abbrev pub AreReplacements : CollectionTxPlan → List CollectionTxPlan → Type 0
AreReplacements old [] = Unit {0}
AreReplacements old (new ∷ rest) =
    (assert_replacement_allowed old new ≡ ok tt) × AreReplacements new rest

abbrev pub last_plan : CollectionTxPlan → List CollectionTxPlan → CollectionTxPlan
last_plan old [] = old
last_plan old (new ∷ rest) = last_plan new rest

-- However often a transaction is replaced, it stays the same payment, and each replacement costs one
-- more unit of both fees at least.
pub replacements_lem :
    (old : CollectionTxPlan) (plans : List CollectionTxPlan)
    → AreReplacements old plans
    → let new = last_plan old plans in
      (new ≡ record old { fees = new.fees })
      × (old.fees.max_fee_per_gas + length plans ≤ new.fees.max_fee_per_gas)
      × (old.fees.max_priority_fee_per_gas + length plans ≤ new.fees.max_priority_fee_per_gas)
replacements_lem old [] h = (refl, omega arith, omega arith)
replacements_lem old (new ∷ rest) (h, hs) =
    let r = (assert_replacement_allowed_iff old new).0 h in
    let (same, max_fee, priority_fee) = replacements_lem new rest hs in
    (
      cc (same, r.same_payment),
      omega (arith, r.max_fee_raised),
      omega (arith, r.priority_fee_raised),
    )
