-- ===== src/Services/Collections/Bump.antt =====
-- The fees of a replacement pass every check that they meet on their way.
use pay.Domain.Address.{EvmAddress}
use pay.Db.Outbound.{Schema}
use pay.Db.Types.{CollectionRecord, OutboundTxRecord}
use pay.Domain.Collection.Replacement.{assert_replacement_allowed_iff}
use pay.Services.Collections.Replace.{
  Host, replacement_fees, current_collection_fees, max_fees, previous_fees, plan_of, wrapped,
}
use pay.Common.{
  ◌+◌, ◌/◌, ◌≡◌, ok, >>=-eq-ok, ok_or-ok, arith, ◌==◌, if◌then◌else◌, max, ◌>>◌, not, fail_if,
  ◌>>=◌, err, ◌≤◌, refl, Result, ℕ, sym, subst, ◌∙◌,
}
use pay.Common.Uint.{U256}
use pay.Domain.Amount.{RawAmount}
use pay.Domain.Collection.{CollectionFees, assert_replacement_allowed}
use pay.Services.Collections.Fees.{
  bump_raw_amount, bump_collection_fees, signed_tx_invariant, collection_fees_from_estimate,
  Eip1559FeeEstimate, CollectionServiceError, chain,
}

module _ {E : Type 0} (u : U256) where
  -- A fee is raised by a tenth, and by one at least.
  bump_raw_amount_lem :
      (a : RawAmount) {b : RawAmount} → bump_raw_amount {E = E} u a ≡ ok b → b ≡ a + max 1 (a / 10)
  unfolding bump_raw_amount
  bump_raw_amount_lem a {b} h =
      let bump = if a / 10 == 0 then 1 else a / 10 in
      let added = ok_or-ok (u.checked_add a bump) signed_tx_invariant h in
      ground (arith, added, u.checked_add_lem a bump)

  bump_fees_gas :
      (fees : CollectionFees) {bumped : CollectionFees}
      → bump_collection_fees {E = E} u fees ≡ ok bumped
      → bumped.gas_limit ≡ fees.gas_limit
  unfolding bump_collection_fees
  bump_fees_gas fees h =
      let (m, em, k) = >>=-eq-ok (bump_raw_amount u fees.max_fee_per_gas) _ h in
      let (p, ep, k') = >>=-eq-ok (bump_raw_amount u fees.max_priority_fee_per_gas) _ k in
      ground (arith, k')

  bump_fees_lem :
      (fees : CollectionFees) {bumped : CollectionFees}
      → bump_collection_fees {E = E} u fees ≡ ok bumped
      → (bumped.max_fee_per_gas ≡ fees.max_fee_per_gas + max 1 (fees.max_fee_per_gas / 10))
        × (bumped.max_priority_fee_per_gas
            ≡ fees.max_priority_fee_per_gas + max 1 (fees.max_priority_fee_per_gas / 10))
  unfolding bump_collection_fees
  bump_fees_lem fees h =
      let (m, em, k) = >>=-eq-ok (bump_raw_amount u fees.max_fee_per_gas) _ h in
      let (p, ep, k') = >>=-eq-ok (bump_raw_amount u fees.max_priority_fee_per_gas) _ k in
      let lm = bump_raw_amount_lem fees.max_fee_per_gas em in
      let lp = bump_raw_amount_lem fees.max_priority_fee_per_gas ep in ground (arith, lm, lp, k')

-- a transaction that the database and the node accept pays no more priority fee than its whole fee
abbrev pub AreOrdered : CollectionFees → Type 0
AreOrdered fees = fees.max_priority_fee_per_gas ≤ fees.max_fee_per_gas

estimate-AreOrdered :
    (configured : CollectionFees) (estimate : Eip1559FeeEstimate)
    → AreOrdered (collection_fees_from_estimate configured estimate)
unfolding collection_fees_from_estimate
estimate-AreOrdered configured estimate = omega arith

fees_inj :
    {E : Type 0} {a b : CollectionFees} → ◌≡◌ {A = Result CollectionFees E} (ok a) (ok b) → a ≡ b
fees_inj h = cc

-- what the replacement of a transaction pays, against what the transaction pays
pub record Raises (old new : CollectionFees) : Type 0 where
  pub gas_kept : old.gas_limit ≤ new.gas_limit
  pub max_fee_raised : old.max_fee_per_gas + max 1 (old.max_fee_per_gas / 10) ≤ new.max_fee_per_gas
  pub priority_fee_raised :
      old.max_priority_fee_per_gas + max 1 (old.max_priority_fee_per_gas / 10)
      ≤ new.max_priority_fee_per_gas

module _ {E : Type 0} (u : U256) (schema : Schema) (host : Host E) where
  -- `replacement_fees` without the check on the plans
  abbrev pub unchecked_fees :
      OutboundTxRecord → EvmAddress → Result CollectionFees (CollectionServiceError E)
  unchecked_fees t payer = do
    current ← current_collection_fees u schema host
    bumped ← bump_collection_fees u (previous_fees t)
    fail_if (not (t.from_address == payer)) signed_tx_invariant
    ok (max_fees current bumped)

  module _ (c : CollectionRecord) (t : OutboundTxRecord) (amount : RawAmount) (payer : EvmAddress)
      (nonce : ℕ) where
    plans_allowed :
        (current : CollectionFees) {bumped : CollectionFees}
        → bump_collection_fees {E = E} u (previous_fees t) ≡ ok bumped
        → assert_replacement_allowed
            (plan_of c nonce payer amount (previous_fees t))
            (plan_of c nonce payer amount (max_fees current bumped))
          ≡ ok tt
    plans_allowed current {bumped} h =
        let (m, p) = bump_fees_lem u (previous_fees t) h in
        (assert_replacement_allowed_iff (plan_of c nonce payer amount (previous_fees t))
            (plan_of c nonce payer amount (max_fees current bumped))).1
          (record {
            same_payment = refl;
            max_fee_raised = omega (arith, m);
            priority_fee_raised = omega (arith, p);
          })

    checked :
        (first second : Result CollectionFees (CollectionServiceError E))
        → bump_collection_fees u (previous_fees t) ≡ second
        → (first >>= λ current. second >>= λ bumped.
            fail_if (not (t.from_address == payer)) signed_tx_invariant
            >> (wrapped
                  (λ _. signed_tx_invariant)
                  (assert_replacement_allowed
                    (plan_of c nonce payer amount (previous_fees t))
                    (plan_of c nonce payer amount (max_fees current bumped)))
                >> ok (max_fees current bumped)))
          ≡ (first >>= λ current. second >>= λ bumped.
              fail_if (not (t.from_address == payer)) signed_tx_invariant
              >> ok (max_fees current bumped))
    checked (err e) second h = refl
    checked (ok current) (err e) h = refl
    checked (ok current) (ok bumped) h = rw (plans_allowed current h) refl

    replacement_fees_unchecked :
        replacement_fees u schema host c t amount payer nonce ≡ unchecked_fees t payer
    unfolding replacement_fees
    replacement_fees_unchecked =
        checked (current_collection_fees u schema host) (bump_collection_fees u (previous_fees t))
          refl

  -- The fees of a replacement that were computed meet the limits of the nodes and of the database: each
  -- is raised by a tenth and by one at least, the limit of gas does not fall, and the priority fee stays
  -- within the whole fee. The check on the plans, which is made with them, never fails.
  pub replacement_fees_lem :
      (c : CollectionRecord) (t : OutboundTxRecord) (amount : RawAmount) (payer : EvmAddress)
      (nonce : ℕ)
      → (replacement_fees u schema host c t amount payer nonce ≡ unchecked_fees t payer)
        × ((fees : CollectionFees)
            → replacement_fees u schema host c t amount payer nonce ≡ ok fees
            → Raises (previous_fees t) fees × (AreOrdered (previous_fees t) → AreOrdered fees))
  replacement_fees_lem c t amount payer nonce = (
    replacement_fees_unchecked c t amount payer nonce,
    λ fees h.
        let k0 = sym (replacement_fees_unchecked c t amount payer nonce) ∙ h in
        let (current, ec, k) = >>=-eq-ok (current_collection_fees u schema host) _ k0 in
        let (bumped, eb, k') = >>=-eq-ok (bump_collection_fees u (previous_fees t)) _ k in
        let (_, _, k'') =
          >>=-eq-ok (fail_if (not (t.from_address == payer)) signed_tx_invariant) _ k' in
        let (estimate, _, e) = >>=-eq-ok (wrapped chain host.estimate_eip1559_fees) _ ec in
        let (m, p) = bump_fees_lem u (previous_fees t) eb in
        let ordered : AreOrdered current =
          subst AreOrdered (fees_inj e) (estimate-AreOrdered host.fees estimate) in
        let gas = bump_fees_gas u (previous_fees t) eb in
        subst (λ f. Raises (previous_fees t) f × (AreOrdered (previous_fees t) → AreOrdered f))
          (fees_inj k'')
          (
            record {
              gas_kept = omega (arith, gas);
              max_fee_raised = omega (arith, m);
              priority_fee_raised = omega (arith, p);
            },
            λ o. omega (arith, m, p, o, ordered),
          ),
  )
