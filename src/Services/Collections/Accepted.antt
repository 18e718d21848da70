-- ===== src/Services/Collections/Accepted.antt =====
-- What the service signs as a replacement, the repository accepts as one.
use pay.Services.Collections.Bump.{replacement_fees_lem}
use pay.Common.{
  ℕ, ◌≡◌, refl, sym, ap, ◌∙◌, subst, true, not, Result, ok, >>=-eq-ok, ok_or, fail_if, arith, ◌==◌,
}
use pay.Common.Uint.{U256, Text}
use pay.Common.Strings.{is_empty, trim}
use pay.Domain.Amount.{RawAmount}
use pay.Domain.Collection.{CollectionFees}
use pay.Db.Types.{CollectionRecord, OutboundTxRecord, OutboundTxPurpose, collect}
use pay.Db.Outbound.{Schema}
use pay.Db.Inserts.{ensure_replaceable, ensure_replacement_invariants}
use pay.Services.Collections.Fees.{
  CollectionJob, SignedTx, ensure_signed_tx_matches_job, raw_amount_to_u64, signed_tx_invariant,
  collection_not_found, repository, other, invalid_argument, bump_collection_fees,
}
use pay.Services.Collections.Replace.{
  Host, Signed, Payer, ReceiptCheckableOutboundTx, sign_replacement, replacement_fees,
  replaceable_amount, signed_for, payer_of, wrapped, is_broadcast, gas_check, replacement_row,
  current_collection_fees, previous_fees, sign_job,
}

only_collect : (p : OutboundTxPurpose) → p ≡ collect
only_collect collect = refl

-- a transaction that matches its job
abbrev pub Matches : CollectionJob → SignedTx → Payer → ℕ → Type 0
Matches job tx payer nonce =
    (tx.chain_id ≡ job.collection.chain_id)
    × (tx.nonce ≡ nonce)
    × (tx.from ≡ payer.address)
    × (tx.to ≡ job.collection.token_address)

pub tx_inj : {E : Type 0} {a b : SignedTx} → ◌≡◌ {A = Result SignedTx E} (ok a) (ok b) → a ≡ b
tx_inj h = cc

pub signed_eq : {E : Type 0} {a b : Signed} → ◌≡◌ {A = Result Signed E} (ok a) (ok b) → a ≡ b
signed_eq h = cc

module _ {E : Type 0} where
  pub u64_inv : (a : RawAmount) {n : ℕ} → raw_amount_to_u64 {E = E} a ≡ ok n → n ≡ a
  unfolding raw_amount_to_u64
  u64_inv a h = ground (arith, h)

  pub Matches-inv :
      (job : CollectionJob) (tx : SignedTx) (payer : Payer) (nonce : ℕ)
      → ensure_signed_tx_matches_job {E = E} job tx payer.address nonce ≡ ok tt
      → Matches job tx payer nonce
  unfolding ensure_signed_tx_matches_job
  Matches-inv job tx payer nonce h = ground (arith, h)

  module _ (u : U256) (schema : Schema) (host : Host E) where
    pub replaceable_inv :
        (c : CollectionRecord) (t : OutboundTxRecord) {amount : RawAmount}
        → replaceable_amount u schema host c t ≡ ok amount
        → is_broadcast t.status ≡ true
    replaceable_inv c t h = ground (arith, h)

    pub signed_inv :
        (job : CollectionJob) (payer : Payer) (nonce : ℕ) (amount : RawAmount)
        (fees : CollectionFees) {tx : SignedTx}
        → signed_for u schema host job payer nonce amount fees ≡ ok tx
        → Matches job tx payer nonce
    signed_inv job payer nonce amount fees {tx} h =
        let (_, _, k1) =
          >>=-eq-ok
            (wrapped other
              (host.ensure_prefunded_gas (gas_check u schema host job.collection payer fees)))
            _ h in
        let (_, _, k2) = >>=-eq-ok (wrapped other host.health_check) _ k1 in
        let (calldata, _, k3) = >>=-eq-ok (host.build_collection_calldata job amount) _ k2 in
        let (signed, _, k4) =
          >>=-eq-ok (wrapped other (host.sign_transaction payer nonce fees calldata)) _ k3 in
        let (_, matched, k5) =
          >>=-eq-ok (ensure_signed_tx_matches_job job signed payer.address nonce) _ k4 in
        subst (λ x. Matches job x payer nonce) (tx_inj k5)
          (Matches-inv job signed payer nonce matched)

    pub payer_inv :
        (c : CollectionRecord) (t : OutboundTxRecord) (amount : RawAmount) (payer : Payer)
        (nonce : ℕ) {fees : CollectionFees}
        → replacement_fees u schema host c t amount payer.address nonce ≡ ok fees
        → t.from_address ≡ payer.address
    payer_inv c t amount payer nonce h =
        let k0 = sym ((replacement_fees_lem u schema host c t amount payer.address nonce).0) ∙ h in
        let (current, _, k1) = >>=-eq-ok (current_collection_fees u schema host) _ k0 in
        let (bumped, _, k2) = >>=-eq-ok (bump_collection_fees u (previous_fees t)) _ k1 in
        let (_, same, _) =
          >>=-eq-ok (fail_if (not (t.from_address == payer.address)) signed_tx_invariant) _ k2 in
        ground (arith, same)

-- what is said of a replacement `s` of the transaction `t`
abbrev pub IsAccepted : OutboundTxRecord → Signed → Type 0
IsAccepted t s =
    (s.signed_tx.nonce ≡ t.nonce)
    × (s.signed_tx.from ≡ t.from_address)
    × (s.signed_tx.to ≡ s.collection.token_address)
    × (ensure_replaceable t ≡ ok tt)
    × (ensure_replacement_invariants t s.row ≡ ok tt)

module _ {E : Type 0} (u : U256) (schema : Schema) (host : Host E) where
  -- what the service puts together
  abbrev pub put_together :
      CollectionJob → OutboundTxRecord → Payer → CollectionFees → SignedTx → Text → Signed
  put_together j t payer fees tx reason = record {
    collection = j.collection;
    row = replacement_row u schema host j.collection t payer fees tx reason;
    signed_tx = tx;
  }

  together-IsAccepted :
      (j : CollectionJob) (t : OutboundTxRecord) (payer : Payer) (fees : CollectionFees)
      (tx : SignedTx) (reason : Text) (nonce : ℕ)
      → is_broadcast t.status ≡ true
      → nonce ≡ t.nonce
      → t.from_address ≡ payer.address
      → Matches j tx payer nonce
      → j.collection.chain_id ≡ t.chain_id
      → j.collection.to_address ≡ t.to_address
      → IsAccepted t (put_together j t payer fees tx reason)
  unfolding ensure_replaceable ensure_replacement_invariants
  together-IsAccepted j t payer fees tx reason nonce status n own (_, m, f, to) chain dest = (
    m ∙ n,
    f ∙ sym own,
    to,
    ground (arith, status),
    ground (arith, chain, dest, own, only_collect t.purpose),
  )

  sign_job-IsAccepted :
      (j : CollectionJob) (t : OutboundTxRecord) (reason : Text) (s : Signed)
      → sign_job u schema host j t reason ≡ ok s
      → s.collection.chain_id ≡ t.chain_id
      → s.collection.to_address ≡ t.to_address
      → IsAccepted t s
  unfolding sign_job
  sign_job-IsAccepted j t reason s h chain to =
      let payer = payer_of host.relayer j in
      let (amount, ea, k5) = >>=-eq-ok (replaceable_amount u schema host j.collection t) _ h in
      let (nonce, en, k6) = >>=-eq-ok (raw_amount_to_u64 t.nonce) _ k5 in
      let (fees, ef, k7) =
        >>=-eq-ok (replacement_fees u schema host j.collection t amount payer.address nonce) _ k6 in
      let (tx, et, k8) = >>=-eq-ok (signed_for u schema host j payer nonce amount fees) _ k7 in
      let done : put_together j t payer fees tx reason ≡ s = signed_eq k8 in
      let same_collection : j.collection ≡ s.collection = ap (λ (z : Signed). z.collection) done in
      subst (IsAccepted t) done (
        together-IsAccepted j t payer fees tx reason nonce
          (replaceable_inv u schema host j.collection t ea) (u64_inv t.nonce en)
          (payer_inv u schema host j.collection t amount payer nonce ef)
          (signed_inv u schema host j payer nonce amount fees et)
          (ap (λ (c : CollectionRecord). c.chain_id) same_collection ∙ chain)
          (ap (λ (c : CollectionRecord). c.to_address) same_collection ∙ to))

  -- A replacement that was signed pays for the same transfer: it has the nonce and the payer of the
  -- transaction that it replaces, and goes to the token. The repository accepts its row as a
  -- replacement, provided that the collection and the transaction agree on chain and destination,
  -- as the trigger of the database demands.
  pub sign_replacement-IsAccepted :
      (worker_id : Text) (job : ReceiptCheckableOutboundTx) (reason : Text) (s : Signed)
      → sign_replacement u schema host worker_id job reason ≡ ok s
      → s.collection.chain_id ≡ job.outbound.chain_id
      → s.collection.to_address ≡ job.outbound.to_address
      → IsAccepted job.outbound s
  unfolding sign_replacement
  sign_replacement-IsAccepted worker_id job reason s h chain to =
      let (_, _, k1) = >>=-eq-ok (fail_if (is_empty (trim worker_id)) invalid_argument) _ h in
      let (_, _, k2) = >>=-eq-ok (fail_if (is_empty (trim reason)) invalid_argument) _ k1 in
      let (found, _, k3) =
        >>=-eq-ok (wrapped repository (host.collection_job job.collection_id)) _ k2 in
      let (j, _, k4) = >>=-eq-ok (ok_or found (collection_not_found job.collection_id)) _ k3 in
      sign_job-IsAccepted j job.outbound (trim reason) s k4 chain to
