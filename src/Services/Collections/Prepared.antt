-- ===== src/Services/Collections/Prepared.antt =====
-- What the preparation of a job has done that the service returns.
use pay.Common.{
  ◌≡◌, refl, ◌⊎◌, inl, inr, ◌<◌, ◌≤◌, ap, subst, Bool-cases, Option, none, some, List, Result, ok,
  err, arith, >>=-eq-ok, fail_if, ◌>>=◌, ◌==◌, sym, ◌∙◌,
}
use pay.Common.Strings.{is_empty, trim}
use pay.Common.Uint.{U256, Text}
use pay.Domain.Amount.{RawAmount}
use pay.Domain.Collection.{CollectionFees}
use pay.LogStore.Source.{ChainError}
use pay.Db.Types.{
  AccountNonce, CollectionRecord, CollectionRecordStatus, NewSignedOutboundTx, RepositoryError,
  ReservedNonce,
}
use pay.Db.Accounts.{reserve_nonce}
use pay.Db.Outbound.{Tables, Schema, Outcome}
use pay.Db.Inserts.{insert_signed_collect_tx}
use pay.Services.Collections.Fees.{
  CollectionJob, CollectionServiceError, SignedTx, resolve_collection_amount, raw_amount_to_u64,
  ensure_signed_tx_matches_job, other, zero_collection_amount, amount_or_balance, repository,
}
use pay.Services.Collections.Replace.{
  Host, Payer, Prepared, payer_of, wrapped, current_collection_fees, gas_check,
}
use pay.Services.Collections.Prepare.{
  Balances, Reply, funded, sign_next, prepared_row, prepared_collection, inserted, with_signed,
  with_reserved, with_pending, with_funds, with_claim, prepare_next_collection_job,
}
use pay.Services.Collections.Accepted.{Matches, u64_inv, Matches-inv, tx_inj}
use pay.Services.Collections.Replaced.{wrapped_inv}

pair_inj :
    {E : Type 0} {a b : RawAmount × CollectionFees}
    → ◌≡◌ {A = Result (RawAmount × CollectionFees) E} (ok a) (ok b)
    → a ≡ b
pair_inj h = cc

module _ {E : Type 0} (u : U256) (schema : Schema) (host : Host E) (balances : Balances) where
  -- The amount is that of the job, or else the balance, and the balance covers it.
  abbrev pub IsCovered : CollectionRecord → RawAmount → Type 0
  IsCovered c amount =
      (balance : RawAmount) × (balances.token_balance ≡ ok balance)
      × (0 < amount)
      × (amount ≤ balance)
      × ((c.amount_raw ≡ some amount) ⊎ (c.amount_raw ≡ none) × (amount ≡ balance))

  -- the payer has the gas for the fees, and the signer is well
  abbrev pub IsFunded : CollectionJob → Payer → RawAmount → CollectionFees → Type 0
  IsFunded job payer amount fees =
      IsCovered job.collection amount
      × (host.ensure_prefunded_gas (record {
        chain_id = job.collection.chain_id;
        from_address = payer.address;
        gas_limit = fees.gas_limit;
        max_fee_per_gas = fees.max_fee_per_gas;
        max_priority_fee_per_gas = fees.max_priority_fee_per_gas;
      })
          ≡ ok tt)
      × (host.health_check ≡ ok tt)

  IsCovered-inv :
      (c : CollectionRecord) (balance : RawAmount) (o : Option RawAmount) {amount : RawAmount}
      → balances.token_balance ≡ ok balance
      → c.amount_raw ≡ o
      → amount_or_balance {E = E} c.id balance o ≡ ok amount
      → 0 < amount
      → IsCovered c amount
  IsCovered-inv c balance none {amount} eb eo h pos =
      let same : balance ≡ amount = cc in
      (balance, eb, pos, omega (arith, same), inr (eo, sym same))
  IsCovered-inv c balance (some a) {amount} eb eo h pos =
      let same : a ≡ amount = ground (arith, h) in
      (balance, eb, pos, ground (arith, h), inl (eo ∙ ap some same))

  amount_inv :
      (job : CollectionJob) (r : Result RawAmount ChainError) {amount : RawAmount}
      → balances.token_balance ≡ r
      → resolve_collection_amount {E = E} job r ≡ ok amount
      → IsCovered job.collection amount
  unfolding resolve_collection_amount
  amount_inv job (err e) eb h = cc
  amount_inv job (ok balance) {amount} eb h =
      let c = job.collection in
      let (a, ea, k) = >>=-eq-ok (amount_or_balance {E = E} c.id balance c.amount_raw) _ h in
      let (_, nonzero, k') = >>=-eq-ok (fail_if (a == 0) (zero_collection_amount c.id)) _ k in
      let same : a ≡ amount = cc in
      let pos : 0 < a = ground (arith, nonzero) in
      subst (IsCovered c) same (IsCovered-inv c balance c.amount_raw eb refl ea pos)

  funded_inv :
      (job : CollectionJob) (payer : Payer) (amount : RawAmount) (fees : CollectionFees)
      → funded u schema host balances job payer ≡ ok (amount, fees)
      → IsFunded job payer amount fees
  funded_inv job payer amount fees h =
      let (a, ea, k1) =
        >>=-eq-ok (resolve_collection_amount {E = E} job balances.token_balance) _ h in
      let (f, _, k2) = >>=-eq-ok (current_collection_fees u schema host) _ k1 in
      let gas = gas_check u schema host job.collection payer f in
      let (_, eg, k3) = >>=-eq-ok (wrapped other (host.ensure_prefunded_gas gas)) _ k2 in
      let (_, eh, k4) = >>=-eq-ok (wrapped other host.health_check) _ k3 in
      let same : (a, f) ≡ (amount, fees) = pair_inj k4 in
      subst (λ z. IsFunded job payer z.0 z.1) same
        (
          amount_inv job balances.token_balance refl ea,
          wrapped_inv other (host.ensure_prefunded_gas gas) eg,
          wrapped_inv other host.health_check eh,
        )

  next_inv :
      (job : CollectionJob) (payer : Payer) (amount : RawAmount) (fees : CollectionFees)
      (n : ReservedNonce) {tx : SignedTx}
      → sign_next u schema host balances job payer amount fees n ≡ ok tx
      → Matches job tx payer n.nonce
  next_inv job payer amount fees n {tx} h =
      let (nonce, en, k1) = >>=-eq-ok (raw_amount_to_u64 n.nonce) _ h in
      let (calldata, _, k2) = >>=-eq-ok (host.build_collection_calldata job amount) _ k1 in
      let (signed, _, k3) =
        >>=-eq-ok (wrapped other (host.sign_transaction payer nonce fees calldata)) _ k2 in
      let (_, matched, k4) =
        >>=-eq-ok (ensure_signed_tx_matches_job job signed payer.address nonce) _ k3 in
      subst (λ x. Matches job x payer n.nonce) (tx_inj k4)
        (subst (Matches job signed payer) (u64_inv n.nonce en)
          (Matches-inv job signed payer nonce matched))

  -- a row for a transaction that was signed for the payer
  abbrev pub IsRowOf : NewSignedOutboundTx → SignedTx → Payer → CollectionFees → RawAmount → Type 0
  IsRowOf row tx payer fees nonce =
      (row.nonce ≡ nonce)
      × (row.from_address ≡ payer.address)
      × (row.tx_hash ≡ tx.tx_hash)
      × (row.signed_tx ≡ tx.raw_tx)
      × (row.gas_limit ≡ fees.gas_limit)
      × (row.max_fee_per_gas ≡ fees.max_fee_per_gas)
      × (row.max_priority_fee_per_gas ≡ fees.max_priority_fee_per_gas)

  module _ (job : CollectionJob) (payer : Payer) (tables : Tables)
      (accounts : List AccountNonce) where
    -- what has been done for a claimed job that was prepared, and left the tables and nonces
    abbrev pub IsPrepared : Prepared → Tables → List AccountNonce → Type 0
    IsPrepared p after accounts' =
        (amount : RawAmount) × (fees : CollectionFees) × IsFunded job payer amount fees
        × (pending : RawAmount) × (balances.pending_nonce ≡ ok pending)
        × (n : ReservedNonce) × (reserve_nonce job.collection.chain_id payer.address pending
              accounts
            ≡ (ok n, accounts'))
        × Matches job p.signed_tx payer n.nonce
        × (row : NewSignedOutboundTx) × IsRowOf row p.signed_tx payer fees n.nonce
        × (insert_signed_collect_tx schema host.now job.collection.id row amount tables
            ≡ ok (p.outbound, after))
        × (p.collection.outbound_tx_id ≡ some p.outbound.id)
        × (p.collection.amount_raw ≡ some amount)
        × (p.collection.status ≡ CollectionRecordStatus.transferring)

    -- a claimed job is prepared, or the preparation fails
    abbrev pub Prepares : Reply E → Type 0
    Prepares (ok (some p), after, accounts') = IsPrepared p after accounts'
    Prepares (ok none, after, accounts') = ⊥
    Prepares (err e, after, accounts') = Unit {0}

    audited-Prepares :
        (p : Prepared) (after : Tables) (accounts' : List AccountNonce)
        (r : Result (Unit {0}) RepositoryError)
        → IsPrepared p after accounts'
        → Prepares ((wrapped repository r >>= λ _. ok (some p)), after, accounts')
    audited-Prepares p after accounts' (ok tt) h = h
    audited-Prepares p after accounts' (err x) h = tt

    module _ (amount : RawAmount) (fees : CollectionFees) (ready : IsFunded job payer amount fees)
        (pending : RawAmount) (asked : balances.pending_nonce ≡ ok pending) where
      inserted-Prepares :
          (n : ReservedNonce) (accounts' : List AccountNonce) (tx : SignedTx) (r : Outcome)
          → reserve_nonce job.collection.chain_id payer.address pending accounts ≡ (ok n, accounts')
          → Matches job tx payer n.nonce
          → insert_signed_collect_tx schema host.now job.collection.id
              (prepared_row u schema host balances job.collection payer fees n tx)
              amount
              tables
            ≡ r
          → Prepares (inserted u schema host balances job.collection amount tx tables accounts' r)
      inserted-Prepares n accounts' tx (err e) en m h = tt
      inserted-Prepares n accounts' tx (ok (t, after)) en m h =
          audited-Prepares
            (record {
              collection = prepared_collection u schema host balances job.collection amount t;
              outbound = t;
              signed_tx = tx;
            })
            after accounts' host.append_audit_event
            (
              amount,
              fees,
              ready,
              pending,
              asked,
              n,
              en,
              m,
              prepared_row u schema host balances job.collection payer fees n tx,
              (refl, refl, refl, refl, refl, refl, refl),
              h,
              refl,
              refl,
              refl,
            )

      signed-Prepares :
          (n : ReservedNonce) (accounts' : List AccountNonce)
          (r : Result SignedTx (CollectionServiceError E))
          → reserve_nonce job.collection.chain_id payer.address pending accounts ≡ (ok n, accounts')
          → sign_next u schema host balances job payer amount fees n ≡ r
          → Prepares (with_signed u schema host balances job payer tables amount fees n accounts' r)
      signed-Prepares n accounts' (err e) en h = tt
      signed-Prepares n accounts' (ok tx) en h =
          inserted-Prepares n accounts' tx
            (insert_signed_collect_tx schema host.now job.collection.id
              (prepared_row u schema host balances job.collection payer fees n tx) amount tables)
            en (next_inv job payer amount fees n h) refl

      reserved-Prepares :
          (r : Result ReservedNonce RepositoryError × List AccountNonce)
          → reserve_nonce job.collection.chain_id payer.address pending accounts ≡ r
          → Prepares (with_reserved u schema host balances job payer tables amount fees r)
      reserved-Prepares (err e, accounts') h = tt
      reserved-Prepares (ok n, accounts') h =
          signed-Prepares n accounts' (sign_next u schema host balances job payer amount fees n) h
            refl

    pending-Prepares :
        (amount : RawAmount) (fees : CollectionFees) (r : Result RawAmount ChainError)
        → IsFunded job payer amount fees
        → balances.pending_nonce ≡ r
        → Prepares (with_pending u schema host balances job payer tables amount fees accounts r)
    pending-Prepares amount fees (err e) ready h = tt
    pending-Prepares amount fees (ok pending) ready h =
        reserved-Prepares amount fees ready pending h
          (reserve_nonce job.collection.chain_id payer.address pending accounts) refl

    funds-Prepares :
        (r : Result (RawAmount × CollectionFees) (CollectionServiceError E))
        → funded u schema host balances job payer ≡ r
        → Prepares (with_funds u schema host balances job payer tables accounts r)
    funds-Prepares (err e) h = tt
    funds-Prepares (ok (amount, fees)) h =
        pending-Prepares amount fees balances.pending_nonce (funded_inv job payer amount fees h)
          refl

  module _ (claim_collection_job : Tables → Result (Option CollectionJob) RepositoryError × Tables)
      (tables : Tables) (accounts : List AccountNonce) where
    abbrev pub Explains : Reply E → Type 0
    Explains (ok (some p), after, accounts') =
        (job : CollectionJob) × (s : Tables) × (claim_collection_job tables ≡ (ok (some job), s))
        × IsPrepared job (payer_of host.relayer job) s accounts p after accounts'
    Explains (ok none, after, accounts') =
        (claim_collection_job tables ≡ (ok none, after)) × (accounts' ≡ accounts)
    Explains (err e, after, accounts') = Unit {0}

    claimed-Explains :
        (job : CollectionJob) (s : Tables) (r : Reply E)
        → claim_collection_job tables ≡ (ok (some job), s)
        → Prepares job (payer_of host.relayer job) s accounts r
        → Explains r
    claimed-Explains job s (ok (some p), after, accounts') c h = (job, s, c, h)
    claimed-Explains job s (ok none, after, accounts') c h = absurd h
    claimed-Explains job s (err e, after, accounts') c h = tt

    claim-Explains :
        (r : Result (Option CollectionJob) RepositoryError × Tables)
        → claim_collection_job tables ≡ r
        → Explains (with_claim u schema host balances accounts r)
    claim-Explains (err e, s) h = tt
    claim-Explains (ok none, s) h = (h, refl)
    claim-Explains (ok (some job), s) h =
        let payer = payer_of host.relayer job in
        claimed-Explains job s
          (with_funds u schema host balances job payer s accounts
            (funded u schema host balances job payer))
          h (funds-Prepares job payer s accounts (funded u schema host balances job payer) refl)

    -- A job that the service returns as prepared was claimed. Its amount is not zero, is the one that was
    -- asked for or else the balance, and the balance covers it; the payer has the gas for the fees and
    -- the signer is well. A nonce was reserved for the payer from the pending one on, the signer signed
    -- for the job's chain and token, that payer and that nonce, and the row with that transaction, the
    -- fees and the amount was attached to the collection, which the service returns as transferring.
    -- There is no job only where the claim gave none, and then no nonce was reserved.
    pub prepare_next_collection_job-Explains :
        (worker_id : Text)
        → Explains (
            prepare_next_collection_job u schema host balances claim_collection_job worker_id tables
              accounts)
    unfolding prepare_next_collection_job
    prepare_next_collection_job-Explains worker_id = elim (Bool-cases (is_empty (trim worker_id))) [
      | inl e ↦ rw e tt
      | inr e ↦ rw e (claim-Explains (claim_collection_job tables) refl)
    ]
