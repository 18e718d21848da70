-- ===== src/Services/Collections/Replaced.antt =====
-- What a replacement has done that the service returns.
use pay.Common.{
  ◌≡◌, refl, ◌⊎◌, inl, inr, ◌∙◌, ap, sym, subst, some, Result, ok, err, >>=-eq-ok, ok_or, fail_if,
  arith, ◌>>=◌, ok_or-ok,
}
use pay.Common.Uint.{U256, Text}
use pay.Common.Strings.{is_empty, trim}
use pay.Domain.Amount.{RawAmount}
use pay.Db.Types.{
  CollectionRecord, CollectionRecordStatus, OutboundTxRecord, OutboundTxStatus, RepositoryError,
}
use pay.Db.Outbound.{Schema, Tables, Outcome}
use pay.Db.Inserts.{replace_signed_tx}
use pay.Services.Collections.Fees.{
  CollectionJob, CollectionServiceError, raw_amount_to_u64, collection_not_found, repository,
  invalid_argument,
}
use pay.Services.Collections.Replace.{
  Host, Signed, Prepared, ReceiptCheckableOutboundTx, sign_replacement, sign_job,
  replaceable_amount, replacement_fees, signed_for, payer_of, wrapped, stored, store_signed,
  replace_collection_job, replaced_collection,
}
use pay.Services.Collections.Accepted.{
  Matches, u64_inv, signed_inv, payer_inv, signed_eq, put_together,
}

pub wrapped_inv :
    {A E F : Type 0} (f : E → F) (r : Result A E) {a : A} → wrapped f r ≡ ok a → r ≡ ok a
wrapped_inv f (ok b) {a} h = let same : b ≡ a = cc in ap ok same
wrapped_inv f (err x) h = cc

module _ {E : Type 0} (u : U256) (schema : Schema) (host : Host E) where
  -- the guards that a transaction `t` of the job `j` has passed, and what was signed for it
  abbrev pub IsGuarded : CollectionJob → OutboundTxRecord → Signed → Type 0
  IsGuarded j t s =
      ((j.collection.status ≡ CollectionRecordStatus.transferring)
        ⊎ (j.collection.status ≡ CollectionRecordStatus.confirming))
      × (j.collection.outbound_tx_id ≡ some t.id)
      × (t.status ≡ OutboundTxStatus.broadcast)
      × (t.from_address ≡ (payer_of host.relayer j).address)
      × Matches j s.signed_tx (payer_of host.relayer j) t.nonce
      × (s.row.nonce ≡ t.nonce)
      × (s.row.from_address ≡ t.from_address)
      × (s.row.tx_hash ≡ s.signed_tx.tx_hash)
      × (s.row.signed_tx ≡ s.signed_tx.raw_tx)

  rows_inv :
      (c : CollectionRecord) (t : OutboundTxRecord) {amount : RawAmount}
      → replaceable_amount u schema host c t ≡ ok amount
      → ((c.status ≡ CollectionRecordStatus.transferring)
          ⊎ (c.status ≡ CollectionRecordStatus.confirming))
        × (c.outbound_tx_id ≡ some t.id)
        × (t.status ≡ OutboundTxStatus.broadcast)
  rows_inv c t h = ground (arith, h)

  sign_job-IsGuarded :
      (j : CollectionJob) (t : OutboundTxRecord) (reason : Text) (s : Signed)
      → sign_job u schema host j t reason ≡ ok s
      → IsGuarded j t s
  unfolding sign_job
  sign_job-IsGuarded j t reason s h =
      let payer = payer_of host.relayer j in
      let (amount, ea, k5) = >>=-eq-ok (replaceable_amount u schema host j.collection t) _ h in
      let (nonce, en, k6) = >>=-eq-ok (raw_amount_to_u64 t.nonce) _ k5 in
      let (fees, ef, k7) =
        >>=-eq-ok (replacement_fees u schema host j.collection t amount payer.address nonce) _ k6 in
      let (tx, et, k8) = >>=-eq-ok (signed_for u schema host j payer nonce amount fees) _ k7 in
      let (status, own, sent) = rows_inv j.collection t ea in
      let from = payer_inv u schema host j.collection t amount payer nonce ef in
      let matched =
        subst (Matches j tx payer) (u64_inv t.nonce en)
          (signed_inv u schema host j payer nonce amount fees et) in
      let done : put_together u schema host j t payer fees tx reason ≡ s = signed_eq k8 in
      subst (IsGuarded j t) done (status, own, sent, from, matched, refl, sym from, refl, refl)

  sign_replacement-IsGuarded :
      (worker_id : Text) (job : ReceiptCheckableOutboundTx) (reason : Text) (s : Signed)
      → sign_replacement u schema host worker_id job reason ≡ ok s
      → (j : CollectionJob) × (host.collection_job job.collection_id ≡ ok (some j))
        × IsGuarded j job.outbound s
  unfolding sign_replacement
  sign_replacement-IsGuarded worker_id job reason s h =
      let (_, _, k1) = >>=-eq-ok (fail_if (is_empty (trim worker_id)) invalid_argument) _ h in
      let (_, _, k2) = >>=-eq-ok (fail_if (is_empty (trim reason)) invalid_argument) _ k1 in
      let (found, ef, k3) =
        >>=-eq-ok (wrapped repository (host.collection_job job.collection_id)) _ k2 in
      let (j, ej, k4) = >>=-eq-ok (ok_or found (collection_not_found job.collection_id)) _ k3 in
      (
        j,
        wrapped_inv repository (host.collection_job job.collection_id) ef
            ∙ ap ok (ok_or-ok found _ ej),
        sign_job-IsGuarded j job.outbound (trim reason) s k4,
      )

  -- what a replacement has done that left the tables `after`
  abbrev pub IsReplacement : ReceiptCheckableOutboundTx → Tables → Prepared → Tables → Type 0
  IsReplacement job tables p after =
      (s : Signed) × (j : CollectionJob) × (host.collection_job job.collection_id ≡ ok (some j))
      × IsGuarded j job.outbound s
      × (p.signed_tx ≡ s.signed_tx)
      × (replace_signed_tx schema host.now job.outbound.id s.row tables ≡ ok (p.outbound, after))
      × (p.collection.outbound_tx_id ≡ some p.outbound.id)
      × (p.collection.status ≡ CollectionRecordStatus.transferring)

  -- A replacement that fails leaves the tables as they were, but for one whose audit event was refused.
  abbrev pub Explains :
      ReceiptCheckableOutboundTx
      → Tables
      → Result Prepared (CollectionServiceError E) × Tables
      → Type 0
  Explains job tables (ok p, after) = IsReplacement job tables p after
  Explains job tables (err e, after) =
      (after ≡ tables) ⊎ (x : RepositoryError) × (host.append_audit_event ≡ err x)

  audited-Explains :
      (job : ReceiptCheckableOutboundTx) (tables : Tables) (p : Prepared) (after : Tables)
      (r : Result (Unit {0}) RepositoryError)
      → host.append_audit_event ≡ r
      → IsReplacement job tables p after
      → Explains job tables ((wrapped repository r >>= λ _. ok p), after)
  audited-Explains job tables p after (ok tt) e h = h
  audited-Explains job tables p after (err x) e h = inr (x, e)

  stored-Explains :
      (job : ReceiptCheckableOutboundTx) (s : Signed) (tables : Tables) (r : Outcome)
      → replace_signed_tx schema host.now job.outbound.id s.row tables ≡ r
      → (j : CollectionJob) × (host.collection_job job.collection_id ≡ ok (some j))
        × IsGuarded j job.outbound s
      → Explains job tables (stored u schema host s tables r)
  stored-Explains job s tables (err e) h g = inl refl
  stored-Explains job s tables (ok (t, after)) h (j, found, guarded) =
      audited-Explains job tables
        (record {
          collection = replaced_collection u schema host s.collection t;
          outbound = t;
          signed_tx = s.signed_tx;
        })
        after host.append_audit_event refl (s, j, found, guarded, refl, h, refl, refl)

  signed-Explains :
      (worker_id : Text) (job : ReceiptCheckableOutboundTx) (reason : Text) (tables : Tables)
      (r : Result Signed (CollectionServiceError E))
      → sign_replacement u schema host worker_id job reason ≡ r
      → Explains job tables (store_signed u schema host job.outbound.id tables r)
  signed-Explains worker_id job reason tables (err e) h = inl refl
  signed-Explains worker_id job reason tables (ok s) h =
      stored-Explains job s tables (replace_signed_tx schema host.now job.outbound.id s.row tables)
        refl (sign_replacement-IsGuarded worker_id job reason s h)

  -- A replacement that the service returns is one of a sweep in flight, whose current transaction is the
  -- one to replace and was broadcast by the payer that pays again. What the signer signed is for the
  -- job's chain and token, from that payer and with the old nonce; a row with that transaction, nonce and
  -- payer has taken the place of the old one in the repository, and the collection returned carries it.
  -- A replacement that fails leaves the tables as they were, unless the audit event was refused.
  pub replace_collection_job-Explains :
      (worker_id : Text) (job : ReceiptCheckableOutboundTx) (reason : Text) (tables : Tables)
      → Explains job tables (replace_collection_job u schema host worker_id job reason tables)
  unfolding replace_collection_job
  replace_collection_job-Explains worker_id job reason tables =
      signed-Explains worker_id job reason tables
        (sign_replacement u schema host worker_id job reason) refl
