-- ===== src/Workers/Collector/Round.antt =====
-- What a round of the worker has done, by what it returns.
use pay.Common.Strings.{codes, is_empty, trim}
use pay.Common.{
  ◌≡◌, refl, ◌⊎◌, inl, inr, Bool, true, false, Option, none, some, Result, ok, err, ◌==◌, ==_iff,
  Bool-cases, ◌∙◌, ap, ◌≤◌, ◌-◌, ◌*◌, arith,
}
use pay.Ledger.{TxHash, OffsetDateTime}
use pay.LogStore.Source.{ChainError}
use pay.Db.Types.{OutboundTxRecord, RepositoryError}
use pay.Db.Outbound.{Tables, mark_broadcast, mark_confirmed, mark_failed}
use pay.Services.Collections.Replace.{Prepared, ReceiptCheckableOutboundTx}
use pay.Services.Collections.Fees.{CollectionServiceError}
use pay.Workers.Collector.{
  TransactionStatus, success, reverted, TxReceipt, CollectionCollectorConfig,
  CollectionCollectorTickOutcome, confirmed, failed, broadcast, receipt_pending,
  CollectionCollectorError, BroadcastableOutboundTx, Ran, Parts, booked, sent, broadcast_outbound,
  receipt_block_confirmed_and_canonical, pending, send_prepared, book_success, book_receipt,
  on_receipt, check_outbound_receipt, on_receipt_claim, on_broadcast_claim, tick,
  outbound_replacement_due, no_job, is_before,
}
use pay.Workers.Collector.Booked.{IsBooking, IsSettled-inv}

-- the transaction that the service has signed
abbrev pub of_prepared : Prepared → BroadcastableOutboundTx
of_prepared p = record { collection_id = p.collection.id; outbound = p.outbound }

module _ {E : Type 0} (parts : Parts E) (config : CollectionCollectorConfig) (tables : Tables) where
  -- There is nothing to send, and the receipt of a job is looked at in the tables `s`.
  abbrev pub IsChecking : ReceiptCheckableOutboundTx → Tables → Type 0
  IsChecking job s =
      (s1 : Tables) × (parts.claim_signed_collect_tx_for_broadcast tables ≡ (ok none, s1))
      × (parts.claim_broadcast_collect_tx_for_receipt s1 ≡ (ok (some job), s))

  -- There is nothing to send and no receipt to look at.
  abbrev pub IsIdle : Tables → Type 0
  IsIdle s =
      (s1 : Tables) × (parts.claim_signed_collect_tx_for_broadcast tables ≡ (ok none, s1))
      × (parts.claim_broadcast_collect_tx_for_receipt s1 ≡ (ok none, s))

  -- the transaction was sent, by now at least the configured time ago
  abbrev pub IsOverdue : OutboundTxRecord → Type 0
  IsOverdue t =
      (last : OffsetDateTime) × (t.last_broadcast_at ≡ some last)
      × (last ≤ parts.now - config.replacement_stuck_after * 1000000000)

  -- A job whose receipt is missing for longer than the configured time has been replaced.
  abbrev pub IsReplaced : Prepared → Tables → Type 0
  IsReplaced p s =
      (job : ReceiptCheckableOutboundTx) × (s1 : Tables) × IsChecking job s1
      × (parts.transaction_receipt job.outbound.tx_hash ≡ ok none)
      × IsOverdue job.outbound
      × (parts.replace_stuck_collection_job job s1 ≡ (ok (some p), s))

  abbrev pub IsNext : Prepared → Tables → Type 0
  IsNext p s = (s1 : Tables) × IsIdle s1 × (parts.prepare_next_collection_job s1 ≡ (ok (some p), s))

  -- where a transaction that is sent comes from
  abbrev pub IsToSend : BroadcastableOutboundTx → Tables → Type 0
  IsToSend job s =
      (parts.claim_signed_collect_tx_for_broadcast tables ≡ (ok (some job), s))
      ⊎ (p : Prepared) × (job ≡ of_prepared p) × (IsNext p s ⊎ IsReplaced p s)

  -- the report of a revert for the transaction of the job
  abbrev pub HasReverted : ReceiptCheckableOutboundTx → Type 0
  HasReverted job =
      (receipt : TxReceipt) × (parts.transaction_receipt job.outbound.tx_hash ≡ ok (some receipt))
      × (receipt.tx_hash ≡ job.outbound.tx_hash)
      × (receipt.status ≡ reverted)

  -- what has happened in a round that returns an outcome and leaves the tables `after`
  abbrev pub Happened : CollectionCollectorTickOutcome → Tables → Type 0
  Happened no_job after =
      (s : Tables) × IsIdle s × (parts.prepare_next_collection_job s ≡ (ok none, after))
  Happened (receipt_pending i t) after =
      (job : ReceiptCheckableOutboundTx) × (s : Tables) × IsChecking job s
      × (i ≡ job.collection_id)
      × (t ≡ job.outbound)
  Happened (broadcast i t) after =
      (job : BroadcastableOutboundTx) × (s : Tables) × IsToSend job s
      × (i ≡ job.collection_id)
      × (parts.broadcast_signed_tx job.outbound.signed_tx ≡ ok job.outbound.tx_hash)
      × (mark_broadcast parts.now job.outbound.id s ≡ ok (t, after))
  Happened (confirmed i t) after =
      (job : ReceiptCheckableOutboundTx) × (s : Tables) × IsChecking job s
      × (i ≡ job.collection_id)
      × IsBooking parts config job s t after
  Happened (failed i t) after =
      (job : ReceiptCheckableOutboundTx) × (s : Tables) × IsChecking job s
      × (i ≡ job.collection_id)
      × HasReverted job
      × (mark_failed parts.now job.outbound.id (codes "collect transaction reverted") s
          ≡ ok (t, after))

  -- a round that fails has no outcome
  abbrev pub Explains : Ran E CollectionCollectorTickOutcome → Type 0
  Explains (ok outcome, after) = Happened outcome after
  Explains (err e, after) = Unit {0}

  IsOverdue-inv :
      (t : OutboundTxRecord) (o : Option OffsetDateTime)
      → t.last_broadcast_at ≡ o
      → is_before parts config (parts.now - config.replacement_stuck_after * 1000000000) o ≡ true
      → IsOverdue t
  IsOverdue-inv t none e h = cc
  IsOverdue-inv t (some last) e h = (last, e, ground (arith, h))

  booked-Explains :
      (outcome : OutboundTxRecord → CollectionCollectorTickOutcome) (s : Tables)
      (r : Result (OutboundTxRecord × Tables) RepositoryError)
      → ((t : OutboundTxRecord) (after : Tables) → r ≡ ok (t, after) → Happened (outcome t) after)
      → Explains (booked parts config outcome s r)
  booked-Explains outcome s (err e) h = tt
  booked-Explains outcome s (ok (t, after)) h = h t after refl

  sent-Explains :
      (job : BroadcastableOutboundTx) (s : Tables) (r : Result TxHash ChainError)
      → IsToSend job s
      → parts.broadcast_signed_tx job.outbound.signed_tx ≡ r
      → Explains (sent parts config job s r)
  sent-Explains job s (err e) from h = tt
  sent-Explains job s (ok hash) from h = elim (Bool-cases (hash == job.outbound.tx_hash)) [
    | inl y ↦
        let same = (==_iff hash job.outbound.tx_hash).0 y in
        rw y (
          booked-Explains (broadcast job.collection_id) s
            (mark_broadcast parts.now job.outbound.id s)
            (λ t after e. (job, s, from, refl, h ∙ ap ok same, e)))
    | inr n ↦ rw n tt
  ]

  prepared-Explains :
      (idle : Ran E CollectionCollectorTickOutcome)
      (r : Result (Option Prepared) (CollectionServiceError E) × Tables)
      → ((after : Tables) → r ≡ (ok none, after) → Explains (idle.0, after))
      → ((p : Prepared) (s : Tables) → r ≡ (ok (some p), s) → IsNext p s ⊎ IsReplaced p s)
      → Explains (send_prepared parts config idle r)
  unfolding broadcast_outbound
  prepared-Explains idle (err e, s) i h = tt
  prepared-Explains (result, s') (ok none, s) i h = i s refl
  prepared-Explains idle (ok (some p), s) i h =
      sent-Explains (of_prepared p) s (parts.broadcast_signed_tx p.outbound.signed_tx)
        (inr (p, refl, h p s refl)) refl

  module _ (job : ReceiptCheckableOutboundTx) (s : Tables) (checking : IsChecking job s) where
    success-Explains :
        (receipt : TxReceipt) (r : Result Bool (CollectionCollectorError E))
        → parts.transaction_receipt job.outbound.tx_hash ≡ ok (some receipt)
        → receipt.tx_hash ≡ job.outbound.tx_hash
        → receipt.status ≡ success
        → receipt_block_confirmed_and_canonical parts config receipt.block ≡ r
        → Explains (book_success parts config job receipt s r)
    unfolding receipt_block_confirmed_and_canonical
    success-Explains receipt (err e) l same status h = tt
    success-Explains receipt (ok false) l same status h = (job, s, checking, refl, refl)
    success-Explains receipt (ok true) l same status h =
        booked-Explains (confirmed job.collection_id) s
          (mark_confirmed parts.now job.outbound.id receipt.block s)
          (λ t after e. (
            job,
            s,
            checking,
            refl,
            (
              receipt,
              l,
              same,
              status,
              IsSettled-inv parts config receipt.block parts.latest_head refl h,
              e,
            ),
          ))

    receipt-Explains :
        (receipt : TxReceipt) (status : TransactionStatus)
        → parts.transaction_receipt job.outbound.tx_hash ≡ ok (some receipt)
        → receipt.tx_hash ≡ job.outbound.tx_hash
        → receipt.status ≡ status
        → Explains (book_receipt parts config job receipt s status)
    receipt-Explains receipt success l same e =
        success-Explains receipt (receipt_block_confirmed_and_canonical parts config receipt.block)
          l same e refl
    receipt-Explains receipt reverted l same e =
        booked-Explains (failed job.collection_id) s
          (mark_failed parts.now job.outbound.id (codes "collect transaction reverted") s)
          (λ t after m. (job, s, checking, refl, (receipt, l, same, e), m))

    on_receipt-Explains :
        (r : Result (Option TxReceipt) ChainError)
        → parts.transaction_receipt job.outbound.tx_hash ≡ r
        → Explains (on_receipt parts config job s r)
    unfolding outbound_replacement_due
    on_receipt-Explains (err e) l = tt
    on_receipt-Explains (ok none) l =
        elim (Bool-cases (outbound_replacement_due parts config job.outbound)) [
          | inl y ↦ rw y (
              prepared-Explains (pending parts config job s)
                (parts.replace_stuck_collection_job job s)
                (λ after e. (job, s, checking, refl, refl))
                (λ p s' e. inr (
                  job,
                  s,
                  checking,
                  l,
                  IsOverdue-inv job.outbound job.outbound.last_broadcast_at refl y,
                  e,
                )))
          | inr n ↦ rw n (job, s, checking, refl, refl)
        ]
    on_receipt-Explains (ok (some receipt)) l =
        elim (Bool-cases (receipt.tx_hash == job.outbound.tx_hash)) [
          | inl y ↦
              let same = (==_iff receipt.tx_hash job.outbound.tx_hash).0 y in
              rw y (receipt-Explains receipt receipt.status l same refl)
          | inr n ↦ rw n tt
        ]

  receipt_claim-Explains :
      (s1 : Tables) (r : Result (Option ReceiptCheckableOutboundTx) RepositoryError × Tables)
      → parts.claim_signed_collect_tx_for_broadcast tables ≡ (ok none, s1)
      → parts.claim_broadcast_collect_tx_for_receipt s1 ≡ r
      → Explains (on_receipt_claim parts config r)
  unfolding check_outbound_receipt
  receipt_claim-Explains s1 (err e, s) c h = tt
  receipt_claim-Explains s1 (ok (some job), s) c h =
      on_receipt-Explains job s (s1, c, h) (parts.transaction_receipt job.outbound.tx_hash) refl
  receipt_claim-Explains s1 (ok none, s) c h =
      prepared-Explains (ok no_job, s) (parts.prepare_next_collection_job s)
        (λ after e. (s, (s1, c, h), e)) (λ p s' e. inl (s, (s1, c, h), e))

  broadcast_claim-Explains :
      (r : Result (Option BroadcastableOutboundTx) RepositoryError × Tables)
      → parts.claim_signed_collect_tx_for_broadcast tables ≡ r
      → Explains (on_broadcast_claim parts config r)
  unfolding broadcast_outbound
  broadcast_claim-Explains (err e, s) h = tt
  broadcast_claim-Explains (ok (some job), s) h =
      sent-Explains job s (parts.broadcast_signed_tx job.outbound.signed_tx) (inl h) refl
  broadcast_claim-Explains (ok none, s) h =
      receipt_claim-Explains s (parts.claim_broadcast_collect_tx_for_receipt s) h refl

  -- A round of the worker that returns an outcome has done what the outcome says, on the transaction of
  -- the first claim that gave one, claims for sending before claims for receipts before new jobs. It
  -- booked a transaction as sent only if the node returned its hash; a replacement was sent only where
  -- there was no receipt and the configured time was over. It booked a sweep as confirmed only for a
  -- receipt of its own transaction that reports success, with a block of the chain that is deep enough
  -- under the head, and as failed only for a receipt of its own transaction that reports a revert.
  pub tick-Explains : Explains (tick parts config tables)
  unfolding tick
  tick-Explains = elim (Bool-cases (is_empty (trim config.worker_id))) [
    | inl e ↦ rw e tt
    | inr e ↦
        rw e (broadcast_claim-Explains (parts.claim_signed_collect_tx_for_broadcast tables) refl)
  ]
