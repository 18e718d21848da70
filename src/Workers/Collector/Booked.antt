-- ===== src/Workers/Collector/Booked.antt =====
-- When the worker books a sweep as confirmed, and what it does to the tables.
use pay.Common.{
  ◌≡◌, ◌≢◌, refl, Bool, true, false, not, Option, none, some, Result, ok, err, arith, Bool-cases,
  inl, inr, ◌==◌, ==_iff, if◌then◌else◌,
}
use pay.Domain.Chain.{ChainBlockRef, has_confirmations}
use pay.Ledger.{Uuid, ChainBlock, TxHash}
use pay.LogStore.Source.{ChainError}
use pay.Db.Types.{OutboundTxRecord, RepositoryError}
use pay.Db.Outbound.{Tables, mark_confirmed}
use pay.Services.Collections.Replace.{Prepared, ReceiptCheckableOutboundTx}
use pay.Services.Collections.Fees.{CollectionServiceError}
use pay.Workers.Collector.{
  TransactionStatus, success, reverted, TxReceipt, CollectionCollectorConfig,
  CollectionCollectorTickOutcome, confirmed, CollectionCollectorError, BroadcastableOutboundTx, Ran,
  Parts, booked, sent, broadcast_outbound, canonical, deep_and_canonical,
  receipt_block_confirmed_and_canonical, pending, send_prepared, book_success, book_receipt,
  on_receipt, check_outbound_receipt, broadcast, failed, outbound_replacement_due,
}

outcome_of :
    {E : Type 0} {a b : CollectionCollectorTickOutcome} {s s' : Tables}
    → ◌≡◌ {A = Result CollectionCollectorTickOutcome E × Tables} (ok a, s) (ok b, s')
    → a ≡ b
outcome_of h = cc

never_err :
    {E : Type 0} {x : E} {b : CollectionCollectorTickOutcome} {s s' : Tables}
    → ◌≢◌ {A = Result CollectionCollectorTickOutcome E × Tables} (err x, s) (ok b, s')
never_err h = cc

ok_false : {E : Type 0} → ◌≡◌ {A = Result Bool E} (ok false) (ok true) → ⊥
ok_false h = cc

module _ {E : Type 0} (parts : Parts E) (config : CollectionCollectorConfig) where
  -- the block of a receipt is deep enough under the head, and the chain has it
  abbrev pub IsSettled : ChainBlockRef → Type 0
  IsSettled receipt_block =
      (head : ChainBlockRef) × (b : ChainBlock) × (parts.latest_head ≡ ok head)
      × (has_confirmations receipt_block head config.min_confirmations ≡ true)
      × (parts.block_by_number receipt_block.number ≡ ok b)
      × (b.hash ≡ receipt_block.hash)

  canonical_inv :
      (receipt_block : ChainBlockRef) (r : Result ChainBlock ChainError)
      → canonical parts config receipt_block r ≡ ok true
      → (b : ChainBlock) × (r ≡ ok b) × (b.hash ≡ receipt_block.hash)
  canonical_inv receipt_block (err e) h = cc
  canonical_inv receipt_block (ok b) h = (b, refl, ground (arith, h))

  pub IsSettled-inv :
      (receipt_block : ChainBlockRef) (head : Result ChainBlockRef ChainError)
      → parts.latest_head ≡ head
      → deep_and_canonical parts config receipt_block head ≡ ok true
      → IsSettled receipt_block
  IsSettled-inv receipt_block (err e) l h = cc
  IsSettled-inv receipt_block (ok head) l h =
      elim (Bool-cases (has_confirmations receipt_block head config.min_confirmations)) [
        | inl y ↦
            let (b, e, same) =
              canonical_inv receipt_block (parts.block_by_number receipt_block.number)
                (rw y at h) in
            (head, b, l, y, e, same)
        | inr n ↦ absurd (ok_false (rw n at h))
      ]

  -- what sends a transaction books none as confirmed
  abbrev NeverConfirms : Ran E CollectionCollectorTickOutcome → Type 0
  NeverConfirms ran =
      (i : Uuid) (t : OutboundTxRecord) (after : Tables) → ran ≢ (ok (confirmed i t), after)

  either-NeverConfirms :
      (b : Bool) (x y : Ran E CollectionCollectorTickOutcome)
      → NeverConfirms x
      → NeverConfirms y
      → NeverConfirms (if b then x else y)
  either-NeverConfirms true x y h k = h
  either-NeverConfirms false x y h k = k

  booked-NeverConfirms :
      (outcome : OutboundTxRecord → CollectionCollectorTickOutcome) (tables : Tables)
      (r : Result (OutboundTxRecord × Tables) RepositoryError)
      → ((u : OutboundTxRecord) (i : Uuid) (t : OutboundTxRecord) → outcome u ≢ confirmed i t)
      → NeverConfirms (booked parts config outcome tables r)
  booked-NeverConfirms outcome tables (err e) never i t after = cc
  booked-NeverConfirms outcome tables (ok (u, s)) never i t after = λ h. never u i t (outcome_of h)

  sent-NeverConfirms :
      (job : BroadcastableOutboundTx) (tables : Tables) (r : Result TxHash ChainError)
      → NeverConfirms (sent parts config job tables r)
  sent-NeverConfirms job tables (err e) i t after = cc
  sent-NeverConfirms job tables (ok hash) i t after =
      either-NeverConfirms (not (hash == job.outbound.tx_hash)) _ _ (λ i t after. cc)
        (booked-NeverConfirms (broadcast job.collection_id) tables _ (λ u i t. cc)) i t after

  prepared-NeverConfirms :
      (job : ReceiptCheckableOutboundTx) (tables : Tables)
      (r : Result (Option Prepared) (CollectionServiceError E)) (tables' : Tables)
      → NeverConfirms (send_prepared parts config (pending parts config job tables) (r, tables'))
  unfolding broadcast_outbound
  prepared-NeverConfirms job tables (err e) tables' i t after = cc
  prepared-NeverConfirms job tables (ok none) tables' i t after = cc
  prepared-NeverConfirms job tables (ok (some p)) tables' i t after =
      sent-NeverConfirms (record { collection_id = p.collection.id; outbound = p.outbound }) tables'
        (parts.broadcast_signed_tx p.outbound.signed_tx) i t after

  -- a booking as confirmed, with all that has to hold for it
  abbrev pub IsBooking : ReceiptCheckableOutboundTx → Tables → OutboundTxRecord → Tables → Type 0
  IsBooking job tables t after =
      (receipt : TxReceipt) × (parts.transaction_receipt job.outbound.tx_hash ≡ ok (some receipt))
      × (receipt.tx_hash ≡ job.outbound.tx_hash)
      × (receipt.status ≡ success)
      × IsSettled receipt.block
      × (mark_confirmed parts.now job.outbound.id receipt.block tables ≡ ok (t, after))

  booked_inv :
      (i : Uuid) (tables : Tables) (r : Result (OutboundTxRecord × Tables) RepositoryError)
      {j : Uuid} {t : OutboundTxRecord} {after : Tables}
      → booked parts config (confirmed i) tables r ≡ (ok (confirmed j t), after)
      → r ≡ ok (t, after)
  booked_inv i tables (err e) h = cc
  booked_inv i tables (ok (u, s)) h = ground (arith, h)

  success_inv :
      (job : ReceiptCheckableOutboundTx) (receipt : TxReceipt) (tables : Tables)
      (r : Result Bool (CollectionCollectorError E)) {i : Uuid} {t : OutboundTxRecord}
      {after : Tables}
      → book_success parts config job receipt tables r ≡ (ok (confirmed i t), after)
      → (r ≡ ok true)
        × (mark_confirmed parts.now job.outbound.id receipt.block tables ≡ ok (t, after))
  success_inv job receipt tables (err e) h = cc
  success_inv job receipt tables (ok false) h = cc
  success_inv job receipt tables (ok true) h = (refl, booked_inv job.collection_id tables _ h)

  receipt_inv :
      (job : ReceiptCheckableOutboundTx) (receipt : TxReceipt) (tables : Tables)
      (status : TransactionStatus) {i : Uuid} {t : OutboundTxRecord} {after : Tables}
      → book_receipt parts config job receipt tables status ≡ (ok (confirmed i t), after)
      → (status ≡ success)
        × IsSettled receipt.block
        × (mark_confirmed parts.now job.outbound.id receipt.block tables ≡ ok (t, after))
  unfolding receipt_block_confirmed_and_canonical
  receipt_inv job receipt tables reverted {i} {t} {after} h =
      absurd (booked-NeverConfirms (failed job.collection_id) tables _ (λ u i t. cc) i t after h)
  receipt_inv job receipt tables success h =
      let (settled, marked) = success_inv job receipt tables _ h in
      (refl, IsSettled-inv receipt.block parts.latest_head refl settled, marked)

  on_receipt_inv :
      (job : ReceiptCheckableOutboundTx) (tables : Tables)
      (r : Result (Option TxReceipt) ChainError) {i : Uuid} {t : OutboundTxRecord} {after : Tables}
      → parts.transaction_receipt job.outbound.tx_hash ≡ r
      → on_receipt parts config job tables r ≡ (ok (confirmed i t), after)
      → IsBooking job tables t after
  on_receipt_inv job tables (err e) l h = cc
  on_receipt_inv job tables (ok none) {i} {t} {after} l h = absurd (
      either-NeverConfirms (outbound_replacement_due parts config job.outbound) _ _
        (prepared-NeverConfirms job tables _ _) (λ i t after. cc) i t after h)
  on_receipt_inv job tables (ok (some receipt)) {i} {t} {after} l h =
      elim (Bool-cases (receipt.tx_hash == job.outbound.tx_hash)) [
        | inl y ↦
            let (status, settled, marked) =
              receipt_inv job receipt tables receipt.status (rw y at h) in
            (receipt, l, (==_iff receipt.tx_hash job.outbound.tx_hash).0 y, status, settled, marked)
        | inr n ↦ absurd (never_err (rw n at h))
      ]

  -- The worker books a sweep as confirmed only for a receipt of its own transaction that reports success,
  -- whose block has the confirmations required under the latest head, and which the chain still has.
  pub check_outbound_receipt-IsBooking :
      (job : ReceiptCheckableOutboundTx) (tables : Tables) {i : Uuid} {t : OutboundTxRecord}
      {after : Tables}
      → check_outbound_receipt parts config job tables ≡ (ok (confirmed i t), after)
      → IsBooking job tables t after
  unfolding check_outbound_receipt
  check_outbound_receipt-IsBooking job tables h =
      on_receipt_inv job tables (parts.transaction_receipt job.outbound.tx_hash) refl h
