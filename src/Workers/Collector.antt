-- ===== src/Workers/Collector.antt =====
-- src/workers/collector.rs: one round of the worker that sends sweeps and books their receipts.
pub mod Booked
pub mod Round
mod Tests
use pay.Common.{
  ℕ, ◌-◌, ◌*◌, ◌^◌, Bool, true, false, not, Option, none, some, Result, ok, err, leb, ◌==◌,
  if◌then◌else◌, ◌++◌,
}
use pay.Common.Uint.{Text}
use pay.Common.Strings.{codes, is_empty, trim}
use pay.Domain.Address.{Bytes, EvmAddress}
use pay.Domain.Chain.{ChainBlockRef, has_confirmations}
use pay.Ledger.{Uuid, TxHash, OffsetDateTime, ChainBlock}
use pay.LogStore.Source.{ChainError, provider_hash_mismatch}
use pay.Rpc.Texts.{decimal}
use pay.Db.Types.{OutboundTxRecord, RepositoryError}
use pay.Db.Outbound.{Tables, mark_broadcast, mark_confirmed, mark_failed}
use pay.Services.Collections.Replace.{Prepared, ReceiptCheckableOutboundTx}
use pay.Services.Collections.Fees.{CollectionServiceError}

pub data TransactionStatus : Type 0 where
  success reverted : TransactionStatus

pub record TxReceipt : Type 0 where
  pub tx_hash : TxHash
  pub block : ChainBlockRef
  pub status : TransactionStatus
  pub gas_used : Option ℕ

-- The chain and the token only go to the claims of the repository, which are among the `Parts`.
pub record CollectionCollectorConfig : Type 0 where
  pub worker_id : Text
  pub chain_id : ℕ
  pub token_address : EvmAddress
  pub replacement_stuck_after : ℕ
  pub min_confirmations : ℕ

pub data CollectionCollectorTickOutcome : Type 0 where
  no_job : CollectionCollectorTickOutcome
  broadcast receipt_pending confirmed failed :
      Uuid → OutboundTxRecord → CollectionCollectorTickOutcome

pub data CollectionCollectorError (E : Type 0) : Type 0 where
  invalid_config : CollectionCollectorError E
  broadcast_hash_mismatch receipt_hash_mismatch :
      Uuid → TxHash → TxHash → CollectionCollectorError E
  collection_service : CollectionServiceError E → CollectionCollectorError E
  repository : RepositoryError → CollectionCollectorError E
  chain : ChainError → CollectionCollectorError E

pub record BroadcastableOutboundTx : Type 0 where
  pub collection_id : Uuid
  pub outbound : OutboundTxRecord

-- What a part of the worker returns, with the tables behind it.
abbrev pub Ran : Type 0 → Type 0 → Type 0
Ran E A = Result A (CollectionCollectorError E) × Tables

-- What the node and the clock answer during one round, the claims of the repository, and the service
-- of the collections, of which `none` is its `NoJob`.
pub record Parts (E : Type 0) : Type 0 where
  pub broadcast_signed_tx : Bytes → Result TxHash ChainError
  pub transaction_receipt : TxHash → Result (Option TxReceipt) ChainError
  pub latest_head : Result ChainBlockRef ChainError
  pub block_by_number : ℕ → Result ChainBlock ChainError
  pub now : OffsetDateTime
  pub claim_signed_collect_tx_for_broadcast :
      Tables → Result (Option BroadcastableOutboundTx) RepositoryError × Tables
  pub claim_broadcast_collect_tx_for_receipt :
      Tables → Result (Option ReceiptCheckableOutboundTx) RepositoryError × Tables
  pub prepare_next_collection_job :
      Tables → Result (Option Prepared) (CollectionServiceError E) × Tables
  pub replace_stuck_collection_job :
      ReceiptCheckableOutboundTx
      → Tables
      → Result (Option Prepared) (CollectionServiceError E) × Tables

-- a duration of whole seconds, in nanoseconds
abbrev nanoseconds : ℕ → ℕ
nanoseconds seconds = seconds * 10 ^ 9

module _ {E : Type 0} (parts : Parts E) (config : CollectionCollectorConfig) where
  -- what the repository did with a transaction
  abbrev pub booked :
      (OutboundTxRecord → CollectionCollectorTickOutcome)
      → Tables
      → Result (OutboundTxRecord × Tables) RepositoryError
      → Ran E CollectionCollectorTickOutcome
  booked outcome tables (ok (t, after)) = (ok (outcome t), after)
  booked outcome tables (err e) = (err (repository e), tables)

  abbrev pub sent :
      BroadcastableOutboundTx
      → Tables
      → Result TxHash ChainError
      → Ran E CollectionCollectorTickOutcome
  sent job tables (err e) = (err (chain e), tables)
  sent job tables (ok tx_hash) =
      if not (tx_hash == job.outbound.tx_hash)
      then (err (broadcast_hash_mismatch job.outbound.id job.outbound.tx_hash tx_hash), tables)
      else booked (broadcast job.collection_id) tables
          (mark_broadcast parts.now job.outbound.id tables)

  unfoldable pub broadcast_outbound :
      BroadcastableOutboundTx → Tables → Ran E CollectionCollectorTickOutcome
  broadcast_outbound job tables = sent job tables (parts.broadcast_signed_tx job.outbound.signed_tx)

  -- the hash of the receipt's block against that of the chain
  abbrev pub canonical :
      ChainBlockRef → Result ChainBlock ChainError → Result Bool (CollectionCollectorError E)
  canonical receipt_block (err e) = err (chain e)
  canonical receipt_block (ok b) =
      if not (b.hash == receipt_block.hash)
      then err (
          chain (
            provider_hash_mismatch
              (codes "collection receipt block " ++ decimal receipt_block.number) (codes "receipt")
              receipt_block.hash (codes "canonical") b.hash))
      else ok true

  abbrev pub deep_and_canonical :
      ChainBlockRef → Result ChainBlockRef ChainError → Result Bool (CollectionCollectorError E)
  deep_and_canonical receipt_block (err e) = err (chain e)
  deep_and_canonical receipt_block (ok head) =
      if not (has_confirmations receipt_block head config.min_confirmations)
      then ok false
      else canonical receipt_block (parts.block_by_number receipt_block.number)

  unfoldable pub receipt_block_confirmed_and_canonical :
      ChainBlockRef → Result Bool (CollectionCollectorError E)
  receipt_block_confirmed_and_canonical receipt_block =
      deep_and_canonical receipt_block parts.latest_head

  -- `last_broadcast_at <= cutoff`, where no instant lies before the first
  abbrev pub is_before : OffsetDateTime → Option OffsetDateTime → Bool
  is_before cutoff none = false
  is_before cutoff (some last_broadcast_at) = leb last_broadcast_at cutoff

  unfoldable pub outbound_replacement_due : OutboundTxRecord → Bool
  outbound_replacement_due t =
      is_before (parts.now - nanoseconds config.replacement_stuck_after) t.last_broadcast_at

  abbrev pub pending : ReceiptCheckableOutboundTx → Tables → Ran E CollectionCollectorTickOutcome
  pending job tables = (ok (receipt_pending job.collection_id job.outbound), tables)

  -- a transaction that the service has signed is sent
  abbrev pub send_prepared :
      Ran E CollectionCollectorTickOutcome
      → Result (Option Prepared) (CollectionServiceError E) × Tables
      → Ran E CollectionCollectorTickOutcome
  send_prepared idle (err e, after) = (err (collection_service e), after)
  send_prepared (result, _) (ok none, after) = (result, after)
  send_prepared idle (ok (some p), after) =
      broadcast_outbound (record { collection_id = p.collection.id; outbound = p.outbound }) after

  abbrev pub book_success :
      ReceiptCheckableOutboundTx
      → TxReceipt
      → Tables
      → Result Bool (CollectionCollectorError E)
      → Ran E CollectionCollectorTickOutcome
  book_success job receipt tables (err e) = (err e, tables)
  book_success job receipt tables (ok false) = pending job tables
  book_success job receipt tables (ok true) =
      booked (confirmed job.collection_id) tables
        (mark_confirmed parts.now job.outbound.id receipt.block tables)

  abbrev pub book_receipt :
      ReceiptCheckableOutboundTx
      → TxReceipt
      → Tables
      → TransactionStatus
      → Ran E CollectionCollectorTickOutcome
  book_receipt job receipt tables success =
      book_success job receipt tables (receipt_block_confirmed_and_canonical receipt.block)
  book_receipt job receipt tables reverted =
      booked (failed job.collection_id) tables
        (mark_failed parts.now job.outbound.id (codes "collect transaction reverted") tables)

  abbrev pub on_receipt :
      ReceiptCheckableOutboundTx
      → Tables
      → Result (Option TxReceipt) ChainError
      → Ran E CollectionCollectorTickOutcome
  on_receipt job tables (err e) = (err (chain e), tables)
  on_receipt job tables (ok none) =
      if outbound_replacement_due job.outbound
      then send_prepared (pending job tables) (parts.replace_stuck_collection_job job tables)
      else pending job tables
  on_receipt job tables (ok (some receipt)) =
      if not (receipt.tx_hash == job.outbound.tx_hash)
      then (
        err (receipt_hash_mismatch job.outbound.id job.outbound.tx_hash receipt.tx_hash),
        tables,
      )
      else book_receipt job receipt tables receipt.status

  unfoldable pub check_outbound_receipt :
      ReceiptCheckableOutboundTx → Tables → Ran E CollectionCollectorTickOutcome
  check_outbound_receipt job tables =
      on_receipt job tables (parts.transaction_receipt job.outbound.tx_hash)

  abbrev pub on_receipt_claim :
      Result (Option ReceiptCheckableOutboundTx) RepositoryError × Tables
      → Ran E CollectionCollectorTickOutcome
  on_receipt_claim (err e, tables) = (err (repository e), tables)
  on_receipt_claim (ok (some job), tables) = check_outbound_receipt job tables
  on_receipt_claim (ok none, tables) =
      send_prepared (ok no_job, tables) (parts.prepare_next_collection_job tables)

  abbrev pub on_broadcast_claim :
      Result (Option BroadcastableOutboundTx) RepositoryError × Tables
      → Ran E CollectionCollectorTickOutcome
  on_broadcast_claim (err e, tables) = (err (repository e), tables)
  on_broadcast_claim (ok (some job), tables) = broadcast_outbound job tables
  on_broadcast_claim (ok none, tables) =
      on_receipt_claim (parts.claim_broadcast_collect_tx_for_receipt tables)

  unfoldable pub tick : Tables → Ran E CollectionCollectorTickOutcome
  tick tables =
      if is_empty (trim config.worker_id)
      then (err invalid_config, tables)
      else on_broadcast_claim (parts.claim_signed_collect_tx_for_broadcast tables)
