-- ===== src/LogStore/Config.antt =====
-- src/transfer_log_store/types.rs: how a stream is read, and where the reading stands.
use pay.Common.{
  ℕ, ◌+◌, ◌-◌, ◌≡◌, ◌↔◌, Bool, true, ◌&&◌, ◌||◌, not, Option, none, some, Result, ◌>>◌, fail_if,
  ltb, ◌==◌, if◌then◌else◌, min, max, arith, false,
}
use pay.Common.Maps.{Ord}
use pay.Domain.Address.{EvmAddress}
use pay.Domain.Chain.{BlockHash, u64_end}
use pay.Ledger.{StreamId, OffsetDateTime}

-- the saturating operations of u64
abbrev pub saturating_add : ℕ → ℕ → ℕ
saturating_add a b = min (a + b) (u64_end - 1)

abbrev pub saturating_sub : ℕ → ℕ → ℕ
saturating_sub a b = a - b

-- `checked_sub(1)`
abbrev pub pred_of : ℕ → Option ℕ
pred_of n = if n == 0 then none else some (n - 1)

abbrev pub same_stream : StreamId → StreamId → Bool
same_stream a b = a.chain_id == b.chain_id && a.token_address == b.token_address

abbrev pub less_stream : StreamId → StreamId → Bool
less_stream a b =
    ltb a.chain_id b.chain_id || (a.chain_id == b.chain_id && ltb a.token_address b.token_address)

pub same_stream_iff : (a b : StreamId) → (same_stream a b ≡ true) ↔ (a ≡ b)
same_stream_iff a b = ground arith

pub less_stream_trans :
    (a b c : StreamId) → less_stream a b ≡ true → less_stream b c ≡ true → less_stream a c ≡ true
less_stream_trans a b c h k = ground arith

pub less_stream_irrefl : (a : StreamId) → less_stream a a ≡ false
less_stream_irrefl a = ground arith

pub less_stream_total :
    (a b : StreamId) → less_stream a b ≡ false → same_stream b a ≡ false → less_stream b a ≡ true
less_stream_total a b h k = ground arith

-- The streams stand in a hash map, whose order nothing depends on; here it is that of their fields.
instance abbrev pub stream_ord : Ord StreamId
stream_ord = record {
  same = same_stream;
  less = less_stream;
  same_iff = same_stream_iff;
  less_trans = less_stream_trans;
  less_irrefl = less_stream_irrefl;
  less_total = less_stream_total;
}

pub data ScanTargetMode : Type 0 where
  safe_tag finalized_tag : ScanTargetMode
  latest_minus_confirmations : ℕ → ScanTargetMode

pub data LogSourceKind : Type 0 where
  rpc_range indexer : LogSourceKind

pub record TransferLogStreamConfig : Type 0 where
  pub chain_id : ℕ
  pub token_address : EvmAddress
  pub start_block : ℕ
  pub poll_interval_ms : ℕ
  pub batch_size_blocks : ℕ
  pub max_batch_size_blocks : ℕ
  pub max_logs_per_page : ℕ
  pub max_unique_to_addresses_per_batch : ℕ
  pub max_db_fallback_addresses : ℕ
  pub capacity_probe_blocks : ℕ
  pub reorg_lookback_blocks : ℕ
  pub target_mode : ScanTargetMode
  pub rpc_max_retries : ℕ
  pub log_source : LogSourceKind
  pub sparse_headers : Bool

abbrev pub stream_id : TransferLogStreamConfig → StreamId
stream_id c = record { chain_id = c.chain_id; token_address = c.token_address }

pub record TransferLogStreamConfigIdentityConflict : Type 0 where
  pub stream : StreamId
  pub existing_start_block : ℕ
  pub requested_start_block : ℕ

unfoldable pub identity_conflict :
    TransferLogStreamConfig
    → TransferLogStreamConfig
    → Option TransferLogStreamConfigIdentityConflict
identity_conflict self existing =
    if same_stream (stream_id self) (stream_id existing)
      && not (self.start_block == existing.start_block)
    then some (record {
      stream = stream_id self;
      existing_start_block = existing.start_block;
      requested_start_block = self.start_block;
    })
    else none

-- the `field` of the error
pub data LimitField : Type 0 where
  max_logs_per_page max_unique_to_addresses_per_batch max_db_fallback_addresses : LimitField
  max_logs limit : LimitField

pub data TransferLogTypeError : Type 0 where
  zero_limit : LimitField → TransferLogTypeError

abbrev ensure_nonzero_log_limit : LimitField → ℕ → Result (Unit {0}) TransferLogTypeError
ensure_nonzero_log_limit field value = fail_if (value == 0) (zero_limit field)

unfoldable pub validate_page_limits :
    TransferLogStreamConfig → Result (Unit {0}) TransferLogTypeError
validate_page_limits c = do
  ensure_nonzero_log_limit max_logs_per_page c.max_logs_per_page
  ensure_nonzero_log_limit max_unique_to_addresses_per_batch c.max_unique_to_addresses_per_batch
  ensure_nonzero_log_limit max_db_fallback_addresses c.max_db_fallback_addresses

pub record TransferLogCursor : Type 0 where
  pub stream : StreamId
  pub start_block : ℕ
  pub next_block : ℕ
  pub last_completed_block : Option ℕ
  pub last_completed_hash : Option BlockHash
  pub target_mode : ScanTargetMode
  pub reorg_epoch : ℕ
  pub last_reorg_from : Option ℕ
  pub last_reorg_at : Option OffsetDateTime
  pub writer_epoch : ℕ
  pub updated_at : OffsetDateTime

-- `TransferLogCursor::initial`
unfoldable pub initial : TransferLogStreamConfig → ℕ → OffsetDateTime → TransferLogCursor
initial config writer_epoch now = record {
  stream = stream_id config;
  start_block = config.start_block;
  next_block = config.start_block;
  last_completed_block = none;
  last_completed_hash = none;
  target_mode = config.target_mode;
  reorg_epoch = 0;
  last_reorg_from = none;
  last_reorg_at = none;
  writer_epoch = writer_epoch;
  updated_at = now;
}

unfoldable pub record_rewind : TransferLogCursor → ℕ → ℕ → OffsetDateTime → TransferLogCursor
record_rewind self rewind_to_block writer_epoch now = record self {
  reorg_epoch = saturating_add self.reorg_epoch 1;
  last_reorg_from = some rewind_to_block;
  last_reorg_at = some now;
  next_block = rewind_to_block;
  last_completed_block = pred_of rewind_to_block;
  last_completed_hash = none;
  writer_epoch = writer_epoch;
  updated_at = now;
}

unfoldable pub effective_batch_size : TransferLogStreamConfig → ℕ
effective_batch_size config =
    let requested = max config.batch_size_blocks 1 in
    if config.max_batch_size_blocks == 0
    then requested
    else min requested config.max_batch_size_blocks

unfoldable pub cursor_scan_lag : TransferLogCursor → ℕ → ℕ
cursor_scan_lag cursor target = elim cursor.last_completed_block [
  | none ↦ saturating_sub target (saturating_sub cursor.start_block 1)
  | some completed ↦ saturating_sub target completed
]
