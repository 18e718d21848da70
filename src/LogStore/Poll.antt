-- ===== src/LogStore/Poll.antt =====
-- src/transfer_log_store/mod.rs: the operations on the store. Each takes the store and the time, and
-- an operation that fails leaves the store as it was.
use pay.Common.{
  ℕ, zero, suc, ◌+◌, ◌-◌, Bool, true, false, Option, none, some, [], Result, ok, err, ◌>>=◌, ◌>>◌,
  ok_or, ltb, ◌==◌, if◌then◌else◌, max,
}
use pay.Common.Maps.{get, insert, nat_ord}
use pay.Domain.Chain.{BlockHash}
use pay.Ledger.{StreamId, OffsetDateTime}
use pay.LogStore.Config.{
  TransferLogStreamConfig, TransferLogTypeError, TransferLogCursor, stream_ord, stream_id,
  TransferLogStreamConfigIdentityConflict, identity_conflict, validate_page_limits, initial,
  saturating_sub, cursor_scan_lag,
}
use pay.LogStore.State.{
  StoredBlockHeader, StreamState, StreamData, StoreState, apply_rewind, apply_retention_cleanup,
  commit_range,
}
use pay.LogStore.Source.{
  Source, TransferLogStoreError, stream_not_found, stream_config_conflict, type_error, ask,
  resolve_target,
}
use pay.LogStore.Fetch.{fetch_logs_with_adaptive_range, headers_for_batch}

pub data PollOutcome : Type 0 where
  idle : TransferLogCursor → PollOutcome
  advanced : StreamId → ℕ → ℕ → ℕ → TransferLogCursor → PollOutcome
  rewound : StreamId → ℕ → TransferLogCursor → PollOutcome

abbrev pub Done : Type 0 → Type 0
Done A = Result (A × StoreState) TransferLogStoreError

-- `streams.get(&stream).ok_or(StreamNotFound)`
abbrev pub find : StoreState → StreamId → Result StreamData TransferLogStoreError
find store stream = ok_or (get stream store) (stream_not_found stream)

abbrev typed : Result (Unit {0}) TransferLogTypeError → Result (Unit {0}) TransferLogStoreError
typed (ok a) = ok a
typed (err e) = err (type_error e)

abbrev pub new_stream : TransferLogStreamConfig → OffsetDateTime → StreamData
new_stream config now =
    let cursor = initial config 1 now in
    record {
      config = config;
      state = record {
        stream = stream_id config;
        config = config;
        cursor = cursor;
        created_at = now;
        updated_at = now;
      };
      cursor = cursor;
      headers = [];
      logs = [];
      range_manifests = [];
    }

-- `existing.config = config; existing.state.updated_at = now`
abbrev pub reconfigured : TransferLogStreamConfig → OffsetDateTime → StreamData → StreamData
reconfigured config now existing = record existing {
  config = config;
  state = record existing.state { updated_at = now };
}

-- the two returns of `ensure_stream` for a stream that exists
abbrev pub update_stream :
    TransferLogStreamConfig
    → OffsetDateTime
    → StoreState
    → StreamData
    → Option TransferLogStreamConfigIdentityConflict
    → Done StreamState
update_stream config now store existing (some conflict) = err (
    stream_config_conflict conflict.stream conflict.existing_start_block
      conflict.requested_start_block)
update_stream config now store existing none =
    let updated = reconfigured config now existing in
    ok (updated.state, insert (stream_id config) updated store)

abbrev pub ensure_found :
    TransferLogStreamConfig → OffsetDateTime → StoreState → Option StreamData → Done StreamState
ensure_found config now store (some existing) =
    update_stream config now store existing (identity_conflict config existing.config)
ensure_found config now store none =
    let created = new_stream config now in
    ok (created.state, insert (stream_id config) created store)

unfoldable pub ensure_stream :
    TransferLogStreamConfig → OffsetDateTime → StoreState → Done StreamState
ensure_stream config now store = do
  typed (validate_page_limits config)
  ensure_found config now store (get (stream_id config) store)

unfoldable pub rewind_to : StreamId → ℕ → OffsetDateTime → StoreState → Done (Unit {0})
rewind_to stream block now store = do
  d ← find store stream
  ok (tt, insert stream (apply_rewind d (max block d.config.start_block) now) store)

-- the two cases of `get_mut`
abbrev pub prune_found : StreamId → ℕ → OffsetDateTime → StoreState → Option StreamData → StoreState
prune_found stream floor_block now store none = store
prune_found stream floor_block now store (some d) =
    insert stream (apply_retention_cleanup d floor_block now) store

unfoldable pub prune_before_block : StreamId → ℕ → OffsetDateTime → StoreState → StoreState
prune_before_block stream floor_block now store =
    prune_found stream floor_block now store (get stream store)

unfoldable pub lag_blocks : Source → StreamId → StoreState → Result ℕ TransferLogStoreError
lag_blocks source stream store = do
  d ← find store stream
  target ← resolve_target source d.config
  ok (cursor_scan_lag d.cursor target)

-- `stored_hash != Some(current.hash)`, turned round
abbrev pub agrees : Option StoredBlockHeader → BlockHash → Bool
agrees none hash = false
agrees (some header) hash = header.block_hash == hash

module _ (source : Source) (stream : StreamId) (d : StreamData) where
  -- the loop over `reorg_floor..=last_completed_block`, of which `n` numbers are left; `last` when all
  -- agree
  unfoldable pub first_diverged : ℕ → ℕ → ℕ → Result ℕ TransferLogStoreError
  first_diverged last number zero = ok last
  first_diverged last number (suc n) = do
    current ← ask (source.block_by_number number)
    elim (agrees (get number d.headers) current.hash) [
      | true ↦ first_diverged last (number + 1) n
      | false ↦ ok number
    ]

  abbrev pub reorg_floor : ℕ → ℕ
  reorg_floor last =
      max (saturating_sub last (saturating_sub d.config.reorg_lookback_blocks 1))
        d.config.start_block

  -- `detect_reorg`, up to the block that it rewinds to
  unfoldable pub rewind_point :
      Option ℕ → Option BlockHash → Result (Option ℕ) TransferLogStoreError
  rewind_point none hash = ok none
  rewind_point (some last) none = ok none
  rewind_point (some last) (some hash) = do
    current ← ask (source.block_by_number last)
    if current.hash == hash then ok none else do
      let floor = reorg_floor last
      diverged ← first_diverged last floor (last + 1 - floor)
      ok (some diverged)

  -- the rest of `poll_once` behind `resolve_target`
  unfoldable pub advance_to :
      OffsetDateTime → ℕ → Result (PollOutcome × StreamData) TransferLogStoreError
  advance_to now target = do
    let from_block = d.cursor.next_block
    fetched ← fetch_logs_with_adaptive_range source d.config from_block target
    headers ← headers_for_batch source d.config fetched.1 from_block fetched.0
    let (next, count) = commit_range now from_block fetched.0 fetched.1 headers d
    ok (advanced stream from_block fetched.0 count next.cursor, next)

  -- the part of `poll_once` behind `detect_reorg`
  unfoldable pub advance : OffsetDateTime → Result (PollOutcome × StreamData) TransferLogStoreError
  advance now = do
    target ← resolve_target source d.config
    if ltb target d.cursor.next_block then ok (idle d.cursor, d) else advance_to now target

  abbrev pub rewind_or_advance :
      OffsetDateTime → Option ℕ → Result (PollOutcome × StreamData) TransferLogStoreError
  rewind_or_advance now (some diverged) =
      let next = apply_rewind d diverged now in ok (rewound stream diverged next.cursor, next)
  rewind_or_advance now none = advance now

  -- `poll_once` on the data of its stream
  unfoldable pub poll_stream :
      OffsetDateTime → Result (PollOutcome × StreamData) TransferLogStoreError
  poll_stream now = do
    point ← rewind_point d.cursor.last_completed_block d.cursor.last_completed_hash
    rewind_or_advance now point

unfoldable pub poll_once : Source → StreamId → OffsetDateTime → StoreState → Done PollOutcome
poll_once source stream now store = do
  d ← find store stream
  polled ← poll_stream source stream d now
  ok (polled.0, insert stream polled.1 store)
