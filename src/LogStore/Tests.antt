-- ===== src/LogStore/Tests.antt =====
-- The store over a small chain.
use pay.LogStore.Reachable.{
  AreSound, ensured, polled, pruned, empty_store, after, Reachable-AreSound,
}
use pay.Common.Maps.Laws.{IsRising}
use pay.Common.{
  ℕ, ◌+◌, ◌<◌, ◌≤◌, ◌≡◌, refl, ◌⊎◌, inl, inr, true, false, ◌&&◌, none, some, List, [], ◌∷◌, Result,
  ok, err, arith, All, leb, if◌then◌else◌, Bool-cases, ◌*◌, ◌==◌, subst, Has,
}
use pay.Common.Maps.{values, insert, get, insert_set, retain}
use pay.Domain.Chain.{u64_end}
use pay.Ledger.{StreamId, ChainBlock, TransferLog, StoredTransferLog, LogPageToken, token_ord}
use pay.LogStore.Config.{
  TransferLogStreamConfig, latest_minus_confirmations, rpc_range, initial, effective_batch_size,
  record_rewind, validate_page_limits, ScanTargetMode, safe_tag, finalized_tag,
}
use pay.LogStore.State.{
  StreamData, stored_log, apply_rewind, by_number, commit_range, insert_headers, insert_logs,
  stored_header, StoreState,
}
use pay.LogStore.Source.{
  Source, TransferLogStoreError, resolve_target, is_within_limits, transfer_log_capacity_report,
  block_counts, message_indicates_range_or_result_limit, should_reduce_batch_on_error,
  capacity_exceeded, target_for,
}
use pay.LogStore.Fetch.{
  fetch_logs_with_adaptive_range, fetch_loop, headers_for_batch, fill_headers, blocks_of_logs,
  range_to,
}
use pay.LogStore.Fetch.Range.{fetch_sound, fetch_total, IsFetched, AcceptsRange}
use pay.LogStore.Poll.{
  PollOutcome, idle, new_stream, poll_stream, rewind_point, advance, advance_to, first_diverged,
  ensure_stream, poll_once, prune_before_block,
}
use pay.LogStore.Pages.{page_of, page_logs, complete_to_block, first_behind, any_behind}
use pay.LogStore.Paging.{Logs, walk_pages, walk_pages_lem, IsKeyed}
use pay.LogStore.Complete.{page_complete, IsHandedOut, WasPassed}
use pay.LogStore.Reorg.{rewind_point_lem, AgreesBetween, Compares}
use pay.LogStore.Invariant.{IsSound, new_stream-IsSound}
use pay.LogStore.Polled.{IsHonest, poll_stream-IsSound}

abbrev stream : StreamId
stream = record { chain_id = 1; token_address = 9 }

abbrev config : TransferLogStreamConfig
config = record {
  chain_id = 1;
  token_address = 9;
  start_block = 3;
  poll_interval_ms = 1000;
  batch_size_blocks = 4;
  max_batch_size_blocks = 0;
  max_logs_per_page = 10;
  max_unique_to_addresses_per_batch = 10;
  max_db_fallback_addresses = 10;
  capacity_probe_blocks = 10;
  reorg_lookback_blocks = 2;
  target_mode = latest_minus_confirmations 1;
  rpc_max_retries = 3;
  log_source = rpc_range;
  sparse_headers = false;
}

abbrev block : ℕ → ChainBlock
block n = record { number = n; hash = n + 100; parent_hash = n + 99; timestamp = n * 10 }

abbrev transfer : ℕ → ℕ → TransferLog
transfer n index = record {
  chain_id = 1;
  token_address = 9;
  block = block n;
  tx_hash = 1000 + n;
  log_index = index;
  from_address = 3;
  to_address = 20;
  amount_raw = 50;
}

-- two transfers, both in block 5
abbrev node : Source
node = record {
  latest_head = ok (record { number = 9; hash = 109 });
  safe_head = ok (record { number = 8; hash = 108 });
  finalized_head = ok (record { number = 7; hash = 107 });
  block_by_number = λ n. ok (block n);
  transfer_logs = λ range. ok (
      if leb range.from_block 5 && leb 5 range.to_block
      then transfer 5 0 ∷ transfer 5 1 ∷ []
      else []);
}

answered :
    (lo hi : ℕ)
    → All
        (λ l. (lo ≤ l.block.number) × (l.block.number ≤ hi))
        (if leb lo 5 && leb 5 hi then transfer 5 0 ∷ transfer 5 1 ∷ [] else [])
answered lo hi = elim (Bool-cases (leb lo 5 && leb 5 hi)) [
  | inl y ↦ let both : (lo ≤ 5) × (5 ≤ hi) = ground arith in rw y (both, (both, tt))
  | inr n ↦ rw n tt
]

node-IsHonest : IsHonest node
node-IsHonest = (
  λ n b e. let eq : block n ≡ b = cc in rw (← eq) refl,
  λ range logs e.
      let eq : (if leb range.from_block 5 && leb 5 range.to_block
            then transfer 5 0 ∷ transfer 5 1 ∷ []
            else [])
          ≡ logs =
        cc in
      subst (All (λ l. (range.from_block ≤ l.block.number) × (l.block.number ≤ range.to_block))) eq
        (answered range.from_block range.to_block),
)

abbrev empty : StreamData
empty = new_stream config 0

abbrev Polled : Type 0
Polled = Result (PollOutcome × StreamData) TransferLogStoreError

abbrev data_of : Polled → StreamData
data_of (ok (_, d)) = d
data_of (err _) = empty

abbrev outcome_of : Polled → PollOutcome
outcome_of (ok (o, _)) = o
outcome_of (err _) = idle empty.cursor

abbrev first_poll : Polled
first_poll = poll_stream node stream empty 500

first_polled : first_poll ≡ ok (outcome_of first_poll, data_of first_poll)
unfolding poll_stream rewind_point initial advance resolve_target advance_to
    fetch_logs_with_adaptive_range fetch_loop effective_batch_size is_within_limits
    transfer_log_capacity_report block_counts insert get headers_for_batch fill_headers
    blocks_of_logs insert_set retain record_rewind first_diverged
    message_indicates_range_or_result_limit should_reduce_batch_on_error apply_rewind by_number
    commit_range insert_headers insert_logs stored_header stored_log
first_polled = refl

advances : (data_of first_poll).cursor.next_block ≡ 7
unfolding poll_stream rewind_point initial advance resolve_target advance_to
    fetch_logs_with_adaptive_range fetch_loop effective_batch_size is_within_limits
    transfer_log_capacity_report block_counts insert get headers_for_batch fill_headers
    blocks_of_logs insert_set retain record_rewind first_diverged
    message_indicates_range_or_result_limit should_reduce_batch_on_error apply_rewind by_number
    commit_range insert_headers insert_logs stored_header stored_log
advances = refl

head_bound : (t : ℕ) → resolve_target node config ≡ ok t → t + 1 < u64_end
unfolding resolve_target
head_bound t e = let eq : 8 ≡ t = cc in rw (← eq) (omega arith)

poll_stream-IsSound_example : IsSound (data_of first_poll)
poll_stream-IsSound_example =
    poll_stream-IsSound node node-IsHonest stream empty 500 (new_stream-IsSound config 0) head_bound
      first_polled

fetched : fetch_logs_with_adaptive_range node config 3 8 ≡ ok (6, transfer 5 0 ∷ transfer 5 1 ∷ [])
unfolding fetch_logs_with_adaptive_range fetch_loop effective_batch_size is_within_limits
    transfer_log_capacity_report block_counts insert get
fetched = refl

fetch_sound_example :
    (6 < 3 + effective_batch_size config)
    × (6 ≤ 8)
    × IsFetched node config 3 6 (6, transfer 5 0 ∷ transfer 5 1 ∷ [])
fetch_sound_example = fetch_sound node config 3 8 (omega arith) (omega arith) fetched

-- a node that answers for single blocks alone
abbrev narrow : Source
narrow = record node {
  transfer_logs =
      λ range. if range.from_block == range.to_block then ok [] else err (capacity_exceeded 99 10);
}

narrow_accepts : AcceptsRange narrow config 3 3
unfolding is_within_limits transfer_log_capacity_report block_counts
narrow_accepts = ([], refl, refl)

narrow_refuses :
    (t : ℕ)
    → 3 < t
    → narrow.transfer_logs (range_to narrow config 3 t) ≡ err (capacity_exceeded 99 10)
narrow_refuses t g = ground arith

narrow_size : should_reduce_batch_on_error (capacity_exceeded 99 10) ≡ true
unfolding should_reduce_batch_on_error
narrow_size = refl

fetch_total_example :
    (r : ℕ × List TransferLog) × (fetch_logs_with_adaptive_range narrow config 3 8 ≡ ok r)
fetch_total_example =
    fetch_total narrow config 3 8 (omega arith) (omega arith) narrow_accepts
      (λ t g l. inr (inl (capacity_exceeded 99 10, narrow_refuses t g, narrow_size)))

abbrev log_of : ℕ → ℕ → StoredTransferLog
log_of n index = stored_log (transfer n index) (n * 10) 500

abbrev entry : ℕ → ℕ → LogPageToken × StoredTransferLog
entry n index = (record { block_number = n; log_index = index }, log_of n index)

abbrev three_logs : Logs
three_logs = entry 5 0 ∷ entry 5 1 ∷ entry 6 0 ∷ []

three_logs-IsKeyed : IsKeyed three_logs
unfolding stored_log
three_logs-IsKeyed = (refl, (refl, (refl, tt)))

three_logs-IsRising : IsRising three_logs
unfolding stored_log
three_logs-IsRising = ((refl, (refl, tt)), ((refl, tt), (tt, tt)))

walk_pages_lem_example : walk_pages stream 1 three_logs 4 none ≡ values three_logs
walk_pages_lem_example =
    walk_pages_lem stream 0 three_logs three_logs-IsKeyed three_logs-IsRising 4 (omega arith)

first_page : (page_of stream none 1 three_logs).complete_to_block ≡ some 4
unfolding page_of page_logs complete_to_block first_behind any_behind stored_log
first_page = refl

page_complete_example :
    All
      (λ e.
        e.1.block_number ≤ 4 → WasPassed none e.0 ⊎ Has e.1 (page_of stream none 1 three_logs).logs)
      three_logs
    × (t : LogPageToken) × ((page_of stream none 1 three_logs).next_token ≡ some t)
    × All (IsHandedOut t 4) three_logs
page_complete_example =
    page_complete stream none 1 three_logs three_logs-IsKeyed three_logs-IsRising first_page

-- block 6 has changed on the chain
abbrev stale : StreamData
stale = record empty {
  headers =
      (5, stored_header 1 9 (block 5) 500)
      ∷ (6, stored_header 1 9 (record (block 6) { hash = 999 }) 500)
      ∷ [];
}

seen : rewind_point node stream stale (some 6) (some 999) ≡ ok (some 6)
unfolding rewind_point first_diverged get stored_header
seen = refl

rewind_point_lem_example :
    ((b : ChainBlock) × (node.block_by_number 6 ≡ ok b) × ((b.hash == 999) ≡ false))
    × ((5 ≤ 6) × (6 ≤ 6) × AgreesBetween node stream stale 5 6 × Compares node stream stale false 6
        ⊎ ◌≡◌ {A = ℕ} 6 6 × AgreesBetween node stream stale 5 7)
rewind_point_lem_example = rewind_point_lem node stream stale 6 999 seen

abbrev registered : StoreState
registered = (stream, empty) ∷ []

register : ensure_stream config 0 [] ≡ ok (empty.state, registered)
unfolding ensure_stream validate_page_limits initial insert get
register = refl

polled_store :
    poll_once node stream 500 registered
    ≡ ok (outcome_of first_poll, (stream, data_of first_poll) ∷ [])
unfolding poll_once poll_stream rewind_point initial advance resolve_target advance_to
    fetch_logs_with_adaptive_range fetch_loop effective_batch_size is_within_limits
    transfer_log_capacity_report block_counts insert get headers_for_batch fill_headers
    blocks_of_logs insert_set retain record_rewind first_diverged
    message_indicates_range_or_result_limit should_reduce_batch_on_error apply_rewind by_number
    commit_range insert_headers insert_logs stored_header stored_log
polled_store = refl

mode_bound : (m : ScanTargetMode) (t : ℕ) → target_for node m ≡ ok t → t + 1 < u64_end
mode_bound safe_tag t e = let eq : 8 ≡ t = cc in rw (← eq) (omega arith)
mode_bound finalized_tag t e = let eq : 7 ≡ t = cc in rw (← eq) (omega arith)
mode_bound (latest_minus_confirmations c) t e = ground arith

every_head_bound :
    (c : TransferLogStreamConfig) (t : ℕ) → resolve_target node c ≡ ok t → t + 1 < u64_end
unfolding resolve_target
every_head_bound c t e = mode_bound c.target_mode t e

-- registered, polled and pruned
Reachable-AreSound_example :
    AreSound (prune_before_block stream 4 700 ((stream, data_of first_poll) ∷ []))
Reachable-AreSound_example = Reachable-AreSound (
    after
      (after (after empty_store (ensured config 0 register))
        (polled node stream 500 node-IsHonest every_head_bound polled_store))
      (pruned stream 4 700))
