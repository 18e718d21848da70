-- ===== src/LogStore/State.antt =====
-- src/transfer_log_store/mod.rs: what the store keeps of each stream, and the changes made to it.
use pay.Common.{
  ℕ, suc, false, Option, none, some, List, [], ◌∷◌, ◌++◌, ltb, leb, ◌==◌, not, if◌then◌else◌,
  filter,
}
use pay.Common.Maps.{Map, get, insert, retain, nat_ord}
use pay.Domain.Address.{EvmAddress}
use pay.Domain.Chain.{BlockHash}
use pay.Ledger.{
  StreamId, ChainBlock, TransferLog, StoredTransferLog, LogPageToken, OffsetDateTime, token_ord,
  page_token,
}
use pay.LogStore.Config.{
  TransferLogStreamConfig, TransferLogCursor, stream_ord, record_rewind, saturating_add,
}

pub record StoredBlockHeader : Type 0 where
  pub chain_id : ℕ
  pub token_address : EvmAddress
  pub block_number : ℕ
  pub block_hash : BlockHash
  pub parent_hash : BlockHash
  pub timestamp : OffsetDateTime
  pub scanned_at : OffsetDateTime

pub record RangeManifest : Type 0 where
  pub from_block : ℕ
  pub to_block : ℕ
  pub log_count : ℕ
  pub writer_epoch : ℕ
  pub completed_at : OffsetDateTime

pub record StreamState : Type 0 where
  pub stream : StreamId
  pub config : TransferLogStreamConfig
  pub cursor : TransferLogCursor
  pub created_at : OffsetDateTime
  pub updated_at : OffsetDateTime

pub record StreamData : Type 0 where
  pub config : TransferLogStreamConfig
  pub state : StreamState
  pub cursor : TransferLogCursor
  pub headers : Map ℕ StoredBlockHeader
  pub logs : Map LogPageToken StoredTransferLog
  pub range_manifests : List RangeManifest

abbrev pub StoreState : Type 0
StoreState = Map StreamId StreamData

unfoldable pub stored_header : ℕ → EvmAddress → ChainBlock → OffsetDateTime → StoredBlockHeader
stored_header chain_id token_address block scanned_at = record {
  chain_id = chain_id;
  token_address = token_address;
  block_number = block.number;
  block_hash = block.hash;
  parent_hash = block.parent_hash;
  timestamp = block.timestamp;
  scanned_at = scanned_at;
}

unfoldable pub stored_log : TransferLog → OffsetDateTime → OffsetDateTime → StoredTransferLog
stored_log log block_timestamp observed_at = record {
  chain_id = log.chain_id;
  token_address = log.token_address;
  block_number = log.block.number;
  block_hash = log.block.hash;
  block_timestamp = block_timestamp;
  tx_hash = log.tx_hash;
  tx_index = none;
  log_index = log.log_index;
  from_address = log.from_address;
  to_address = log.to_address;
  amount_raw = log.amount_raw;
  removed = false;
  observed_at = observed_at;
}

-- `data.state.cursor = data.cursor.clone(); data.state.updated_at = now`
abbrev pub publish : OffsetDateTime → StreamData → StreamData
publish now d = record d { state = record d.state { cursor = d.cursor; updated_at = now } }

unfoldable pub apply_rewind : StreamData → ℕ → OffsetDateTime → StreamData
apply_rewind d from_block now = publish now (record d {
  headers = retain (λ e. ltb e.0 from_block) d.headers;
  logs = retain (λ e. ltb e.1.block_number from_block) d.logs;
  range_manifests = filter (λ range. ltb range.to_block from_block) d.range_manifests;
  cursor = record_rewind d.cursor from_block d.cursor.writer_epoch now;
})

unfoldable pub apply_retention_cleanup : StreamData → ℕ → OffsetDateTime → StreamData
apply_retention_cleanup d floor_block now = publish now (record d {
  headers = retain (λ e. leb floor_block e.0) d.headers;
  logs = retain (λ e. leb floor_block e.1.block_number) d.logs;
  range_manifests = filter (λ range. leb floor_block range.to_block) d.range_manifests;
})

-- `headers.iter().map(|header| (header.number, *header)).collect()`
unfoldable pub by_number : List ChainBlock → Map ℕ ChainBlock → Map ℕ ChainBlock
by_number [] m = m
by_number (h ∷ hs) m = by_number hs (insert h.number h m)

-- the loop of `poll_once` over the headers
unfoldable pub insert_headers : OffsetDateTime → List ChainBlock → StreamData → StreamData
insert_headers now [] d = d
insert_headers now (h ∷ hs) d = insert_headers now hs (record d {
  headers =
      insert h.number (stored_header d.config.chain_id d.config.token_address h now) d.headers;
})

-- the loop of `poll_once` over the logs, with the number of logs stored
module _ (now : OffsetDateTime) (headers_by_number : Map ℕ ChainBlock) where
  -- the body behind `headers_by_number.get`
  abbrev pub insert_under : TransferLog → Option ChainBlock → StreamData × ℕ → StreamData × ℕ
  insert_under log none acc = acc
  insert_under log (some header) (d, count) =
      if not (header.hash == log.block.hash)
      then (d, count)
      else let stored = stored_log log header.timestamp now in
        (record d { logs = insert (page_token stored) stored d.logs }, suc count)

  unfoldable pub insert_logs : List TransferLog → StreamData × ℕ → StreamData × ℕ
  insert_logs [] acc = acc
  insert_logs (log ∷ logs) acc =
      insert_logs logs (insert_under log (get log.block.number headers_by_number) acc)

abbrev hash_or_zero : Option ChainBlock → BlockHash
hash_or_zero none = 0
hash_or_zero (some h) = h.hash

-- what `poll_once` does with the fetched range, once it holds the lock again; the number of logs stored
unfoldable pub commit_range :
    OffsetDateTime → ℕ → ℕ → List TransferLog → List ChainBlock → StreamData → StreamData × ℕ
commit_range now from_block to_block logs headers d =
    let headers_by_number = by_number headers [] in
    let (with_logs, count) =
      insert_logs now headers_by_number logs (insert_headers now headers d, 0) in
    (
      publish now (record with_logs {
        cursor = record with_logs.cursor {
          next_block = saturating_add to_block 1;
          last_completed_block = some to_block;
          last_completed_hash = some (hash_or_zero (get to_block headers_by_number));
          updated_at = now;
        };
        range_manifests =
            with_logs.range_manifests
            ++ record {
              from_block = from_block;
              to_block = to_block;
              log_count = count;
              writer_epoch = with_logs.cursor.writer_epoch;
              completed_at = now;
            }
              ∷ [];
      }),
      count,
    )
