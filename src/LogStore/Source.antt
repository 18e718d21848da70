-- ===== src/LogStore/Source.antt =====
-- src/chain/mod.rs and src/transfer_log_store/mod.rs: what is asked of the chain, and the range of
-- blocks that one poll fetches.
use pay.Common.{
  ℕ, suc, ◌+◌, ◌-◌, Bool, true, false, ◌&&◌, ◌||◌, Option, none, some, List, [], ◌∷◌, Result, ok,
  err, ◌>>=◌, ltb, leb, ◌==◌, if◌then◌else◌, length, max,
}
use pay.Common.Uint.{Text}
use pay.Common.Strings.{codes}
use pay.Common.Maps.{Map, get, insert, values, nat_ord}
use pay.Domain.Address.{EvmAddress}
use pay.Domain.Chain.{BlockHash, ChainBlockRef}
use pay.Ledger.{StreamId, ChainBlock, TransferLog, TxHash}
use pay.LogStore.Config.{
  TransferLogStreamConfig, safe_tag, finalized_tag, latest_minus_confirmations,
  TransferLogTypeError, ScanTargetMode,
}

pub data ChainError : Type 0 where
  rpc_unavailable malformed_rpc_response : Text → ChainError
  provider_hash_mismatch : Text → Text → BlockHash → Text → BlockHash → ChainError
  invalid_block_range : ℕ → ℕ → ChainError
  block_not_found : ℕ → ChainError
  transaction_not_found : TxHash → ChainError
  chain_id_mismatch : ℕ → ℕ → ChainError
  capacity_exceeded : ℕ → ℕ → ChainError

pub record TransferLogRange : Type 0 where
  pub chain_id : ℕ
  pub token_address : EvmAddress
  pub from_block : ℕ
  pub to_block : ℕ
  pub recipient : Option EvmAddress

pub record TransferLogCapacityLimits : Type 0 where
  pub max_logs : ℕ
  pub max_logs_per_block : ℕ

pub record TransferLogCapacityReport : Type 0 where
  pub range : TransferLogRange
  pub log_count : ℕ
  pub max_logs_in_single_block : ℕ
  pub limits : TransferLogCapacityLimits

unfoldable pub is_within_limits : TransferLogCapacityReport → Bool
is_within_limits r =
    leb r.log_count r.limits.max_logs && leb r.max_logs_in_single_block r.limits.max_logs_per_block

-- The traits `ChainHeaderReader` and `TransferLogSource`: what the node answers while one operation of
-- the store runs.
pub record Source : Type 0 where
  pub latest_head : Result ChainBlockRef ChainError
  pub safe_head : Result ChainBlockRef ChainError
  pub finalized_head : Result ChainBlockRef ChainError
  pub block_by_number : ℕ → Result ChainBlock ChainError
  pub transfer_logs : TransferLogRange → Result (List TransferLog) ChainError

-- `not_ready` has the numbers that the text of its reason is made of: the block, the logs, the limit.
-- `fetch_cut_off` is the model's own, for a loop that has no fuel left.
pub data TransferLogStoreError : Type 0 where
  stream_not_found : StreamId → TransferLogStoreError
  stream_config_conflict : StreamId → ℕ → ℕ → TransferLogStoreError
  not_ready : ℕ → ℕ → ℕ → TransferLogStoreError
  chain : ChainError → TransferLogStoreError
  type_error : TransferLogTypeError → TransferLogStoreError
  fetch_cut_off : TransferLogStoreError

-- `?` on an answer of the chain
abbrev pub ask : {A : Type 0} → Result A ChainError → Result A TransferLogStoreError
ask (ok a) = ok a
ask (err e) = err (chain e)

abbrev pub to_lower : ℕ → ℕ
to_lower c = if leb b'A' c && leb c b'Z' then c + 32 else c

abbrev pub lower : Text → Text
lower [] = []
lower (c ∷ s) = to_lower c ∷ lower s

abbrev pub is_prefix : Text → Text → Bool
is_prefix [] s = true
is_prefix (_ ∷ _) [] = false
is_prefix (a ∷ p) (c ∷ s) = a == c && is_prefix p s

-- `message.contains(needle)`
abbrev pub has_part : Text → Text → Bool
has_part needle [] = is_prefix needle []
has_part needle (c ∷ s) = is_prefix needle (c ∷ s) || has_part needle s

abbrev pub any_part : List Text → Text → Bool
any_part [] message = false
any_part (needle ∷ needles) message = has_part needle message || any_part needles message

abbrev pub limit_words : List Text
limit_words =
    codes "block range"
    ∷ codes "range exceeds"
    ∷ codes "range too large"
    ∷ codes "too many results"
    ∷ codes "query returned more than"
    ∷ codes "response size"
    ∷ codes "payload too large"
    ∷ codes "result limit"
    ∷ codes "limit exceeded"
    ∷ codes "exceeds fake limit"
    ∷ []

unfoldable pub message_indicates_range_or_result_limit : Text → Bool
message_indicates_range_or_result_limit message = any_part limit_words (lower message)

unfoldable pub should_reduce_batch_on_error : ChainError → Bool
should_reduce_batch_on_error (capacity_exceeded _ _) = true
should_reduce_batch_on_error (rpc_unavailable message) =
    message_indicates_range_or_result_limit message
should_reduce_batch_on_error (malformed_rpc_response message) =
    message_indicates_range_or_result_limit message
should_reduce_batch_on_error _ = false

-- how many logs each block has: `*entry(number).or_default() += 1`
abbrev pub or_zero : Option ℕ → ℕ
or_zero none = 0
or_zero (some n) = n

unfoldable pub block_counts : List TransferLog → Map ℕ ℕ → Map ℕ ℕ
block_counts [] m = m
block_counts (log ∷ logs) m =
    block_counts logs (insert log.block.number (suc (or_zero (get log.block.number m))) m)

abbrev pub max_of : List ℕ → ℕ
max_of [] = 0
max_of (n ∷ ns) = max n (max_of ns)

abbrev pub transfer_log_capacity_limits : TransferLogStreamConfig → TransferLogCapacityLimits
transfer_log_capacity_limits config = record {
  max_logs = config.max_logs_per_page;
  max_logs_per_block = config.max_logs_per_page;
}

unfoldable pub transfer_log_capacity_report :
    TransferLogRange → TransferLogCapacityLimits → List TransferLog → TransferLogCapacityReport
transfer_log_capacity_report range limits logs = record {
  range = range;
  log_count = length logs;
  max_logs_in_single_block = max_of (values (block_counts logs []));
  limits = limits;
}

-- the `match` of `resolve_target`
abbrev pub target_for : Source → ScanTargetMode → Result ℕ TransferLogStoreError
target_for source safe_tag = do head ← ask source.safe_head; ok head.number
target_for source finalized_tag = do head ← ask source.finalized_head; ok head.number
target_for source (latest_minus_confirmations confirmations) = do
  latest ← ask source.latest_head
  ok (if ltb latest.number confirmations then 0 else latest.number - confirmations)

unfoldable pub resolve_target : Source → TransferLogStreamConfig → Result ℕ TransferLogStoreError
resolve_target source config = target_for source config.target_mode
