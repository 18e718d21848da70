-- ===== src/LogStore/Fetch.antt =====
-- src/transfer_log_store/mod.rs: fetching the logs of a range that shrinks until the source and the
-- limits accept it, and the headers of its blocks.
pub mod Range
use pay.Common.{
  ℕ, zero, suc, ◌+◌, ◌-◌, ◌/◌, Bool, true, false, ◌&&◌, none, some, List, [], ◌∷◌, Result, ok, err,
  ◌>>=◌, ltb, leb, length, min, max,
}
use pay.Common.Maps.{Map, get, insert, values, insert_set, nat_ord}
use pay.Ledger.{ChainBlock, TransferLog}
use pay.LogStore.Config.{
  TransferLogStreamConfig, effective_batch_size, saturating_add, saturating_sub,
}
use pay.LogStore.Source.{
  Source, TransferLogRange, TransferLogStoreError, chain, not_ready, fetch_cut_off, ask,
  should_reduce_batch_on_error, transfer_log_capacity_limits, transfer_log_capacity_report,
  is_within_limits,
}

module _ (source : Source) (config : TransferLogStreamConfig) (from_block : ℕ) where
  abbrev pub range_to : ℕ → TransferLogRange
  range_to to_block = record {
    chain_id = config.chain_id;
    token_address = config.token_address;
    from_block = from_block;
    to_block = to_block;
    recipient = none;
  }

  abbrev pub block_count_to : ℕ → ℕ
  block_count_to to_block = saturating_add (saturating_sub to_block from_block) 1

  -- the end of the first half of the range
  abbrev pub halved : ℕ → ℕ
  halved to_block =
      saturating_add from_block (saturating_sub (max (block_count_to to_block / 2) 1) 1)

  abbrev pub fits : ℕ → List TransferLog → Bool
  fits to_block logs =
      is_within_limits (
        transfer_log_capacity_report (range_to to_block) (transfer_log_capacity_limits config) logs)

  -- the rounds of `loop`, as many as there is fuel
  unfoldable pub fetch_loop : ℕ → ℕ → Result (ℕ × List TransferLog) TransferLogStoreError
  fetch_loop zero to_block = err fetch_cut_off
  fetch_loop (suc fuel) to_block = elim (source.transfer_logs (range_to to_block)) [
    | err e ↦ elim (should_reduce_batch_on_error e && ltb 1 (block_count_to to_block)) [
      | true ↦ fetch_loop fuel (halved to_block)
      | false ↦ err (chain e)
    ]
    | ok logs ↦ elim (fits to_block logs) [
      | true ↦ ok (to_block, logs)
      | false ↦ elim (leb (block_count_to to_block) 1) [
        | true ↦ err (not_ready from_block (length logs) config.max_logs_per_page)
        | false ↦ fetch_loop fuel (halved to_block)
      ]
    ]
  ]

-- Each round halves the number of blocks, so the size of a batch is fuel enough.
unfoldable pub fetch_logs_with_adaptive_range :
    Source → TransferLogStreamConfig → ℕ → ℕ → Result (ℕ × List TransferLog) TransferLogStoreError
fetch_logs_with_adaptive_range source config from_block target =
    let batch_size = effective_batch_size config in
    let to_block = min (saturating_add from_block (saturating_sub batch_size 1)) target in
    fetch_loop source config from_block batch_size to_block

unfoldable pub blocks_of_logs : List TransferLog → Map ℕ ChainBlock → Map ℕ ChainBlock
blocks_of_logs [] m = m
blocks_of_logs (log ∷ logs) m = blocks_of_logs logs (insert log.block.number log.block m)

abbrev pub numbers_of_logs : List TransferLog → List ℕ → List ℕ
numbers_of_logs [] s = s
numbers_of_logs (log ∷ logs) s = numbers_of_logs logs (insert_set log.block.number s)

-- `n` numbers from `from_block` on
abbrev pub numbers_from : ℕ → ℕ → List ℕ
numbers_from from_block zero = []
numbers_from from_block (suc n) = from_block ∷ numbers_from (from_block + 1) n

abbrev pub header_blocks : Bool → List TransferLog → ℕ → ℕ → List ℕ
header_blocks true logs from_block to_block = insert_set to_block (numbers_of_logs logs [])
header_blocks false logs from_block to_block = numbers_from from_block (to_block + 1 - from_block)

module _ (source : Source) where
  -- the loop over the numbers whose headers are missing
  unfoldable pub fill_headers :
      List ℕ → Map ℕ ChainBlock → Result (Map ℕ ChainBlock) TransferLogStoreError
  fill_headers [] m = ok m
  fill_headers (number ∷ numbers) m = elim (get number m) [
    | some _ ↦ fill_headers numbers m
    | none ↦ do
      block ← ask (source.block_by_number number)
      fill_headers numbers (insert number block m)
  ]

  unfoldable pub headers_for_batch :
      TransferLogStreamConfig
      → List TransferLog
      → ℕ
      → ℕ
      → Result (List ChainBlock) TransferLogStoreError
  headers_for_batch config logs from_block to_block = do
    filled ←
        fill_headers (header_blocks config.sparse_headers logs from_block to_block)
          (blocks_of_logs logs [])
    ok (values filled)
