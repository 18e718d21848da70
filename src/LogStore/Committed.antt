-- ===== src/LogStore/Committed.antt =====
-- A committed range: the store stays sound, and the next block to read moves behind the range.
use pay.Common.{
  ℕ, ◌+◌, ◌≤◌, ◌<◌, ◌≡◌, refl, sym, ◌∙◌, some, List, [], ◌∷◌, arith, All, inl, inr, subst, ◌≢◌,
}
use pay.Common.Maps.{get, nat_ord}
use pay.Domain.Chain.{u64_end}
use pay.Ledger.{ChainBlock, TransferLog, OffsetDateTime, token_ord}
use pay.LogStore.Config.{saturating_add}
use pay.LogStore.State.{
  StoredBlockHeader, StreamData, by_number, insert_headers, commit_range, stored_header,
}
use pay.LogStore.Paging.{Logs}
use pay.LogStore.Invariant.{HasHeader, LogBelow, HeaderBelow, IsSound, All-map}
use pay.LogStore.Merged.{
  Merged, LogsSound, headers_lem, headers_rest, headers-IsRising, headers_below, by_number_low,
  by_number_high, logs-LogsSound, logs_rest,
}

not_in_empty : (n : ℕ) {b : ChainBlock} → get n [] ≢ some b
unfolding get
not_in_empty n h = cc

module _ (now : OffsetDateTime) (d : StreamData) (headers : List ChainBlock) (hi : ℕ)
    (low : All (λ b. d.cursor.next_block ≤ b.number) headers)
    (high : All (λ b. b.number < hi) headers) where
  merged : Merged now d (insert_headers now headers d).headers d.headers (by_number headers [])
  unfolding get
  merged = headers_lem now headers d d.headers [] (λ _. refl)

  -- the logs that were there keep their headers
  keep_old :
      (logs : Logs)
      → All (HasHeader d.headers) logs
      → All (LogBelow d.cursor.next_block) logs
      → All (HasHeader (insert_headers now headers d).headers) logs
  unfolding get
  keep_old [] h l = tt
  keep_old (e ∷ logs) h l =
      let (s, found, hash, time) = h.0 in
      let old = by_number_low now d.cursor.next_block e.1.block_number headers [] low l.0 in
      ((s, merged e.1.block_number ∙ rw old found, hash, time), keep_old logs h.1 l.1)

  covers :
      (n : ℕ) (b : ChainBlock)
      → get n (by_number headers []) ≡ some b
      → (s : StoredBlockHeader) × (get n (insert_headers now headers d).headers ≡ some s)
        × (s.block_hash ≡ b.hash)
        × (s.timestamp ≡ b.timestamp)
        × (n < hi)
  unfolding stored_header
  covers n b e = elim (by_number_high now hi n headers [] high e) [
    | inl lt ↦ (
      stored_header d.config.chain_id d.config.token_address b now,
      merged n ∙ rw e refl,
      refl,
      refl,
      lt,
    )
    | inr none_found ↦ absurd (not_in_empty n none_found)
  ]

-- A committed range, whose headers are of blocks of the range, keeps a stream sound, whatever logs
-- came with it, and the next block to read is the one behind the range.
pub commit_range-IsSound :
    (d : StreamData) (now : OffsetDateTime) (to_block : ℕ) (logs : List TransferLog)
    (headers : List ChainBlock)
    → IsSound d
    → d.cursor.next_block ≤ to_block
    → to_block + 1 < u64_end
    → All (λ b. d.cursor.next_block ≤ b.number) headers
    → All (λ b. b.number < to_block + 1) headers
    → let d' = (commit_range now d.cursor.next_block to_block logs headers d).0 in
      IsSound d' × (d'.cursor.next_block ≡ to_block + 1)
unfolding commit_range
commit_range-IsSound d now to_block logs headers (rh, rl, keyed, headed, lb, hb, published) le fit
      low high =
    let hd = insert_headers now headers d in
    let hbn = by_number headers [] in
    let (same_logs, same_cursor) = headers_rest now headers d in
    let end : saturating_add to_block 1 ≡ to_block + 1 = omega arith in
    let covered = covers now d headers (to_block + 1) low high in
    let wider : (n : ℕ) → n < d.cursor.next_block → n < to_block + 1 = λ n lt. omega arith in
    let below =
      headers_below now (to_block + 1) headers d high
        (All-map _ (HeaderBelow (to_block + 1)) d.headers (λ e lt. wider e.0 lt) hb) in
    let old : LogsSound now hd.headers (to_block + 1) d.logs = (
      rl,
      keyed,
      keep_old now d headers (to_block + 1) low high d.logs headed lb,
      All-map _ (LogBelow (to_block + 1)) d.logs (λ e lt. wider e.1.block_number lt) lb,
    ) in
    let new =
      logs-LogsSound now hbn hd.headers (to_block + 1) covered logs hd 0
        (subst (LogsSound now hd.headers (to_block + 1)) (sym same_logs) old) in
    let (same_headers, _) = logs_rest now hbn hd.headers (to_block + 1) covered logs hd 0 in
    rw (end, same_headers)
      ((headers-IsRising now headers d rh, new.0, new.1, new.2, new.3, below, refl), refl)
