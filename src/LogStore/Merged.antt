-- ===== src/LogStore/Merged.antt =====
-- The loops of `poll_once` that store the headers and the logs of a batch.
use pay.Common.{
  ℕ, ◌≤◌, ◌<◌, ◌≡◌, refl, ◌∙◌, false, Option, none, some, List, [], ◌∷◌, arith, All, Bool-cases,
  inl, inr, ==_iff, ◌==◌, ◌⊎◌,
}
use pay.Common.Maps.{Map, get, insert, nat_ord}
use pay.Common.Maps.Laws.{IsRising, insert-IsRising, All-insert, get-insert}
use pay.Ledger.{ChainBlock, TransferLog, OffsetDateTime, token_ord}
use pay.LogStore.State.{
  StoredBlockHeader, StreamData, by_number, insert_headers, insert_under, insert_logs,
  stored_header, stored_log,
}
use pay.LogStore.Paging.{Logs, IsKeyed}
use pay.LogStore.Invariant.{Headers, HasHeader, LogBelow, HeaderBelow}

module _ (now : OffsetDateTime) where
  abbrev pub over :
      StreamData → Option StoredBlockHeader → Option ChainBlock → Option StoredBlockHeader
  over d old none = old
  over d old (some h) = some (stored_header d.config.chain_id d.config.token_address h now)

  abbrev pub Merged : StreamData → Headers → Headers → Map ℕ ChainBlock → Type 0
  Merged d merged old m = (n : ℕ) → get n merged ≡ over d (get n old) (get n m)

  merged-insert :
      (d : StreamData) (merged old : Headers) (m : Map ℕ ChainBlock) (b : ChainBlock)
      → Merged d merged old m
      → Merged d
          (insert b.number (stored_header d.config.chain_id d.config.token_address b now) merged)
          old
          (insert b.number b m)
  merged-insert d merged old m b h i =
      let v = stored_header d.config.chain_id d.config.token_address b now in
      elim (Bool-cases (b.number == i)) [
        | inl y ↦ get-insert b.number i v merged ∙ rw (get-insert b.number i b m, y) refl
        | inr n ↦ get-insert b.number i v merged ∙ rw (get-insert b.number i b m, n) (h i)
      ]

  -- The headers that the loop stores are those that the batch has last for each number.
  pub headers_lem :
      (hs : List ChainBlock) (d : StreamData) (old : Headers) (m : Map ℕ ChainBlock)
      → Merged d d.headers old m
      → Merged d (insert_headers now hs d).headers old (by_number hs m)
  unfolding insert_headers by_number
  headers_lem [] d old m h n = h n
  headers_lem (b ∷ hs) d old m h n =
      headers_lem hs _ old (insert b.number b m) (merged-insert d d.headers old m b h) n

  pub headers_rest :
      (hs : List ChainBlock) (d : StreamData)
      → ((insert_headers now hs d).logs ≡ d.logs) × ((insert_headers now hs d).cursor ≡ d.cursor)
  unfolding insert_headers
  headers_rest [] d = (refl, refl)
  headers_rest (b ∷ hs) d = headers_rest hs _

  pub headers-IsRising :
      (hs : List ChainBlock) (d : StreamData)
      → IsRising d.headers
      → IsRising (insert_headers now hs d).headers
  unfolding insert_headers
  headers-IsRising [] d h = h
  headers-IsRising (b ∷ hs) d h = headers-IsRising hs _ (insert-IsRising b.number _ d.headers h)

  pub headers_below :
      (hi : ℕ) (hs : List ChainBlock) (d : StreamData)
      → All (λ b. b.number < hi) hs
      → All (HeaderBelow hi) d.headers
      → All (HeaderBelow hi) (insert_headers now hs d).headers
  unfolding insert_headers
  headers_below hi [] d small h = h
  headers_below hi (b ∷ hs) d small h =
      headers_below hi hs _ small.1 (All-insert (HeaderBelow hi) b.number _ d.headers small.0 h)

  -- A batch has no header below its first number.
  pub by_number_low :
      (lo n : ℕ) (hs : List ChainBlock) (m : Map ℕ ChainBlock)
      → All (λ b. lo ≤ b.number) hs
      → n < lo
      → get n (by_number hs m) ≡ get n m
  unfolding by_number
  by_number_low lo n [] m h lt = refl
  by_number_low lo n (b ∷ hs) m h lt =
      let other : (b.number == n) ≡ false = ground arith in
      by_number_low lo n hs (insert b.number b m) h.1 lt ∙ get-insert b.number n b m ∙ rw other refl

  -- what holds of the stored logs over stored headers
  abbrev pub LogsSound : Headers → ℕ → Logs → Type 0
  LogsSound stored hi logs =
      IsRising logs × IsKeyed logs × All (HasHeader stored) logs × All (LogBelow hi) logs

  module _ (hbn : Map ℕ ChainBlock) (stored : Headers) (hi : ℕ)
      (covered : (n : ℕ) (b : ChainBlock)
        → get n hbn ≡ some b
        → (s : StoredBlockHeader) × (get n stored ≡ some s)
          × (s.block_hash ≡ b.hash)
          × (s.timestamp ≡ b.timestamp)
          × (n < hi)) where
    under-LogsSound :
        (log : TransferLog) (o : Option ChainBlock) (d : StreamData) (count : ℕ)
        → get log.block.number hbn ≡ o
        → LogsSound stored hi d.logs
        → LogsSound stored hi (insert_under now hbn log o (d, count)).0.logs
    unfolding stored_log
    under-LogsSound log none d count e h = h
    under-LogsSound log (some b) d count e h = elim (Bool-cases (b.hash == log.block.hash)) [
      | inr n ↦ rw n h
      | inl y ↦
          let (s, found, hash, time, lt) = covered log.block.number b e in
          let same : s.block_hash ≡ log.block.hash = hash ∙ (==_iff b.hash log.block.hash).0 y in
          rw y (
            insert-IsRising _ _ d.logs h.0,
            All-insert _ _ _ d.logs refl h.1,
            All-insert (HasHeader stored) _ _ d.logs (s, found, same, time) h.2,
            All-insert (LogBelow hi) _ _ d.logs lt h.3,
          )
    ]

    under_rest :
        (log : TransferLog) (o : Option ChainBlock) (d : StreamData) (count : ℕ)
        → let r = (insert_under now hbn log o (d, count)).0 in
          (r.headers ≡ d.headers) × (r.cursor ≡ d.cursor)
    under_rest log none d count = (refl, refl)
    under_rest log (some b) d count = elim (Bool-cases (b.hash == log.block.hash)) [
      | inl y ↦ rw y (refl, refl)
      | inr n ↦ rw n (refl, refl)
    ]

    pub logs-LogsSound :
        (logs : List TransferLog) (d : StreamData) (count : ℕ)
        → LogsSound stored hi d.logs
        → LogsSound stored hi (insert_logs now hbn logs (d, count)).0.logs
    unfolding insert_logs
    logs-LogsSound [] d count h = h
    logs-LogsSound (log ∷ logs) d count h =
        logs-LogsSound logs _ _ (under-LogsSound log (get log.block.number hbn) d count refl h)

    pub logs_rest :
        (logs : List TransferLog) (d : StreamData) (count : ℕ)
        → let r = (insert_logs now hbn logs (d, count)).0 in
          (r.headers ≡ d.headers) × (r.cursor ≡ d.cursor)
    unfolding insert_logs
    logs_rest [] d count = (refl, refl)
    logs_rest (log ∷ logs) d count =
        let (h, c) = under_rest log (get log.block.number hbn) d count in
        let (h', c') = logs_rest logs _ _ in (h' ∙ h, c' ∙ c)

  pub by_number_high :
      (hi n : ℕ) (hs : List ChainBlock) (m : Map ℕ ChainBlock) {b : ChainBlock}
      → All (λ b. b.number < hi) hs
      → get n (by_number hs m) ≡ some b
      → (n < hi) ⊎ (get n m ≡ some b)
  unfolding by_number
  by_number_high hi n [] m h e = inr e
  by_number_high hi n (b ∷ hs) m h e = elim (by_number_high hi n hs (insert b.number b m) h.1 e) [
    | inl lt ↦ inl lt
    | inr found ↦ elim (Bool-cases (b.number == n)) [
      | inl y ↦ inl (ground arith)
      | inr other ↦ inr (rw (get-insert b.number n b m, other) at found)
    ]
  ]
