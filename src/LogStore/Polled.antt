-- ===== src/LogStore/Polled.antt =====
-- One poll of a stream keeps its data sound.
use pay.LogStore.Config.{TransferLogStreamConfig}
use pay.Common.{
  ℕ, zero, suc, ◌+◌, ◌-◌, ◌≤◌, ◌<◌, ◌≡◌, refl, sym, Bool, true, false, Option, none, some, List, [],
  ◌∷◌, ok, arith, All, Bool-cases, inl, inr, >>=-eq-ok, ltb, ltb→le, subst, ◌==◌, Option-cases,
  Result,
}
use pay.Common.Maps.{Map, get, insert, insert_set, values, nat_ord}
use pay.Common.Maps.Laws.{All-insert}
use pay.Domain.Chain.{u64_end}
use pay.Ledger.{StreamId, ChainBlock, TransferLog, OffsetDateTime}
use pay.LogStore.State.{StreamData, commit_range, apply_rewind}
use pay.LogStore.Source.{Source, ask, resolve_target, TransferLogRange, TransferLogStoreError}
use pay.LogStore.Fetch.{
  fetch_logs_with_adaptive_range, headers_for_batch, fill_headers, blocks_of_logs, header_blocks,
  numbers_of_logs, numbers_from,
}
use pay.LogStore.Fetch.Range.{fetch_sound}
use pay.LogStore.Poll.{
  PollOutcome, poll_stream, advance, advance_to, rewind_or_advance, rewind_point, idle,
}
use pay.LogStore.Reorg.{ask-ok}
use pay.LogStore.Invariant.{IsSound, apply_rewind-IsSound, All-map}
use pay.LogStore.Committed.{commit_range-IsSound}

-- What the documentation of the node's interface says of its answers: a block has the number that it
-- was asked by, the logs of a range lie in its blocks, and numbers of blocks stay below the last u64.
abbrev pub IsHonest : Source → Type 0
IsHonest source =
    ((n : ℕ) (b : ChainBlock) → source.block_by_number n ≡ ok b → b.number ≡ n)
    × ((range : TransferLogRange) (logs : List TransferLog)
        → source.transfer_logs range ≡ ok logs
        → All (λ l. (range.from_block ≤ l.block.number) × (l.block.number ≤ range.to_block)) logs)

module _ (lo hi : ℕ) where
  abbrev Within : ℕ → Type 0
  Within n = (lo ≤ n) × (n < hi)

  insert_set-All : (n : ℕ) (s : List ℕ) → Within n → All Within s → All Within (insert_set n s)
  unfolding insert_set
  insert_set-All n [] w h = (w, tt)
  insert_set-All n (j ∷ s) w h = elim (Bool-cases (ltb n j)) [
    | inl l ↦ rw l (w, h)
    | inr l ↦ elim (Bool-cases (j == n)) [
      | inl e ↦ rw (l, e) h
      | inr e ↦ rw (l, e) (h.0, insert_set-All n s w h.1)
    ]
  ]

  numbers-All :
      (logs : List TransferLog) (s : List ℕ)
      → All (λ l. Within l.block.number) logs
      → All Within s
      → All Within (numbers_of_logs logs s)
  numbers-All [] s h a = a
  numbers-All (l ∷ logs) s h a = numbers-All logs _ h.1 (insert_set-All l.block.number s h.0 a)

  blocks-All :
      (logs : List TransferLog) (m : Map ℕ ChainBlock)
      → All (λ l. Within l.block.number) logs
      → All (λ e. Within e.1.number) m
      → All (λ e. Within e.1.number) (blocks_of_logs logs m)
  unfolding blocks_of_logs
  blocks-All [] m h a = a
  blocks-All (l ∷ logs) m h a = blocks-All logs _ h.1 (All-insert _ l.block.number l.block m h.0 a)

  numbers_from-All : (n k : ℕ) → lo ≤ n → n + k ≤ hi → All Within (numbers_from n k)
  numbers_from-All n zero l h = tt
  numbers_from-All n (suc k) l h =
      ((l, omega arith), numbers_from-All (n + 1) k (omega arith) (omega arith))

  values-All :
      (m : Map ℕ ChainBlock)
      → All (λ e. Within e.1.number) m
      → All (λ b. lo ≤ b.number) (values m) × All (λ b. b.number < hi) (values m)
  values-All [] h = (tt, tt)
  values-All (e ∷ m) h = let (l, u) = values-All m h.1 in ((h.0.0, l), (h.0.1, u))

  fill-All :
      (source : Source) (numbers : List ℕ) (m : Map ℕ ChainBlock) {r : Map ℕ ChainBlock}
      → IsHonest source
      → All Within numbers
      → All (λ e. Within e.1.number) m
      → fill_headers source numbers m ≡ ok r
      → All (λ e. Within e.1.number) r
  unfolding fill_headers
  fill-All source [] m {r} honest h a e =
      let eq : m ≡ r = cc in subst (All (λ e. Within e.1.number)) eq a
  fill-All source (n ∷ numbers) m honest h a e = elim (Option-cases (get n m)) [
    | inl p ↦
        let (b, eb, k) = >>=-eq-ok (ask (source.block_by_number n)) _ (rw (p, fill_headers) at e) in
        let named = honest.0 n b (ask-ok (source.block_by_number n) eb) in
        fill-All source numbers (insert n b m) honest h.1
          (All-insert _ n b m (subst Within (sym named) h.0) a) k
    | inr (v, p) ↦ fill-All source numbers m honest h.1 a (rw (p, fill_headers) at e)
  ]

header_blocks-All :
    (lo to : ℕ) (sparse : Bool) (logs : List TransferLog)
    → lo ≤ to
    → All (λ l. Within lo (to + 1) l.block.number) logs
    → All (Within lo (to + 1)) (header_blocks sparse logs lo to)
header_blocks-All lo to true logs le h =
    insert_set-All lo (to + 1) to (numbers_of_logs logs []) (le, omega arith)
      (numbers-All lo (to + 1) logs [] h tt)
header_blocks-All lo to false logs le h =
    numbers_from-All lo (to + 1) lo (to + 1 - lo) (omega arith) (omega arith)

snd_inj :
    (r : Result (PollOutcome × StreamData) TransferLogStoreError) {o o' : PollOutcome}
    {d d' : StreamData}
    → r ≡ ok (o, d)
    → r ≡ ok (o', d')
    → d ≡ d'
snd_inj r e h = cc

module _ (source : Source) (honest : IsHonest source) where
  batch-Within :
      (config : TransferLogStreamConfig) (logs : List TransferLog) (lo to : ℕ)
      {hs : List ChainBlock}
      → lo ≤ to
      → All (λ l. Within lo (to + 1) l.block.number) logs
      → headers_for_batch source config logs lo to ≡ ok hs
      → All (λ b. lo ≤ b.number) hs × All (λ b. b.number < to + 1) hs
  unfolding headers_for_batch
  batch-Within config logs lo to {hs} le within e =
      let numbers = header_blocks config.sparse_headers logs lo to in
      let (r, er, k) = >>=-eq-ok (fill_headers source numbers (blocks_of_logs logs [])) _ e in
      let all =
        fill-All lo (to + 1) source numbers (blocks_of_logs logs []) honest
          (header_blocks-All lo to config.sparse_headers logs le within)
          (blocks-All lo (to + 1) logs [] within tt) er in
      let eq : values r ≡ hs = cc in
      subst (λ bs. All (λ b. lo ≤ b.number) bs × All (λ b. b.number < to + 1) bs) eq
        (values-All lo (to + 1) r all)

  module _ (stream : StreamId) (d : StreamData) (now : OffsetDateTime) (sound : IsSound d) where
    advance_to-IsSound :
        (target : ℕ) {o : PollOutcome} {d' : StreamData}
        → d.cursor.next_block ≤ target
        → target + 1 < u64_end
        → advance_to source stream d now target ≡ ok (o, d')
        → IsSound d'
    unfolding advance_to
    advance_to-IsSound target {o} {d'} le fit h =
        let lo = d.cursor.next_block in
        let (f, ef, k) = >>=-eq-ok (fetch_logs_with_adaptive_range source d.config lo target) _ h in
        let (hs, eh, k') = >>=-eq-ok (headers_for_batch source d.config f.1 lo f.0) _ k in
        let fetched = fetch_sound source d.config lo target le (omega arith) ef in
        let in_range = honest.1 _ f.1 fetched.2.2 in
        let within =
          All-map _ (λ l. Within lo (f.0 + 1) l.block.number) f.1 (λ l r. (r.0, omega (arith, r.1)))
            in_range in
        let (low, high) = batch-Within d.config f.1 lo f.0 fetched.2.0 within eh in
        let done =
          commit_range-IsSound d now f.0 f.1 hs sound fetched.2.0 (omega (arith, fetched.1)) low
            high in
        let eq : (commit_range now lo f.0 f.1 hs d).0 ≡ d' = snd_inj _ refl k' in
        subst IsSound eq done.0

    advance-IsSound :
        {o : PollOutcome} {d' : StreamData}
        → ((t : ℕ) → resolve_target source d.config ≡ ok t → t + 1 < u64_end)
        → advance source stream d now ≡ ok (o, d')
        → IsSound d'
    unfolding advance
    advance-IsSound {o} {d'} heads h =
        let (t, et, k) = >>=-eq-ok (resolve_target source d.config) _ h in
        elim (Bool-cases (ltb t d.cursor.next_block)) [
          | inl y ↦
              let eq : d ≡ d' = snd_inj (ok (idle d.cursor, d)) refl (rw y at k) in
              subst IsSound eq sound
          | inr n ↦ advance_to-IsSound t (ltb→le t d.cursor.next_block n) (heads t et) (rw n at k)
        ]

    point-IsSound :
        (point : Option ℕ) {o : PollOutcome} {d' : StreamData}
        → ((t : ℕ) → resolve_target source d.config ≡ ok t → t + 1 < u64_end)
        → rewind_or_advance source stream d now point ≡ ok (o, d')
        → IsSound d'
    point-IsSound none heads h = advance-IsSound heads h
    point-IsSound (some r) {o} {d'} heads h =
        let eq : apply_rewind d r now ≡ d' = snd_inj _ refl h in
        subst IsSound eq (apply_rewind-IsSound d r now sound)

    -- A poll keeps the data of its stream sound, whether it finds nothing new, advances or rewinds, for
    -- every node whose blocks have the numbers that they are asked by, whose logs lie in the range
    -- asked for, and whose head lies below the last u64.
    pub poll_stream-IsSound :
        {o : PollOutcome} {d' : StreamData}
        → ((t : ℕ) → resolve_target source d.config ≡ ok t → t + 1 < u64_end)
        → poll_stream source stream d now ≡ ok (o, d')
        → IsSound d'
    unfolding poll_stream
    poll_stream-IsSound heads h =
        let (point, ep, k) =
          >>=-eq-ok
            (rewind_point source stream d d.cursor.last_completed_block
              d.cursor.last_completed_hash)
            _ h in
        point-IsSound point heads k
