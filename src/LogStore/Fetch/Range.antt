-- ===== src/LogStore/Fetch/Range.antt =====
-- The range that is fetched: it always ends, within the target, with what the source answered for it.
use pay.Common.{
  ℕ, ◌≤◌, ◌<◌, ◌≡◌, true, List, ok, arith, ltb, if◌then◌else◌, Result, err, suc, Bool-cases, ◌⊎◌,
  false, ◌&&◌, ◌∙◌, zero, ◌-◌, ltb→lt, ltb→le, inl, leb, inr, refl, ◌+◌, length, ◌≢◌, subst, min,
}
use pay.Domain.Chain.{u64_end}
use pay.Ledger.{TransferLog}
use pay.LogStore.Config.{TransferLogStreamConfig, saturating_add, effective_batch_size}
use pay.LogStore.Source.{Source, TransferLogStoreError, ChainError, should_reduce_batch_on_error}
use pay.LogStore.Fetch.{
  range_to, block_count_to, halved, fits, fetch_loop, chain, not_ready,
  fetch_logs_with_adaptive_range,
}

batch_pos : (config : TransferLogStreamConfig) → 0 < effective_batch_size config
unfolding effective_batch_size
batch_pos config = ground arith

module _ (source : Source) (config : TransferLogStreamConfig) (from_block : ℕ) where
  -- A fetched range starts at `from_block` and ends at `last` or before; its logs are the answer of the
  -- source for it, and are within the limits.
  abbrev pub IsFetched : ℕ → ℕ × List TransferLog → Type 0
  IsFetched last r =
      (from_block ≤ r.0)
      × (r.0 ≤ last)
      × (source.transfer_logs (range_to source config from_block r.0) ≡ ok r.1)
      × (fits source config from_block r.0 r.1 ≡ true)

  halved_from :
      (to : ℕ) → from_block ≤ to → to < u64_end → from_block ≤ halved source config from_block to
  halved_from to h b = ground arith

  halved_to : (to : ℕ) → from_block ≤ to → to < u64_end → halved source config from_block to ≤ to
  halved_to to h b = ground arith

  halved_less :
      (to : ℕ)
      → from_block ≤ to
      → to < u64_end
      → ltb 1 (block_count_to source config from_block to) ≡ true
      → halved source config from_block to < to
  halved_less to h b c = ground arith

  -- a round, given the answer of the source and what the smaller range gives
  abbrev round :
      ℕ
      → Result (List TransferLog) ChainError
      → Result (ℕ × List TransferLog) TransferLogStoreError
      → Result (ℕ × List TransferLog) TransferLogStoreError
  round to (err e) smaller =
      if should_reduce_batch_on_error e && ltb 1 (block_count_to source config from_block to)
      then smaller
      else err (chain e)
  round to (ok logs) smaller =
      if fits source config from_block to logs
      then ok (to, logs)
      else if leb (block_count_to source config from_block to) 1
      then err (not_ready from_block (length logs) config.max_logs_per_page)
      else smaller

  fetch_loop-round :
      (fuel to : ℕ) (answer : Result (List TransferLog) ChainError)
      → source.transfer_logs (range_to source config from_block to) ≡ answer
      → fetch_loop source config from_block (suc fuel) to
        ≡ round to answer
            (fetch_loop source config from_block fuel (halved source config from_block to))
  unfolding fetch_loop
  fetch_loop-round fuel to (err e) a =
      elim (Bool-cases
        (should_reduce_batch_on_error e && ltb 1 (block_count_to source config from_block to))) [
          | inl y ↦ rw (a, y, fetch_loop) refl
          | inr n ↦ rw (a, n, fetch_loop) refl
        ]
  fetch_loop-round fuel to (ok logs) a = elim (Bool-cases (fits source config from_block to logs)) [
    | inl y ↦ rw (a, y, fetch_loop) refl
    | inr n ↦ elim (Bool-cases (leb (block_count_to source config from_block to) 1)) [
      | inl y ↦ rw (a, n, y, fetch_loop) refl
      | inr n' ↦ rw (a, n, n', fetch_loop) refl
    ]
  ]

  round_sound :
      (to : ℕ) (answer : Result (List TransferLog) ChainError)
      (smaller : Result (ℕ × List TransferLog) TransferLogStoreError) {r : ℕ × List TransferLog}
      → source.transfer_logs (range_to source config from_block to) ≡ answer
      → from_block ≤ to
      → (smaller ≡ ok r → IsFetched to r)
      → round to answer smaller ≡ ok r
      → IsFetched to r
  round_sound to (err e) smaller {r} a h rest k =
      elim (Bool-cases
        (should_reduce_batch_on_error e && ltb 1 (block_count_to source config from_block to))) [
          | inl y ↦ rest (rw y at k)
          | inr n ↦ let l : err (chain e) ≡ ok r = rw n at k in cc
        ]
  round_sound to (ok logs) smaller {r} a h rest k =
      elim (Bool-cases (fits source config from_block to logs)) [
        | inl y ↦
            let l : ok (to, logs) ≡ ok r = rw y at k in
            let eq : (to, logs) ≡ r = cc in
            let fetched : IsFetched to (to, logs) = (h, omega arith, a, y) in
            subst (IsFetched to) eq fetched
        | inr n ↦ elim (Bool-cases (leb (block_count_to source config from_block to) 1)) [
          | inl y ↦
              let l : err (not_ready from_block (length logs) config.max_logs_per_page) ≡ ok r =
                rw (n, y) at k in
              cc
          | inr n' ↦ rest (rw (n, n') at k)
        ]
      ]

  fetch_loop-zero :
      (to : ℕ) {r : ℕ × List TransferLog} → fetch_loop source config from_block zero to ≢ ok r
  unfolding fetch_loop
  fetch_loop-zero to h = cc

  fetch_loop_sound :
      (fuel to : ℕ) {r : ℕ × List TransferLog}
      → from_block ≤ to
      → to < u64_end
      → fetch_loop source config from_block fuel to ≡ ok r
      → IsFetched to r
  fetch_loop_sound zero to h b k = absurd (fetch_loop-zero to k)
  fetch_loop_sound (suc fuel) to {r} h b k =
      let to' = halved source config from_block to in
      let answer = source.transfer_logs (range_to source config from_block to) in
      round_sound to answer (fetch_loop source config from_block fuel to') refl h
        (λ e.
          let inner =
            fetch_loop_sound fuel to' (halved_from to h b) (omega (arith, halved_to to h b)) e in
          (inner.0, omega (arith, halved_to to h b, inner.1), inner.2, inner.3))
        (rw (fetch_loop-round fuel to answer refl) at k)

  -- the source accepts a single block, and refuses longer ranges only for their size
  abbrev pub AcceptsRange : ℕ → Type 0
  AcceptsRange to =
      (logs : List TransferLog) × (source.transfer_logs (range_to source config from_block to)
        ≡ ok logs)
      × (fits source config from_block to logs ≡ true)

  abbrev pub RefusesForSize : ℕ → Type 0
  RefusesForSize to =
      ((e : ChainError) × (source.transfer_logs (range_to source config from_block to) ≡ err e)
        × (should_reduce_batch_on_error e ≡ true))
      ⊎ ((logs : List TransferLog) × (source.transfer_logs (range_to source config from_block to)
            ≡ ok logs)
          × (fits source config from_block to logs ≡ false))

  many :
      (to : ℕ)
      → from_block < to
      → to + 1 < u64_end
      → ltb 1 (block_count_to source config from_block to) ≡ true
  many to h b = ground arith

  range_status :
      (to : ℕ)
      → from_block ≤ to
      → AcceptsRange from_block
      → ((t : ℕ) → from_block < t → t ≤ to → AcceptsRange t ⊎ RefusesForSize t)
      → AcceptsRange to ⊎ (from_block < to) × RefusesForSize to
  range_status to h one all = elim (Bool-cases (ltb from_block to)) [
    | inl y ↦ elim (all to (ltb→lt from_block to y) (omega arith)) [
      | inl accepted ↦ inl accepted
      | inr refused ↦ inr (ltb→lt from_block to y, refused)
    ]
    | inr n ↦
        let eq : from_block ≡ to = omega (arith, ltb→le from_block to n) in
        inl (subst AcceptsRange eq one)
  ]

  -- a range that is refused for its size is halved
  refused_lem :
      (fuel to : ℕ)
      → RefusesForSize to
      → ltb 1 (block_count_to source config from_block to) ≡ true
      → fetch_loop source config from_block (suc fuel) to
        ≡ fetch_loop source config from_block fuel (halved source config from_block to)
  refused_lem fuel to (inl (e, a, y)) c = fetch_loop-round fuel to (err e) a ∙ rw (y, c) refl
  refused_lem fuel to (inr (logs, a, n)) c =
      let more : leb (block_count_to source config from_block to) 1 ≡ false = ground arith in
      fetch_loop-round fuel to (ok logs) a ∙ rw (n, more) refl

  fetch_loop_total :
      (fuel to : ℕ)
      → from_block ≤ to
      → to - from_block < fuel
      → to + 1 < u64_end
      → AcceptsRange from_block
      → ((t : ℕ) → from_block < t → t ≤ to → AcceptsRange t ⊎ RefusesForSize t)
      → (r : ℕ × List TransferLog) × (fetch_loop source config from_block fuel to ≡ ok r)
  fetch_loop_total zero to h f b one all = absurd (omega arith)
  fetch_loop_total (suc fuel) to h f b one all = elim (range_status to h one all) [
    | inl (logs, a, y) ↦ ((to, logs), fetch_loop-round fuel to (ok logs) a ∙ rw y refl)
    | inr (lt, refused) ↦
        let to' = halved source config from_block to in
        let below = halved_less to h (omega arith) (many to lt b) in
        let (r, e) =
          fetch_loop_total fuel to' (halved_from to h (omega arith)) (omega (arith, below))
            (omega (arith, below)) one (λ t g l. all t g (omega (arith, below))) in
        (r, refused_lem fuel to refused (many to lt b) ∙ e)
  ]

  -- the end of the first range that is tried
  abbrev first_end : ℕ → ℕ
  first_end target = min (saturating_add from_block (effective_batch_size config - 1)) target

  -- A fetch that succeeds gives a range from `from_block` on that is not empty and stays within the
  -- target and the batch size, and the logs are what the source answered for it, within the limits.
  pub fetch_sound :
      (target : ℕ) {r : ℕ × List TransferLog}
      → from_block ≤ target
      → target < u64_end
      → fetch_logs_with_adaptive_range source config from_block target ≡ ok r
      → (r.0 < from_block + effective_batch_size config) × (r.0 ≤ target) × IsFetched r.0 r
  unfolding fetch_logs_with_adaptive_range
  fetch_sound target {r} h b k =
      let pos = batch_pos config in
      let f =
        fetch_loop_sound (effective_batch_size config) (first_end target) (omega arith)
          (omega arith) k in
      (omega (arith, f.1), omega (arith, f.1), (f.0, omega arith, f.2, f.3))

  -- If the source accepts the first block of the range, and refuses a longer range for its size only
  -- or gives it with too many logs, the fetch succeeds: the halving ends, and at one block at last.
  pub fetch_total :
      (target : ℕ)
      → from_block ≤ target
      → target + 1 < u64_end
      → AcceptsRange from_block
      → ((t : ℕ) → from_block < t → t ≤ target → AcceptsRange t ⊎ RefusesForSize t)
      → (r : ℕ × List TransferLog) × (fetch_logs_with_adaptive_range source config from_block target
          ≡ ok r)
  unfolding fetch_logs_with_adaptive_range
  fetch_total target h b one all =
      let pos = batch_pos config in
      fetch_loop_total (effective_batch_size config) (first_end target) (omega arith) (omega arith)
        (omega arith) one (λ t g l. all t g (omega arith))
