-- ===== src/LogStore/Invariant.antt =====
-- What holds of the data of a stream, whatever was done to it.
use pay.Common.{
  ℕ, ◌<◌, ◌≡◌, refl, ◌∙◌, Bool, true, false, none, some, List, [], ◌∷◌, arith, All, filter, ltb,
  leb, if◌then◌else◌, Bool-cases, inl, inr, ==_iff, subst, ◌==◌,
}
use pay.Common.Maps.{Map, get, retain, nat_ord}
use pay.Common.Maps.Laws.{IsRising, filter-IsRising, All-filter}
use pay.Ledger.{StoredTransferLog, LogPageToken, OffsetDateTime, token_ord}
use pay.LogStore.Config.{TransferLogStreamConfig, record_rewind}
use pay.LogStore.State.{StoredBlockHeader, StreamData, apply_rewind, apply_retention_cleanup}
use pay.LogStore.Poll.{new_stream}
use pay.LogStore.Paging.{Logs, IsKeyed}

abbrev pub Headers : Type 0
Headers = Map ℕ StoredBlockHeader

-- the block of a log is stored, and has the hash and the time that the log was stored with
abbrev pub HasHeader : Headers → LogPageToken × StoredTransferLog → Type 0
HasHeader headers e =
    (h : StoredBlockHeader) × (get e.1.block_number headers ≡ some h)
    × (h.block_hash ≡ e.1.block_hash)
    × (h.timestamp ≡ e.1.block_timestamp)

abbrev pub LogBelow : ℕ → LogPageToken × StoredTransferLog → Type 0
LogBelow n e = e.1.block_number < n

abbrev pub HeaderBelow : ℕ → ℕ × StoredBlockHeader → Type 0
HeaderBelow n e = e.0 < n

-- The headers rise by number and the logs by token, each log stands under its own token and in a
-- stored block, nothing lies at or behind the next block to read, and the published cursor is the
-- cursor.
abbrev pub IsSound : StreamData → Type 0
IsSound d =
    IsRising d.headers
    × IsRising d.logs
    × IsKeyed d.logs
    × All (HasHeader d.headers) d.logs
    × All (LogBelow d.cursor.next_block) d.logs
    × All (HeaderBelow d.cursor.next_block) d.headers
    × (d.state.cursor ≡ d.cursor)

get-retain :
    (p : ℕ → Bool) (k : ℕ) (m : Headers)
    → get k (filter (λ e. p e.0) m) ≡ (if p k then get k m else none)
unfolding get
get-retain p k [] = ground arith
get-retain p k ((j, v) ∷ m) = elim (Bool-cases (j == k)) [
  | inl e ↦ elim (Bool-cases (p j)) [
    | inl t ↦
        let t' : p k ≡ true = subst (λ i. p i ≡ true) ((==_iff j k).0 e) t in
        rw (t, t', e, get) refl
    | inr f ↦
        let f' : p k ≡ false = subst (λ i. p i ≡ false) ((==_iff j k).0 e) f in
        rw (f, f') (get-retain p k m ∙ rw f' refl)
  ]
  | inr n ↦ elim (Bool-cases (p j)) [
    | inl t ↦ rw (t, n, get) (get-retain p k m)
    | inr f ↦ rw (f, n) (get-retain p k m)
  ]
]

-- logs and headers chosen by their block number
keep-HasHeader :
    (p : ℕ → Bool) (headers : Headers) (logs : Logs)
    → All (HasHeader headers) logs
    → All (HasHeader (filter (λ e. p e.0) headers)) (filter (λ e. p e.1.block_number) logs)
keep-HasHeader p headers [] h = tt
keep-HasHeader p headers (e ∷ logs) h = elim (Bool-cases (p e.1.block_number)) [
  | inl y ↦
      let (s, found, hash, time) = h.0 in
      rw y (
        (s, get-retain p e.1.block_number headers ∙ rw y found, hash, time),
        keep-HasHeader p headers logs h.1,
      )
  | inr n ↦ rw n (keep-HasHeader p headers logs h.1)
]

filter-passes {ℓ} : {A : Type ℓ} (p : A → Bool) (xs : List A) → All (λ x. p x ≡ true) (filter p xs)
filter-passes p [] = tt
filter-passes p (x ∷ xs) = elim (Bool-cases (p x)) [
  | inl y ↦ rw y (y, filter-passes p xs)
  | inr n ↦ rw n (filter-passes p xs)
]

pub All-map {ℓ κ μ} :
    {A : Type ℓ} (P : A → Type κ) (Q : A → Type μ) (xs : List A)
    → ((x : A) → P x → Q x)
    → All P xs
    → All Q xs
All-map P Q [] f h = tt
All-map P Q (x ∷ xs) f h = (f x h.0, All-map P Q xs f h.1)

-- A stream that was just created is sound.
pub new_stream-IsSound :
    (config : TransferLogStreamConfig) (now : OffsetDateTime) → IsSound (new_stream config now)
new_stream-IsSound config now = (tt, tt, tt, tt, tt, tt, refl)

-- Rewinding keeps a stream sound: to whatever block, nothing is left at or behind it.
pub apply_rewind-IsSound :
    (d : StreamData) (from_block : ℕ) (now : OffsetDateTime)
    → IsSound d
    → IsSound (apply_rewind d from_block now)
unfolding apply_rewind record_rewind retain
apply_rewind-IsSound d from_block now (rh, rl, keyed, headed, lb, hb, published) = (
  filter-IsRising (λ e. ltb e.0 from_block) d.headers rh,
  filter-IsRising (λ e. ltb e.1.block_number from_block) d.logs rl,
  All-filter _ (λ e. ltb e.1.block_number from_block) d.logs keyed,
  keep-HasHeader (λ n. ltb n from_block) d.headers d.logs headed,
  All-map _ (LogBelow from_block) _ (λ e h. ground arith)
      (filter-passes (λ e. ltb e.1.block_number from_block) d.logs),
  All-map _ (HeaderBelow from_block) _ (λ e h. ground arith)
      (filter-passes (λ e. ltb e.0 from_block) d.headers),
  refl,
)

-- Dropping what is older than a block keeps a stream sound.
pub apply_retention_cleanup-IsSound :
    (d : StreamData) (floor_block : ℕ) (now : OffsetDateTime)
    → IsSound d
    → IsSound (apply_retention_cleanup d floor_block now)
unfolding apply_retention_cleanup retain
apply_retention_cleanup-IsSound d floor_block now (rh, rl, keyed, headed, lb, hb, published) = (
  filter-IsRising (λ e. leb floor_block e.0) d.headers rh,
  filter-IsRising (λ e. leb floor_block e.1.block_number) d.logs rl,
  All-filter _ (λ e. leb floor_block e.1.block_number) d.logs keyed,
  keep-HasHeader (λ n. leb floor_block n) d.headers d.logs headed,
  All-filter _ (λ e. leb floor_block e.1.block_number) d.logs lb,
  All-filter _ (λ e. leb floor_block e.0) d.headers hb,
  refl,
)
