-- ===== src/LogStore/Reachable.antt =====
-- The store under any sequence of its operations.
use pay.Common.{
  ℕ, ◌+◌, ◌<◌, ◌≡◌, refl, sym, ◌∙◌, Option, none, some, [], ok, Bool-cases, inl, inr, subst,
  if◌then◌else◌, >>=-eq-ok, max, ok_or-ok,
}
use pay.Common.Maps.{get, insert}
use pay.Common.Maps.Laws.{get-insert}
use pay.Domain.Chain.{u64_end}
use pay.Ledger.{StreamId, OffsetDateTime}
use pay.LogStore.Config.{
  TransferLogStreamConfig, TransferLogStreamConfigIdentityConflict, stream_ord, stream_id,
  same_stream, identity_conflict,
}
use pay.LogStore.State.{StreamData, StoreState, StreamState, apply_rewind, apply_retention_cleanup}
use pay.LogStore.Source.{Source, resolve_target, stream_not_found}
use pay.LogStore.Poll.{
  PollOutcome, Done, find, ensure_stream, ensure_found, update_stream, reconfigured, new_stream,
  rewind_to, prune_before_block, poll_once, poll_stream, prune_found,
}
use pay.LogStore.Invariant.{
  IsSound, new_stream-IsSound, apply_rewind-IsSound, apply_retention_cleanup-IsSound,
}
use pay.LogStore.Polled.{IsHonest, poll_stream-IsSound}

-- every stream of the store is sound
abbrev pub AreSound : StoreState → Type 0
AreSound store = (stream : StreamId) (d : StreamData) → get stream store ≡ some d → IsSound d

insert-AreSound :
    (store : StoreState) (s : StreamId) (d : StreamData)
    → AreSound store
    → IsSound d
    → AreSound (insert s d store)
insert-AreSound store s d all sound t e h =
    let k : (if same_stream s t then some d else get t store) ≡ some e =
      sym (get-insert s t d store) ∙ h in
    elim (Bool-cases (same_stream s t)) [
      | inl y ↦
          let found : some d ≡ some e = rw y at k in let eq : d ≡ e = cc in subst IsSound eq sound
      | inr n ↦ all t e (rw n at k)
    ]

-- One operation that succeeds, at any time and for any stream. A poll meets a node whose answers fit
-- what it was asked, and whose head lies below the last u64.
pub data Step (store : StoreState) : StoreState → Type 0 where
  ensured :
      (config : TransferLogStreamConfig) (now : OffsetDateTime) {s : StreamState}
      {next : StoreState}
      → ensure_stream config now store ≡ ok (s, next)
      → Step store next
  polled :
      (source : Source) (stream : StreamId) (now : OffsetDateTime) {o : PollOutcome}
      {next : StoreState}
      → IsHonest source
      → ((config : TransferLogStreamConfig) (t : ℕ)
          → resolve_target source config ≡ ok t
          → t + 1 < u64_end)
      → poll_once source stream now store ≡ ok (o, next)
      → Step store next
  rewound_to :
      (stream : StreamId) (block : ℕ) (now : OffsetDateTime) {next : StoreState}
      → rewind_to stream block now store ≡ ok (tt, next)
      → Step store next
  pruned :
      (stream : StreamId) (floor_block : ℕ) (now : OffsetDateTime)
      → Step store (prune_before_block stream floor_block now store)

pub data Reachable : StoreState → Type 0 where
  empty_store : Reachable []
  after : {store next : StoreState} → Reachable store → Step store next → Reachable next

done_inj :
    {A : Type 0} (r : Done A) {a b : A} {s t : StoreState} → r ≡ ok (a, s) → r ≡ ok (b, t) → s ≡ t
done_inj r e h = cc

module _ (store : StoreState) (all : AreSound store) where
  found-IsSound : (stream : StreamId) {d : StreamData} → find store stream ≡ ok d → IsSound d
  found-IsSound stream {d} h =
      all stream d (ok_or-ok (get stream store) (stream_not_found stream) h)

  update-AreSound :
      (config : TransferLogStreamConfig) (now : OffsetDateTime) (existing : StreamData)
      (conflict : Option TransferLogStreamConfigIdentityConflict) {s : StreamState}
      {next : StoreState}
      → IsSound existing
      → update_stream config now store existing conflict ≡ ok (s, next)
      → AreSound next
  update-AreSound config now existing (some conflict) sound h = cc
  update-AreSound config now existing none sound h =
      subst AreSound (done_inj _ refl h)
        (insert-AreSound store (stream_id config) (reconfigured config now existing) all sound)

  ensure-AreSound :
      (config : TransferLogStreamConfig) (now : OffsetDateTime) (o : Option StreamData)
      {s : StreamState} {next : StoreState}
      → get (stream_id config) store ≡ o
      → ensure_found config now store o ≡ ok (s, next)
      → AreSound next
  ensure-AreSound config now none e h = subst AreSound (done_inj _ refl h) (
      insert-AreSound store (stream_id config) (new_stream config now) all
        (new_stream-IsSound config now))
  ensure-AreSound config now (some existing) e h =
      update-AreSound config now existing (identity_conflict config existing.config)
        (all (stream_id config) existing e) h

  prune-AreSound :
      (stream : StreamId) (floor_block : ℕ) (now : OffsetDateTime) (o : Option StreamData)
      → get stream store ≡ o
      → AreSound (prune_found stream floor_block now store o)
  prune-AreSound stream floor_block now none e = all
  prune-AreSound stream floor_block now (some d) e =
      insert-AreSound store stream (apply_retention_cleanup d floor_block now) all
        (apply_retention_cleanup-IsSound d floor_block now (all stream d e))

  Step-AreSound : {next : StoreState} → Step store next → AreSound next
  unfolding ensure_stream poll_once rewind_to prune_before_block
  Step-AreSound (ensured config now h) =
      let (_, _, k) =
        >>=-eq-ok _ (λ _. ensure_found config now store (get (stream_id config) store)) h in
      ensure-AreSound config now (get (stream_id config) store) refl k
  Step-AreSound (polled source stream now honest heads h) =
      let (d, e, k) = >>=-eq-ok (find store stream) _ h in
      let (p, ep, k') = >>=-eq-ok (poll_stream source stream d now) _ k in
      let sound =
        poll_stream-IsSound source honest stream d now (found-IsSound stream e) (heads d.config)
          ep in
      subst AreSound (done_inj _ refl k') (insert-AreSound store stream p.1 all sound)
  Step-AreSound (rewound_to stream block now h) =
      let (d, e, k) = >>=-eq-ok (find store stream) _ h in
      let to = max block d.config.start_block in
      subst AreSound (done_inj _ refl k) (
        insert-AreSound store stream (apply_rewind d to now) all
          (apply_rewind-IsSound d to now (found-IsSound stream e)))
  Step-AreSound (pruned stream floor_block now) =
      prune-AreSound stream floor_block now (get stream store) refl

empty-AreSound : AreSound []
unfolding get
empty-AreSound stream d h = cc

-- Whatever operations on an empty store have led to a store, in any order, each of its streams is sound,
-- provided that in every poll the node answered with the block that was asked for and with logs of the
-- range that was asked for, and the target to read up to lay below the last u64 for every configuration.
-- Sound means that headers and logs rise, a log stands under its token and in a stored block with its
-- hash and time, nothing lies at or behind the next block to read, and the published cursor is the
-- cursor.
pub Reachable-AreSound : {store : StoreState} → Reachable store → AreSound store
Reachable-AreSound empty_store = empty-AreSound
Reachable-AreSound (after r step) = Step-AreSound _ (Reachable-AreSound r) step
