-- ===== src/Rpc/Agreed.antt =====
-- The check of the hashes at the end of a request.
use pay.Rpc.Texts.{join}
use pay.Common.{
  ℕ, ◌<◌, ◌≡◌, ◌≢◌, refl, ◌⊎◌, inl, inr, List, [], ◌∷◌, ◌++◌, Result, ok, err, Option, none, some,
  length, take, max, ◌==◌, if◌then◌else◌, Bool-cases, arith, ◌>>=◌, ap, ==_iff, sym, subst,
  append-nil, append_assoc,
}
use pay.Common.Uint.{Text}
use pay.Common.Strings.{codes}
use pay.Common.Maps.{Map, get, nat_ord}
use pay.Domain.Chain.{BlockHash}
use pay.LogStore.Source.{ChainError, provider_hash_mismatch, rpc_unavailable}
use pay.Rpc.Health.{Instant}
use pay.Rpc.Blocks.{ProviderBlock, Readers, compared, compare_from, ensure_consistent_block_hashes}
use pay.Rpc.Manager.{RpcProviderManager, provider_candidates}
use pay.Rpc.Heads.{request_blocks, none_answered}
use pay.Rpc.Consistent.{AreConsistent, ensure_consistent_block_hashes_iff}
use pay.Rpc.Request.{blocks_answered, absences, taken_lem}

-- the error that two providers disagree
abbrev pub IsMismatch : Text → ChainError → Type 0
IsMismatch context e =
    (p : Text) × (h : BlockHash) × (q : Text) × (k : BlockHash) × (e
      ≡ provider_hash_mismatch context p h q k)

module _ (context : Text) where
  compared_err :
      (b : ProviderBlock) (hashes : Map ℕ ProviderBlock) (o : Option ProviderBlock) {e : ChainError}
      → compared context b hashes o ≡ err e
      → IsMismatch context e
  compared_err b hashes none h = cc
  compared_err b hashes (some x) h = elim (Bool-cases (x.block.hash == b.block.hash)) [
    | inl y ↦ let lost : ok hashes ≡ err _ = rw y at h in cc
    | inr n ↦ (x.provider_id, x.block.hash, b.provider_id, b.block.hash, ground (arith, n, h))
  ]

  then_err :
      (r : Result (Map ℕ ProviderBlock) ChainError)
      (rest : Map ℕ ProviderBlock → Result (Unit {0}) ChainError) {e : ChainError}
      → ((x : ChainError) → r ≡ err x → IsMismatch context x)
      → ((next : Map ℕ ProviderBlock) → rest next ≡ err e → IsMismatch context e)
      → (r >>= rest) ≡ err e
      → IsMismatch context e
  then_err (ok next) rest first later h = later next h
  then_err (err x) rest {e} first later h = let same : x ≡ e = cc in first e (ap err same)

  compare_err :
      (hashes : Map ℕ ProviderBlock) (bs : List ProviderBlock) {e : ChainError}
      → compare_from context hashes bs ≡ err e
      → IsMismatch context e
  unfolding compare_from
  compare_err hashes [] h = cc
  compare_err hashes (b ∷ bs) h =
      then_err (compared context b hashes (get b.block.number hashes))
        (λ next. compare_from context next bs)
        (λ x e. compared_err b hashes (get b.block.number hashes) {e = x} e)
        (λ next. compare_err next bs) h

  -- what the check makes of some blocks
  abbrev pub Checked : List ProviderBlock → Result (List ProviderBlock) ChainError → Type 0
  Checked blocks result =
      AreConsistent blocks × (result ≡ ok blocks)
      ⊎ (¬ AreConsistent blocks) × (e : ChainError) × (result ≡ err e) × IsMismatch context e

  checked :
      (blocks : List ProviderBlock) (check : Result (Unit {0}) ChainError)
      → ensure_consistent_block_hashes context blocks ≡ check
      → Checked blocks (check >>= λ _. ok blocks)
  unfolding ensure_consistent_block_hashes
  checked blocks (ok tt) h = inl ((ensure_consistent_block_hashes_iff context blocks).0 h, refl)
  checked blocks (err e) h = inr (
    λ same. let passed = (ensure_consistent_block_hashes_iff context blocks).1 same in cc,
    e,
    refl,
    compare_err [] blocks h,
  )

-- the error of a request that no candidate answered with a block, where `absent` of them have none
abbrev pub Refused : Text → ChainError → ℕ → ℕ → Result (List ProviderBlock) ChainError → Type 0
Refused context not_found absent asked result =
    (absent ≡ asked) × (result ≡ err not_found)
    ⊎ (absent ≢ asked)
      × (reasons : Text) × (result
          ≡ err (rpc_unavailable (codes "no RPC provider returned " ++ context ++ reasons)))

refused_lem :
    (context : Text) (not_found : ChainError) (absent asked : ℕ) (errors : List Text)
    → Refused context not_found absent asked
        (err (if absent == asked then not_found else none_answered context errors))
refused_lem context not_found absent asked errors = elim (Bool-cases (absent == asked)) [
  | inl y ↦ rw y (inl ((==_iff absent asked).0 y, refl))
  | inr n ↦ let (r, eq) = reasons errors in rw n (inr (ground arith, r, eq))
]
  where
    reasons :
        (es : List Text)
        → (r : Text) × (◌≡◌ {A = Result (List ProviderBlock) ChainError}
            (err (none_answered context es))
            (err (rpc_unavailable (codes "no RPC provider returned " ++ context ++ r))))
    reasons [] = (
      [],
      ap (λ t. err (rpc_unavailable t))
          (sym (append-nil (codes "no RPC provider returned " ++ context))),
    )
    reasons (e ∷ es) = (
      codes ": " ++ join (e ∷ es),
      ap (λ t. err (rpc_unavailable t))
          (append_assoc (codes "no RPC provider returned " ++ context) (codes ": ")
            (join (e ∷ es))),
    )

-- A request whose candidates answer with a block or more takes the first of those blocks, up to the
-- number of providers required and at least one, in the order of the candidates. It returns them if they
-- have one hash for each number, and otherwise fails with a disagreement of two providers. A request
-- that no candidate answers with a block fails: with the error of the caller if all candidates say that
-- there is no such block, and otherwise with the error that none returned it.
pub request_blocks_lem :
    {Value : Type 0} (readers : Readers Value) (m : RpcProviderManager) (now : Instant)
    (answer : ℕ → Result Value ChainError) (at : ℕ → Instant) (context : Text)
    (not_found : ChainError)
    → let asked = (provider_candidates m now).0 in
      let blocks = blocks_answered readers answer m.providers asked in
      let result = (request_blocks readers m now answer at context not_found).0 in
      (0 < length blocks → Checked context (take (max 1 m.min_provider_count) blocks) result)
      × (blocks ≡ []
          → Refused context not_found
              (absences readers answer m.providers asked)
              (length asked)
              result)
request_blocks_lem readers m now answer at context not_found =
    let asked = (provider_candidates m now).0 in
    let (right, wrong) = taken_lem readers m now answer at context not_found in
    let taken =
      take (max 1 m.min_provider_count) (blocks_answered readers answer m.providers asked) in
    (
      λ n.
          subst (Checked context taken) (sym (right n))
            (checked context taken (ensure_consistent_block_hashes context taken) refl),
      λ e.
          let (errors, r) = wrong e in
          subst
            (Refused context not_found (absences readers answer m.providers asked) (length asked))
            (sym r) (refused_lem context not_found _ (length asked) errors),
    )
