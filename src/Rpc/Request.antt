-- ===== src/Rpc/Request.antt =====
-- `request_blocks` against its description: of the blocks that the candidates answer, in their order,
-- it takes the first ones up to the number of providers required.
use pay.Rpc.Texts.{is_provider_health_failure}
use pay.Common.{
  ℕ, zero, suc, ◌+◌, ◌≤◌, ◌<◌, ◌≡◌, refl, sym, ◌∙◌, ap, List, [], ◌∷◌, ◌++◌, Result, err, arith,
  length, leb, if◌then◌else◌, Bool-cases, inl, inr, take, max, take-length-append, length-append,
  append_assoc, append-nil, subst, leb→le, ◌==◌, ok, true, false, Bool,
}
use pay.Common.Uint.{Text}
use pay.Common.Strings.{is_empty}
use pay.LogStore.Source.{ChainError, block_not_found}
use pay.Rpc.Health.{Instant, ManagedRpcProvider, RpcProviderHealth, record_failure, record_success}
use pay.Rpc.Blocks.{ProviderBlock, Readers, parse_block}
use pay.Rpc.Manager.{id_at, set_health, failed_with, RpcProviderManager, provider_candidates}
use pay.Rpc.Heads.{
  Asked, Kind, absent, found, malformed, refused, kind_of, request_blocks_from, after_loop,
  consistent, not_found_at, with_block, Reply, round, none_answered, request_blocks, parsed_kind,
}

take_long {ℓ} : {A : Type ℓ} (k : ℕ) (xs : List A) → length xs ≤ k → take k xs ≡ xs
take_long zero [] h = refl
take_long zero (x ∷ xs) h = absurd (omega arith)
take_long (suc k) [] h = refl
take_long (suc k) (x ∷ xs) h = ap (λ r. x ∷ r) (take_long k xs (omega arith))

-- the providers have the same identifiers
abbrev pub SameIds : List ManagedRpcProvider → List ManagedRpcProvider → Type 0
SameIds ps qs = (i : ℕ) → id_at i qs ≡ id_at i ps

id_at-set_health :
    (f : RpcProviderHealth → RpcProviderHealth) (j : ℕ) (ps : List ManagedRpcProvider) (i : ℕ)
    → id_at i (set_health f j ps) ≡ id_at i ps
id_at-set_health f j [] i = refl
id_at-set_health f zero (p ∷ ps) zero = refl
id_at-set_health f zero (p ∷ ps) (suc i) = refl
id_at-set_health f (suc j) (p ∷ ps) zero = refl
id_at-set_health f (suc j) (p ∷ ps) (suc i) = id_at-set_health f j ps i

abbrev pub block_of : Kind → List ProviderBlock
block_of (found b) = b ∷ []
block_of _ = []

if_filled {ℓ κ} :
    {A : Type ℓ} {B : Type κ} (xs : List A) (a : B) {b : B}
    → 0 < length xs
    → (if is_empty xs then a else b) ≡ b
if_filled [] a h = absurd (omega arith)
if_filled (x ∷ xs) a h = refl

abbrev pub counted : Kind → ℕ → ℕ
counted absent n = suc n
counted _ n = n

pub failed_with-ids :
    {Value : Type 0} (answer : ℕ → Result Value ChainError) (at : ℕ → Instant) (error : ChainError)
    (j : ℕ) (ps : List ManagedRpcProvider) (i : ℕ)
    → id_at i (failed_with answer at error j ps) ≡ id_at i ps
failed_with-ids answer at error j ps i = elim (Bool-cases (is_provider_health_failure error)) [
  | inl y ↦ rw y (id_at-set_health (λ h. record_failure h (at j)) j ps i)
  | inr n ↦ rw n refl
]

module _ {Value : Type 0} (readers : Readers Value) where
  abbrev parsed_blocks : Result ProviderBlock ChainError → List ProviderBlock
  parsed_blocks (ok b) = b ∷ []
  parsed_blocks (err error) = []

  -- the block of an answer, where it is one: no error, no null, and well formed
  abbrev pub block_answer : Result Value ChainError → Text → List ProviderBlock
  block_answer (err error) id = []
  block_answer (ok value) id =
      if readers.is_null value then [] else parsed_blocks (parse_block readers value id)

  -- an answer that there is no such block
  abbrev pub is_absent : Result Value ChainError → Bool
  is_absent (ok value) = readers.is_null value
  is_absent (err (block_not_found _)) = true
  is_absent (err _) = false

  block_of_parsed :
      (r : Result ProviderBlock ChainError) → block_of (parsed_kind readers r) ≡ parsed_blocks r
  block_of_parsed (ok b) = refl
  block_of_parsed (err error) = refl

  counted_parsed :
      (r : Result ProviderBlock ChainError) (n : ℕ) → counted (parsed_kind readers r) n ≡ n
  counted_parsed (ok b) n = refl
  counted_parsed (err error) n = refl

  block_of_kind :
      (r : Result Value ChainError) (id : Text)
      → block_of (kind_of readers r id) ≡ block_answer r id
  block_of_kind (ok value) id = elim (Bool-cases (readers.is_null value)) [
    | inl y ↦ rw y refl
    | inr n ↦ rw n (block_of_parsed (parse_block readers value id))
  ]
  block_of_kind (err error) id = ground arith

  counted_kind :
      (r : Result Value ChainError) (id : Text) (n : ℕ)
      → counted (kind_of readers r id) n ≡ (if is_absent r then suc n else n)
  counted_kind (ok value) id n = elim (Bool-cases (readers.is_null value)) [
    | inl y ↦ rw y refl
    | inr o ↦ rw o (counted_parsed (parse_block readers value id) n)
  ]
  counted_kind (err error) id n = ground arith

module _ {Value : Type 0} (readers : Readers Value) (answer : ℕ → Result Value ChainError)
    (ids : List ManagedRpcProvider) where
  -- the blocks that the candidates answer with
  abbrev pub blocks_answered : List ℕ → List ProviderBlock
  blocks_answered [] = []
  blocks_answered (i ∷ is) = block_answer readers (answer i) (id_at i ids) ++ blocks_answered is

  -- how many candidates say that there is no such block
  abbrev pub absences : List ℕ → ℕ
  absences [] = 0
  absences (i ∷ is) =
      let rest = absences is in if is_absent readers (answer i) then suc rest else rest

  module _ (at : ℕ → Instant) (required : ℕ) (context : Text) (not_found : ChainError)
      (count : ℕ) where
    abbrev loop : List ℕ → Asked → Result (List ProviderBlock) ChainError
    loop is s = (request_blocks_from readers answer at required context not_found count is s).0

    ending : (s : Asked) → 0 < length s.blocks → loop [] s ≡ consistent context s.blocks
    unfolding request_blocks_from after_loop
    ending s h = ap (λ (r : Reply). r.0) (if_filled s.blocks _ h)

    abbrev Continues : (Asked → Reply) → List ProviderBlock → Type 0
    Continues rest bs =
        (s : Asked)
        → SameIds ids s.providers
        → length s.blocks < max 1 required
        → 0 < length (s.blocks ++ bs)
        → (rest s).0 ≡ consistent context (take (max 1 required) (s.blocks ++ bs))

    round_lem :
        (i : ℕ) (kind : Kind) (rest : Asked → Reply) (bs : List ProviderBlock)
        → Continues rest bs
        → Continues
            (round readers answer at required context not_found count i kind rest)
            (block_of kind ++ bs)
    round_lem i absent rest bs c s same few h = c (not_found_at i s) same few h
    round_lem i (malformed error) rest bs c s same few h =
        c _ (λ j. id_at-set_health _ i s.providers j ∙ same j) few h
    round_lem i (refused error) rest bs c s same few h =
        c _ (λ j. failed_with-ids answer at error i s.providers j ∙ same j) few h
    round_lem i (found b) rest bs c s same few h =
        let n = length-append s.blocks (b ∷ []) in
        let grown : (s.blocks ++ b ∷ []) ++ bs ≡ s.blocks ++ b ∷ bs =
          append_assoc s.blocks (b ∷ []) bs in
        elim (Bool-cases (leb required (length (s.blocks ++ b ∷ [])))) [
          | inl y ↦
              let l = leb→le required (length (s.blocks ++ b ∷ [])) y in
              let full : length (s.blocks ++ b ∷ []) ≡ max 1 required = omega (arith, l, n, few) in
              rw y (
                ap (consistent context) (
                  sym (take-length-append (s.blocks ++ b ∷ []) bs)
                  ∙ ap (λ k. take k ((s.blocks ++ b ∷ []) ++ bs)) full
                  ∙ ap (take (max 1 required)) grown))
          | inr o ↦
              let l : length (s.blocks ++ b ∷ []) < required = ground (arith, o) in
              rw o (
                c (with_block i b s) (λ j. id_at-set_health record_success i s.providers j ∙ same j)
                  (omega (arith, l)) (omega (arith, n, length-append (s.blocks ++ b ∷ []) bs))
                ∙ ap (λ r. consistent context (take (max 1 required) r)) grown)
        ]

    loop_lem :
        (is : List ℕ)
        → Continues
            (request_blocks_from readers answer at required context not_found count is)
            (blocks_answered is)
    unfolding request_blocks_from
    loop_lem [] s same few h =
        let e = append-nil s.blocks in
        ending s (subst (λ r. 0 < length r) e h)
        ∙ ap (consistent context)
            (sym (ap (take (max 1 required)) e ∙ take_long _ s.blocks (omega arith)))
    loop_lem (i ∷ is) s same few h =
        let id = same i in
        let k = kind_of readers (answer i) (id_at i ids) in
        let looped =
          round_lem i k (request_blocks_from readers answer at required context not_found count is)
            (blocks_answered is) (loop_lem is) in
        let eq =
          ap (λ bs. bs ++ blocks_answered is) (block_of_kind readers (answer i) (id_at i ids)) in
        rw id (
          subst
            (λ bs.
              Continues
                (round readers answer at required context not_found count i k
                  (request_blocks_from readers answer at required context not_found count is))
                bs)
            eq looped s same few h)

    -- the error of a request without blocks, where `k` of the candidates left have no such block
    abbrev Refuses : (Asked → Reply) → List ProviderBlock → ℕ → Type 0
    Refuses rest bs k =
        (s : Asked)
        → SameIds ids s.providers
        → s.blocks ≡ []
        → bs ≡ []
        → (errors : List Text) × ((rest s).0
            ≡ err (
                if s.not_found_count + k == count then not_found else none_answered context errors))

    round-Refuses :
        (i : ℕ) (kind : Kind) (rest : Asked → Reply) (bs : List ProviderBlock) (k : ℕ)
        → Refuses rest bs k
        → Refuses
            (round readers answer at required context not_found count i kind rest)
            (block_of kind ++ bs)
            (counted kind k)
    round-Refuses i absent rest bs k c s same e none =
        let n : suc s.not_found_count + k ≡ s.not_found_count + suc k = omega arith in
        let (errors, r) = c (not_found_at i s) same e none in (errors, rw n at r)
    round-Refuses i (malformed error) rest bs k c s same e none =
        c _ (λ j. id_at-set_health _ i s.providers j ∙ same j) e none
    round-Refuses i (refused error) rest bs k c s same e none =
        c _ (λ j. failed_with-ids answer at error i s.providers j ∙ same j) e none
    round-Refuses i (found b) rest bs k c s same e none = cc

    loop-Refuses :
        (is : List ℕ)
        → Refuses
            (request_blocks_from readers answer at required context not_found count is)
            (blocks_answered is)
            (absences is)
    unfolding request_blocks_from after_loop
    loop-Refuses [] s same e none =
        let n : s.not_found_count + 0 ≡ s.not_found_count = omega arith in
        (s.errors, rw (e, n) refl)
    loop-Refuses (i ∷ is) s same e none =
        let id = same i in
        let k = kind_of readers (answer i) (id_at i ids) in
        let looped =
          round-Refuses i k
            (request_blocks_from readers answer at required context not_found count is)
            (blocks_answered is) (absences is) (loop-Refuses is) in
        let eq =
          ap (λ bs. bs ++ blocks_answered is) (block_of_kind readers (answer i) (id_at i ids)) in
        let counted_eq = counted_kind readers (answer i) (id_at i ids) (absences is) in
        rw id (
          rw counted_eq at
            (subst
              (λ bs.
                Refuses
                  (round readers answer at required context not_found count i k
                    (request_blocks_from readers answer at required context not_found count is))
                  bs (counted k (absences is)))
              eq looped)
            s same e none)

-- the blocks that a request checks, or its error where it has none
pub taken_lem :
    {Value : Type 0} (readers : Readers Value) (m : RpcProviderManager) (now : Instant)
    (answer : ℕ → Result Value ChainError) (at : ℕ → Instant) (context : Text)
    (not_found : ChainError)
    → let asked = (provider_candidates m now).0 in
      let blocks = blocks_answered readers answer m.providers asked in
      let result = (request_blocks readers m now answer at context not_found).0 in
      (0 < length blocks → result ≡ consistent context (take (max 1 m.min_provider_count) blocks))
      × (blocks ≡ []
          → (errors : List Text) × (result
              ≡ err (
                  if absences readers answer m.providers asked == length asked
                  then not_found
                  else none_answered context errors)))
unfolding request_blocks
taken_lem readers m now answer at context not_found =
    let asked = (provider_candidates m now).0 in
    let start : Asked = record {
      blocks = [];
      errors = [];
      not_found_count = 0;
      providers = m.providers;
    } in
    (
      λ h.
          loop_lem readers answer m.providers at m.min_provider_count context not_found
            (length asked) asked start (λ i. refl) (omega arith) h,
      λ h.
          let n : 0 + absences readers answer m.providers asked
              ≡ absences readers answer m.providers asked =
            omega arith in
          let (errors, r) =
            loop-Refuses readers answer m.providers at m.min_provider_count context not_found
              (length asked) asked start (λ i. refl) refl h in
          (errors, rw n at r),
    )
