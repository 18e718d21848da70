-- ===== src/LogStore/Complete.antt =====
-- The block up to which a page calls itself complete.
use pay.Common.{
  ℕ, ◌≤◌, ◌<◌, ◌≡◌, refl, true, false, Option, none, some, [], ◌∷◌, arith, All, Bool-cases, inl,
  inr, Has, List, zero, suc, ◌⊎◌, All-imp, sym, ◌∙◌, subst,
}
use pay.Common.Maps.Laws.{IsRising, IsBehind}
use pay.Ledger.{StreamId, StoredTransferLog, LogPageToken, token_less, token_ord, page_token}
use pay.LogStore.Pages.{
  page_logs, last, first_behind, any_behind, complete_to_block, more_behind, page_of, block_of_next,
  token_of, is_passed, last_token,
}
use pay.LogStore.Paging.{Logs, IsKeyed}

-- what is stored of the blocks up to `b` does not lie behind `t`
abbrev pub IsHandedOut : LogPageToken → ℕ → LogPageToken × StoredTransferLog → Type 0
IsHandedOut t b e = e.1.block_number ≤ b → token_less t e.0 ≡ false

none_behind :
    (t : LogPageToken) (b : ℕ) (m : Logs) → any_behind t m ≡ false → All (IsHandedOut t b) m
unfolding any_behind
none_behind t b [] h = tt
none_behind t b (e ∷ m) h = (λ _. ground arith, none_behind t b m (ground arith))

-- the logs behind an entry have its block or a later one
later_blocks :
    (t : LogPageToken) (b : ℕ) (e : LogPageToken × StoredTransferLog) (m : Logs)
    → IsKeyed (e ∷ m)
    → All (IsBehind e.0) m
    → b < e.1.block_number
    → All (IsHandedOut t b) m
later_blocks t b e [] k s lt = tt
later_blocks t b e (e' ∷ m) k s lt =
    let behind : token_less (page_token e.1) (page_token e'.1) ≡ true = rw (k.0, k.1.0) at s.0 in
    let above : b < e'.1.block_number = ground arith in
    (λ le. absurd (omega arith), later_blocks t b e m (k.0, k.1.1) s.1 lt)

-- the first entry behind `t` has the least block of those behind
least_behind :
    (t : LogPageToken) (b : ℕ) (m : Logs) (next : StoredTransferLog)
    → IsKeyed m
    → IsRising m
    → first_behind t m ≡ some next
    → b < next.block_number
    → All (IsHandedOut t b) m
unfolding first_behind
least_behind t b [] next k s h lt = tt
least_behind t b (e ∷ m) next k s h lt = elim (Bool-cases (token_less t e.0)) [
  | inl y ↦
      let found : some e.1 ≡ some next = rw y at h in
      let eq : e.1 ≡ next = cc in
      let lt' : b < e.1.block_number = rw eq lt in
      (λ le. absurd (omega arith), later_blocks t b e m k s.0 lt')
  | inr n ↦ (λ _. n, least_behind t b m next k.1 s.1 (rw n at h) lt)
]

none_found :
    (t : LogPageToken) (b : ℕ) (m : Logs) → first_behind t m ≡ none → All (IsHandedOut t b) m
unfolding first_behind
none_found t b [] h = tt
none_found t b (e ∷ m) h = elim (Bool-cases (token_less t e.0)) [
  | inl y ↦ let found : some e.1 ≡ none = rw y at h in cc
  | inr n ↦ (λ _. n, none_found t b m (rw n at h))
]

first_behind-token :
    (t : LogPageToken) (m : Logs) (next : StoredTransferLog)
    → IsKeyed m
    → first_behind t m ≡ some next
    → token_less t (page_token next) ≡ true
unfolding first_behind
first_behind-token t [] next k h = cc
first_behind-token t (e ∷ m) next k h = elim (Bool-cases (token_less t e.0)) [
  | inl y ↦
      let found : some e.1 ≡ some next = rw y at h in
      let eq : e.1 ≡ next = cc in
      let below : token_less t (page_token e.1) ≡ true = rw k.0 at y in rw eq at below
  | inr n ↦ first_behind-token t m next k.1 (rw n at h)
]

-- a page that ends before the next stored log
ends_before :
    (log next : StoredTransferLog) (b : ℕ)
    → token_less (page_token log) (page_token next) ≡ true
    → block_of_next log (some next) ≡ some b
    → b < next.block_number
ends_before log next b l h = ground arith

found_cases :
    (log : StoredTransferLog) (m : Logs) (b : ℕ) (o : Option StoredTransferLog)
    → IsKeyed m
    → IsRising m
    → first_behind (page_token log) m ≡ o
    → block_of_next log o ≡ some b
    → All (IsHandedOut (page_token log) b) m
found_cases log m b none k s e h = none_found (page_token log) b m e
found_cases log m b (some next) k s e h =
    least_behind (page_token log) b m next k s e
      (ends_before log next b (first_behind-token (page_token log) m next k e) h)

complete_cases :
    (o : Option StoredTransferLog) (m : Logs) (b : ℕ)
    → IsKeyed m
    → IsRising m
    → complete_to_block o m (more_behind (token_of o) m) ≡ some b
    → (t : LogPageToken) × (token_of o ≡ some t) × All (IsHandedOut t b) m
unfolding complete_to_block
complete_cases none m b k s h = cc
complete_cases (some log) m b k s h = elim (Bool-cases (any_behind (page_token log) m)) [
  | inl y ↦ (
    page_token log,
    refl,
    found_cases log m b (first_behind (page_token log) m) k s refl (rw y at h),
  )
  | inr n ↦ (page_token log, refl, none_behind (page_token log) b m n)
]

-- an entry that the caller has passed, by the token that it gave
abbrev pub WasPassed : Option LogPageToken → LogPageToken → Type 0
WasPassed none token = ⊥
WasPassed (some after) token = token_less after token ≡ false

is_passed_inv :
    (after : Option LogPageToken) (token : LogPageToken)
    → is_passed after token ≡ true
    → WasPassed after token
is_passed_inv none token h = cc
is_passed_inv (some after) token h = ground arith

-- an entry that is not behind `t` was passed or is on the page
abbrev IsServed :
    Option LogPageToken
    → List StoredTransferLog
    → LogPageToken
    → LogPageToken × StoredTransferLog
    → Type 0
IsServed after logs t e = token_less t e.0 ≡ false → WasPassed after e.0 ⊎ Has e.1 logs

-- the entries behind the first one of a page, where `rest` follows it on the page
behind-IsServed :
    (after : Option LogPageToken) (e : LogPageToken × StoredTransferLog) (m : Logs)
    (rest : List StoredTransferLog) {t : LogPageToken}
    → e.0 ≡ page_token e.1
    → All (IsBehind e.0) m
    → (last_token rest ≡ some t → All (IsServed after rest t) m)
    → last_token (e.1 ∷ rest) ≡ some t
    → All (IsServed after (e.1 ∷ rest) t) m
behind-IsServed after e m [] {t} k s ih h =
    let own : e.0 ≡ t = cc in
    All-imp _ _ m
      (λ e' l n.
        let l' : token_less t e'.0 ≡ true = rw own at l in
        let lost : true ≡ false = sym l' ∙ n in cc)
      s
behind-IsServed after e m (x ∷ xs) k s ih h =
    All-imp _ _ m (λ e' served n. elim (served n) [ inl p ↦ inl p | inr on ↦ inr (inr on) ]) (ih h)

page_passed :
    (after : Option LogPageToken) (room : ℕ) (e : LogPageToken × StoredTransferLog) (m : Logs)
    → is_passed after e.0 ≡ true
    → page_logs after room (e ∷ m) ≡ page_logs after room m
unfolding page_logs
page_passed after room e m y = rw (y, page_logs) refl

page_full :
    (after : Option LogPageToken) (e : LogPageToken × StoredTransferLog) (m : Logs)
    → is_passed after e.0 ≡ false
    → page_logs after zero (e ∷ m) ≡ []
unfolding page_logs
page_full after e m n = rw (n, page_logs) refl

page_next :
    (after : Option LogPageToken) (r : ℕ) (e : LogPageToken × StoredTransferLog) (m : Logs)
    → is_passed after e.0 ≡ false
    → page_logs after (suc r) (e ∷ m) ≡ e.1 ∷ page_logs after r m
unfolding page_logs
page_next after r e m n = rw (n, page_logs) refl

IsServed-passed :
    (after : Option LogPageToken) (room : ℕ) (e : LogPageToken × StoredTransferLog) (m : Logs)
    {t : LogPageToken}
    → is_passed after e.0 ≡ true
    → (last_token (page_logs after room m) ≡ some t
        → All (IsServed after (page_logs after room m) t) m)
    → last_token (page_logs after room (e ∷ m)) ≡ some t
    → All (IsServed after (page_logs after room (e ∷ m)) t) (e ∷ m)
IsServed-passed after room e m {t} y ih h =
    let eq = page_passed after room e m y in
    subst (λ logs. All (IsServed after logs t) (e ∷ m)) (sym eq)
      (λ n. inl (is_passed_inv after e.0 y), ih (subst (λ logs. last_token logs ≡ some t) eq h))

nothing_last : {t : LogPageToken} → last_token [] ≡ some t → ⊥
nothing_last h = cc

served :
    (after : Option LogPageToken) (room : ℕ) (m : Logs) {t : LogPageToken}
    → IsKeyed m
    → IsRising m
    → last_token (page_logs after room m) ≡ some t
    → All (IsServed after (page_logs after room m) t) m
served after room [] k s h = tt
served after zero (e ∷ m) {t} k s h = elim (Bool-cases (is_passed after e.0)) [
  | inl y ↦ IsServed-passed after zero e m y (served after zero m k.1 s.1) h
  | inr n ↦
      absurd (nothing_last (subst (λ logs. last_token logs ≡ some t) (page_full after e m n) h))
]
served after (suc r) (e ∷ m) {t} k s h = elim (Bool-cases (is_passed after e.0)) [
  | inl y ↦ IsServed-passed after (suc r) e m y (served after (suc r) m k.1 s.1) h
  | inr n ↦
      let eq = page_next after r e m n in
      subst (λ logs. All (IsServed after logs t) (e ∷ m)) (sym eq)
        (
          λ l. inr (inl refl),
          behind-IsServed after e m (page_logs after r m) k.0 s.0 (served after r m k.1 s.1)
              (subst (λ logs. last_token logs ≡ some t) eq h),
        )
]

both-All :
    (P Q R : LogPageToken × StoredTransferLog → Type 0) (m : Logs)
    → ((x : LogPageToken × StoredTransferLog) → P x → Q x → R x)
    → All P m
    → All Q m
    → All R m
both-All P Q R [] f h k = tt
both-All P Q R (x ∷ m) f h k = (f x h.0 k.0, both-All P Q R m f h.1 k.1)

-- What is stored of the blocks up to the one that a page names as complete is on the page, or was passed
-- before it by the token that the caller gave; nothing of it lies behind the token of the page, from
-- which the next page starts.
pub page_complete :
    (stream : StreamId) (after : Option LogPageToken) (room : ℕ) (m : Logs) {b : ℕ}
    → IsKeyed m
    → IsRising m
    → let page = page_of stream after room m in
      page.complete_to_block ≡ some b
      → All (λ e. e.1.block_number ≤ b → WasPassed after e.0 ⊎ Has e.1 page.logs) m
        × (t : LogPageToken) × (page.next_token ≡ some t)
        × All (IsHandedOut t b) m
unfolding page_of
page_complete stream after room m {b} k s h =
    let (t, e, out) = complete_cases (last (page_logs after room m)) m b k s h in
    (
      both-All _ _ _ m (λ x first second le. second (first le)) out (served after room m k s e),
      t,
      e,
      out,
    )
