-- ===== src/LogStore/Paging.antt =====
-- Walking the pages of a stream, each behind the last token of the one before.
use pay.Common.{
  ℕ, zero, suc, ◌<◌, ◌≡◌, refl, sym, ap, ◌∙◌, true, false, not, Option, none, some, List, [], ◌∷◌,
  ◌++◌, arith, All, filter, take, drop, length, take-append-drop, Bool-cases, inl, inr, length-drop,
}
use pay.Common.Maps.{Map, values}
use pay.Common.Maps.Laws.{IsRising, IsBehind, filter-IsRising, All-filter}
use pay.Ledger.{
  StreamId, StoredTransferLog, LogPageToken, token_less, token_ord, page_token, token_less_trans,
  token_less_irrefl,
}
use pay.LogStore.Pages.{is_passed, page_logs, last_token, page_of}

abbrev pub Logs : Type 0
Logs = Map LogPageToken StoredTransferLog

-- each log stands under its own token
abbrev pub IsKeyed : Logs → Type 0
IsKeyed = All (λ e. e.0 ≡ page_token e.1)

-- what lies behind a token
abbrev pub behind : Option LogPageToken → Logs → Logs
behind after m = filter (λ e. not (is_passed after e.0)) m

page_logs_lem :
    (after : Option LogPageToken) (room : ℕ) (m : Logs)
    → page_logs after room m ≡ values (take room (behind after m))
unfolding page_logs
page_logs_lem after zero [] = refl
page_logs_lem after (suc r) [] = refl
page_logs_lem after zero ((k, log) ∷ m) = elim (Bool-cases (is_passed after k)) [
  | inl e ↦ rw (e, page_logs) (page_logs_lem after zero m)
  | inr e ↦ rw (e, page_logs) refl
]
page_logs_lem after (suc r) ((k, log) ∷ m) = elim (Bool-cases (is_passed after k)) [
  | inl e ↦ rw (e, page_logs) (page_logs_lem after (suc r) m)
  | inr e ↦ rw (e, page_logs) (ap (λ r. log ∷ r) (page_logs_lem after r m))
]

behind-All : (t : LogPageToken) (m : Logs) → All (IsBehind t) m → behind (some t) m ≡ m
behind-All t [] h = refl
behind-All t (e ∷ m) h = rw h.0 (ap (λ r. e ∷ r) (behind-All t m h.1))

-- What lies behind a later token lies behind an earlier one.
behind-behind :
    (after : Option LogPageToken) (t : LogPageToken) (m : Logs)
    → is_passed after t ≡ false
    → behind (some t) m ≡ behind (some t) (behind after m)
behind-behind after t [] h = refl
behind-behind none t (e ∷ m) h = ground (arith, behind-behind none t m h)
behind-behind (some a) t (e ∷ m) h =
    ground (arith, behind-behind (some a) t m h, token_less_trans a t e.0)

-- the keys of entries that are not passed are not passed
behind-not-passed :
    (after : Option LogPageToken) (m : Logs)
    → All (λ e. is_passed after e.0 ≡ false) (behind after m)
behind-not-passed after [] = tt
behind-not-passed after (e ∷ m) = elim (Bool-cases (is_passed after e.0)) [
  | inl y ↦ rw y (behind-not-passed after m)
  | inr n ↦ rw n (n, behind-not-passed after m)
]

-- The token of a page is the key of one of its entries: what holds of all keys holds of it.
last_token-All {ℓ} :
    (P : LogPageToken → Type ℓ) (r : ℕ) (e : LogPageToken × StoredTransferLog) (m : Logs)
    → IsKeyed (e ∷ m)
    → All (λ e. P e.0) (e ∷ m)
    → (t : LogPageToken) × (last_token (values (take (suc r) (e ∷ m))) ≡ some t) × P t
last_token-All P zero e m k h = (page_token e.1, refl, rw k.0 at h.0)
last_token-All P (suc r) e [] k h = (page_token e.1, refl, rw k.0 at h.0)
last_token-All P (suc r) e (e' ∷ m) k h = last_token-All P r e' m k.1 h.1

-- a token that does not lie behind `t`, in front
behind-skip :
    (t : LogPageToken) (e : LogPageToken × StoredTransferLog) (m : Logs)
    → token_less t e.0 ≡ false
    → behind (some t) (e ∷ m) ≡ behind (some t) m
behind-skip t e m h = rw h refl

less_asym : (a b : LogPageToken) → token_less a b ≡ true → token_less b a ≡ false
less_asym a b h = ground arith

behind_self :
    (t : LogPageToken) (e : LogPageToken × StoredTransferLog) (m : Logs)
    → e.0 ≡ t
    → All (IsBehind e.0) m
    → behind (some t) (e ∷ m) ≡ m
behind_self t e m eq h =
    let self : token_less t e.0 ≡ false = rw eq (token_less_irrefl t) in
    behind-skip t e m self ∙ behind-All t m (rw eq at h)

-- Behind the token of a page lies what the page left.
behind-last :
    (r : ℕ) (e : LogPageToken × StoredTransferLog) (m : Logs) (t : LogPageToken)
    → IsKeyed (e ∷ m)
    → IsRising (e ∷ m)
    → last_token (values (take (suc r) (e ∷ m))) ≡ some t
    → behind (some t) (e ∷ m) ≡ drop r m
behind-last zero e m t k s h = behind_self t e m (cc) s.0
behind-last (suc r) e [] t k s h = behind_self t e [] (cc) tt
behind-last (suc r) e (e' ∷ m) t k s h =
    let (t', et, lt) = last_token-All (λ x. token_less e.0 x ≡ true) r e' m k.1 s.0 in
    let eq : t' ≡ t = cc in
    behind-skip t e (e' ∷ m) (less_asym e.0 t (rw eq at lt)) ∙ behind-last r e' m t k.1 s.1 h

behind-none : (m : Logs) → behind none m ≡ m
behind-none [] = refl
behind-none (e ∷ m) = ap (λ r. e ∷ r) (behind-none m)

-- the pages behind a page: none, where the page names no token
abbrev pub walk_on :
    (Option LogPageToken → List StoredTransferLog) → Option LogPageToken → List StoredTransferLog
walk_on walk none = []
walk_on walk (some token) = walk (some token)

-- The logs of the pages from `after` on, `limit` at most to a page, `n` pages at most: `logs_page`
-- called until a page names no token.
unfoldable pub walk_pages : StreamId → ℕ → Logs → ℕ → Option LogPageToken → List StoredTransferLog
walk_pages stream limit m zero after = []
walk_pages stream limit m (suc n) after =
    let page = page_of stream after limit m in
    page.logs ++ walk_on (walk_pages stream limit m n) page.next_token

values-append : (a b : Logs) → values (a ++ b) ≡ values a ++ values b
values-append [] b = refl
values-append (e ∷ a) b = ap (λ r. e.1 ∷ r) (values-append a b)

module _ (stream : StreamId) (limit : ℕ) (m : Logs) (keyed : IsKeyed m) (rising : IsRising m) where
  walk-step :
      (n : ℕ) (after : Option LogPageToken) (b : Logs)
      → behind after m ≡ b
      → walk_pages stream (suc limit) m (suc n) after
        ≡ values (take (suc limit) b)
          ++ walk_on (walk_pages stream (suc limit) m n) (last_token (values (take (suc limit) b)))
  unfolding walk_pages page_of
  walk-step n after b e =
      let p : page_logs after (suc limit) m ≡ values (take (suc limit) b) =
        page_logs_lem after (suc limit) m ∙ rw e refl in
      ap (λ logs. logs ++ walk_on (walk_pages stream (suc limit) m n) (last_token logs)) p

  walk_from :
      (n : ℕ) (after : Option LogPageToken) (b : Logs)
      → behind after m ≡ b
      → length b < n
      → walk_pages stream (suc limit) m n after ≡ values b
  walk_from zero after b e h = absurd (omega arith)
  walk_from (suc n) after [] e h = walk-step n after [] e
  walk_from (suc n) after (x ∷ b) e h =
      let keys : IsKeyed (x ∷ b) =
        rw e at (All-filter _ (λ e. not (is_passed after e.0)) m keyed) in
      let rise : IsRising (x ∷ b) =
        rw e at (filter-IsRising (λ e. not (is_passed after e.0)) m rising) in
      let ahead : All (λ e. is_passed after e.0 ≡ false) (x ∷ b) =
        rw e at (behind-not-passed after m) in
      let (t, et, later) = last_token-All (λ k. is_passed after k ≡ false) limit x b keys ahead in
      let left : behind (some t) m ≡ drop limit b =
        behind-behind after t m later ∙ rw e (behind-last limit x b t keys rise et) in
      let rest = walk_from n (some t) (drop limit b) left (omega (arith, length-drop limit b)) in
      walk-step n after (x ∷ b) e
      ∙ rw (et, rest)
          (sym (values-append (take (suc limit) (x ∷ b)) (drop limit b))
            ∙ ap values (take-append-drop (suc limit) (x ∷ b)))

  -- The pages, one behind the token of the other, hand out each stored log once, in order, however
  -- small the pages are; the walk ends after a page more than there are logs.
  pub walk_pages_lem : (n : ℕ) → length m < n → walk_pages stream (suc limit) m n none ≡ values m
  walk_pages_lem n h = walk_from n none m (behind-none m) h
