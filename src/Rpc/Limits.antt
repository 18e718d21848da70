-- ===== src/Rpc/Limits.antt =====
-- The words by which the store knows that a range was too large survive the wrapping of the errors.
use pay.Rpc.Failover.{
  line_and, answer_or, first_answer, lines_before, first_reply, request_first_success_lem,
}
use pay.Rpc.Health.{ManagedRpcProvider, Instant}
use pay.Rpc.Manager.{
  line, id_at, ProviderValue, RpcProviderManager, provider_candidates, request_first_success,
}
use pay.Common.{
  ◌≡◌, refl, sym, ◌∙◌, ap, Bool, true, false, ◌||◌, List, [], ◌∷◌, ◌++◌, arith, Bool-cases, inl,
  inr, subst, append_assoc, append-nil, Option, none, Result, ok, err, ℕ,
}
use pay.Common.Uint.{Text}
use pay.Common.Strings.{codes}
use pay.LogStore.Source.{
  lower, is_prefix, has_part, any_part, limit_words, message_indicates_range_or_result_limit,
  to_lower, should_reduce_batch_on_error, rpc_unavailable, ChainError,
}
use pay.Rpc.Texts.{join, to_string}

lower-append : (s t : Text) → lower (s ++ t) ≡ lower s ++ lower t
lower-append [] t = refl
lower-append (c ∷ s) t = ap (λ r. to_lower c ∷ r) (lower-append s t)

is_prefix-append : (p s t : Text) → is_prefix p s ≡ true → is_prefix p (s ++ t) ≡ true
is_prefix-append [] s t h = refl
is_prefix-append (a ∷ p) [] t h = cc
is_prefix-append (a ∷ p) (c ∷ s) t h = ground (arith, is_prefix-append p s t)

has_part_nil : (t : Text) → has_part [] t ≡ true
has_part_nil [] = refl
has_part_nil (c ∷ t) = refl

has_part-append_right : (p s t : Text) → has_part p s ≡ true → has_part p (s ++ t) ≡ true
has_part-append_right [] [] t h = has_part_nil t
has_part-append_right (a ∷ p) [] t h = cc
has_part-append_right p (c ∷ s) t h =
    ground (arith, is_prefix-append p (c ∷ s) t, has_part-append_right p s t)

has_part-append_left : (p s t : Text) → has_part p t ≡ true → has_part p (s ++ t) ≡ true
has_part-append_left p [] t h = h
has_part-append_left p (c ∷ s) t h = ground (arith, has_part-append_left p s t h)

has_part-middle : (p s t u : Text) → has_part p t ≡ true → has_part p (s ++ (t ++ u)) ≡ true
has_part-middle p s t u h = has_part-append_left p s (t ++ u) (has_part-append_right p t u h)

or_true : (a : Bool) {b : Bool} → b ≡ true → (a || b) ≡ true
or_true true h = refl
or_true false h = h

-- the words are found in a longer text too
any_part-middle :
    (words : List Text) (s t u : Text)
    → any_part words t ≡ true
    → any_part words (s ++ (t ++ u)) ≡ true
any_part-middle [] s t u h = cc
any_part-middle (w ∷ words) s t u h = elim (Bool-cases (has_part w t)) [
  | inl y ↦ rw (has_part-middle w s t u y) refl
  | inr n ↦ let k : any_part words t ≡ true = rw n at h in or_true _ (any_part-middle words s t u k)
]

says-middle :
    (s t u : Text)
    → message_indicates_range_or_result_limit t ≡ true
    → message_indicates_range_or_result_limit (s ++ (t ++ u)) ≡ true
unfolding message_indicates_range_or_result_limit
says-middle s t u h =
    subst (λ x. any_part limit_words x ≡ true)
      (sym (lower-append s (t ++ u) ∙ ap (λ r. lower s ++ r) (lower-append t u)))
      (any_part-middle limit_words (lower s) (lower t) (lower u) h)

join-cons :
    (b : Text) (before : List Text) (t : Text) (after : List Text)
    → join (b ∷ (before ++ t ∷ after)) ≡ b ++ codes "; " ++ join (before ++ t ∷ after)
unfolding join
join-cons b [] t after = refl
join-cons b (c ∷ before) t after = refl

-- a text with the words says so
abbrev Says : Text → Type 0
Says t = message_indicates_range_or_result_limit t ≡ true

Says-right : (s t : Text) → Says t → Says (s ++ t)
Says-right s t h = subst (λ r. Says (s ++ r)) (append-nil t) (says-middle s t [] h)

-- a text that one of the joined texts makes
join_split :
    (before : List Text) (t : Text) (after : List Text)
    → (s : Text) × (u : Text) × (join (before ++ t ∷ after) ≡ s ++ (t ++ u))
unfolding join
join_split [] t [] = ([], [], sym (append-nil t))
join_split [] t (a ∷ after) =
    ([], codes "; " ++ join (a ∷ after), append_assoc t (codes "; ") (join (a ∷ after)))
join_split (b ∷ before) t after =
    let (s, u, e) = join_split before t after in
    (
      b ++ codes "; " ++ s,
      u,
      join-cons b before t after
          ∙ ap (λ r. b ++ codes "; " ++ r) e
          ∙ sym (append_assoc (b ++ codes "; ") s (t ++ u)),
    )

module _ {Value : Type 0} (answer : ℕ → Result Value ChainError) (ids : List ManagedRpcProvider)
    (error : ChainError) (i : ℕ) where
  -- the line of one failed candidate among those of all
  abbrev HasLine : List Text → Type 0
  HasLine lines =
      (before : List Text) × (after : List Text) × (lines
        ≡ before ++ line i ids (to_string error) ∷ after)

  line_and-HasLine :
      (j : ℕ) (a : Result Value ChainError) (lines : List Text)
      (found : Option (ProviderValue Value))
      → answer_or answer ids j a found ≡ none
      → (found ≡ none → HasLine lines)
      → HasLine (line_and answer ids j a lines)
  line_and-HasLine j (ok value) lines found h rest = cc
  line_and-HasLine j (err e) lines found h rest =
      let (before, after, k) = rest h in
      (line j ids (to_string e) ∷ before, after, ap (λ r. line j ids (to_string e) ∷ r) k)

  lines_before-HasLine :
      (before after : List ℕ)
      → first_answer answer ids (before ++ i ∷ after) ≡ none
      → answer i ≡ err error
      → HasLine (lines_before answer ids (before ++ i ∷ after))
  lines_before-HasLine [] after h e = ([], lines_before answer ids after, rw e refl)
  lines_before-HasLine (j ∷ before) after h e =
      line_and-HasLine j (answer j) _ (first_answer answer ids (before ++ i ∷ after)) h
        (λ k. lines_before-HasLine before after k e)

-- Where no candidate answers a request and one of them complains of a range or a result that is too
-- large, the request fails with an error on which the store shrinks its range.
pub request_first_success-should_reduce :
    {Value : Type 0} (m : RpcProviderManager) (now : Instant) (answer : ℕ → Result Value ChainError)
    (at : ℕ → Instant) (method : Text) (before after : List ℕ) (i : ℕ) (error : ChainError)
    → (provider_candidates m now).0 ≡ before ++ i ∷ after
    → first_answer answer m.providers (before ++ i ∷ after) ≡ none
    → answer i ≡ err error
    → message_indicates_range_or_result_limit (to_string error) ≡ true
    → (e : ChainError) × ((request_first_success answer at m now method).0 ≡ err e)
      × (should_reduce_batch_on_error e ≡ true)
unfolding should_reduce_batch_on_error
request_first_success-should_reduce m now answer at method before after i error asked none_of e
      says =
    let (ls, ls', k) = lines_before-HasLine answer m.providers error i before after none_of e in
    let (s, u, j) = join_split ls (line i m.providers (to_string error)) ls' in
    let text = line i m.providers (to_string error) in
    let one : Says text = Says-right (id_at i m.providers ++ codes ": ") (to_string error) says in
    let joined : Says (join (lines_before answer m.providers (before ++ i ∷ after))) =
      subst Says (sym (ap join k ∙ j)) (says-middle s text u one) in
    let begin = codes "all RPC providers failed " ++ method ++ codes ": " in
    let message = begin ++ join (lines_before answer m.providers (before ++ i ∷ after)) in
    let reply : (request_first_success answer at m now method).0 ≡ err (rpc_unavailable message) =
      request_first_success_lem m now answer at method
      ∙ ap
          (λ is.
            first_reply answer m.providers method (lines_before answer m.providers is)
              (first_answer answer m.providers is))
          asked
      ∙ ap
          (first_reply answer m.providers method
            (lines_before answer m.providers (before ++ i ∷ after)))
          none_of in
    (
      rpc_unavailable message,
      reply,
      Says-right begin (join (lines_before answer m.providers (before ++ i ∷ after))) joined,
    )
