-- ===== src/Services/Windows/Watched.antt =====
-- What a lookup in a watch set finds that was filled from a list of candidates.
use pay.Common.Strings.{is_empty}
use pay.Common.{
  ℕ, List, [], ◌∷◌, ◌++◌, ◌≡◌, refl, sym, ◌∙◌, ap, filter, if◌then◌else◌, Bool-cases, inl, inr,
  append-nil, append_assoc, arith, Option, none, some, ok, ◌==◌, ◌||◌, ◌&&◌, not, subst, ◌⊎◌,
  Result, err,
}
use pay.Common.Maps.{get, or_default, insert_set, nat_ord}
use pay.Common.Maps.Laws.{get-push}
use pay.Domain.Address.{EvmAddress}
use pay.Ledger.{PaymentWindowCandidate}
use pay.Services.Windows.{
  PaymentWindowKey, WatchSet, key_of, from_candidate, insert_candidate, insert_all,
  replace_watch_set, candidate_matches, looked_up, watched, with_fallback, lookup_batch, Lookup,
  deduplicate_addresses, key_ord, contains, deduplicate_from, candidate_is_for_lookup,
  PaymentWindowLookupError,
}

get-insert_all :
    (key : PaymentWindowKey) (cs : List PaymentWindowCandidate) (watch_set : WatchSet)
    → or_default (get key (insert_all cs watch_set))
      ≡ or_default (get key watch_set) ++ filter (candidate_matches key) cs
unfolding insert_all insert_candidate candidate_matches from_candidate
get-insert_all key [] watch_set = sym (append-nil (or_default (get key watch_set)))
get-insert_all key (c ∷ cs) watch_set = ground (
  arith,
  get-insert_all key cs (insert_candidate c watch_set),
  get-push (from_candidate c) key c watch_set,
  append_assoc (or_default (get key watch_set)) (c ∷ []) (filter (candidate_matches key) cs),
)

filter_twice :
    (key : PaymentWindowKey) (cs : List PaymentWindowCandidate)
    → filter (candidate_matches key) (filter (candidate_matches key) cs)
      ≡ filter (candidate_matches key) cs
filter_twice key [] = refl
filter_twice key (c ∷ cs) = elim (Bool-cases (candidate_matches key c)) [
  | inl y ↦ rw y (rw y (ap (λ l. c ∷ l) (filter_twice key cs)))
  | inr n ↦ rw n (filter_twice key cs)
]

looked_up_default :
    (a : EvmAddress) (key : PaymentWindowKey) (o : Option (List PaymentWindowCandidate))
    (rest : List PaymentWindowCandidate × List EvmAddress)
    → looked_up a key o rest ≡ looked_up a key (some (or_default o)) rest
looked_up_default a key none rest = refl
looked_up_default a key (some hits) rest = refl

contains-insert_set :
    (b a : EvmAddress) (seen : List EvmAddress)
    → contains b (insert_set a seen) ≡ (a == b || contains b seen)
unfolding insert_set
contains-insert_set b a [] = refl
contains-insert_set b a (x ∷ seen) = ground (arith, contains-insert_set b a seen)

-- the elements of a list without those that stood in it before
abbrev pub distinct : List EvmAddress → List EvmAddress
distinct [] = []
distinct (a ∷ tail) = a ∷ filter (λ b. not (b == a)) (distinct tail)

unseen :
    (a : EvmAddress) (seen tail : List EvmAddress)
    → filter (λ b. not (contains b (insert_set a seen))) tail
      ≡ filter (λ b. not (contains b seen)) (filter (λ b. not (b == a)) tail)
unseen a seen [] = refl
unseen a seen (x ∷ tail) = ground (arith, unseen a seen tail, contains-insert_set x a seen)

deduplicate_from_lem :
    (seen addresses : List EvmAddress)
    → deduplicate_from seen addresses ≡ filter (λ b. not (contains b seen)) (distinct addresses)
deduplicate_from_lem seen [] = refl
deduplicate_from_lem seen (a ∷ tail) =
    ground (arith, deduplicate_from_lem (insert_set a seen) tail, unseen a seen (distinct tail))

filter_unseen :
    (addresses : List EvmAddress) → filter (λ b. not (contains b [])) addresses ≡ addresses
filter_unseen [] = refl
filter_unseen (a ∷ tail) = ap (λ r. a ∷ r) (filter_unseen tail)

deduplicate_addresses_lem :
    (addresses : List EvmAddress) → deduplicate_addresses addresses ≡ distinct addresses
unfolding deduplicate_addresses
deduplicate_addresses_lem addresses =
    deduplicate_from_lem [] addresses ∙ filter_unseen (distinct addresses)

module _ (cs : List PaymentWindowCandidate) (chain_id : ℕ) (token_address : EvmAddress) where
  -- the candidates for one address
  abbrev pub found : EvmAddress → List PaymentWindowCandidate
  found a =
      filter
        (λ c. c.chain_id == chain_id && c.token_address == token_address && c.receive_address == a)
        cs

  -- the candidates for some addresses, in the order of the addresses, and the addresses without any
  abbrev pub all_found : List EvmAddress → List PaymentWindowCandidate
  all_found [] = []
  all_found (a ∷ tail) = found a ++ all_found tail

  abbrev pub missed : List EvmAddress → List EvmAddress
  missed addresses = filter (λ a. is_empty (found a)) addresses

  -- The candidates found are the answer where no address is missed; otherwise the fallback is asked for
  -- those that are, and its error is the answer, or its candidates for the chain and the token follow.
  abbrev pub IsAnswer :
      Lookup
      → List PaymentWindowCandidate
      → List EvmAddress
      → Result (List PaymentWindowCandidate) PaymentWindowLookupError
      → Type 0
  IsAnswer fallback candidates [] answer = answer ≡ ok candidates
  IsAnswer fallback candidates (miss ∷ misses) answer =
      ((e : PaymentWindowLookupError) × (fallback chain_id token_address (miss ∷ misses) ≡ err e)
        × (answer ≡ err e))
      ⊎ (more : List PaymentWindowCandidate) × (fallback chain_id token_address (miss ∷ misses)
          ≡ ok more)
        × (answer
            ≡ ok (
                candidates
                ++ filter (λ c. c.chain_id == chain_id && c.token_address == token_address) more))

  with_fallback-IsAnswer :
      (fallback : Lookup) (candidates : List PaymentWindowCandidate) (misses : List EvmAddress)
      → IsAnswer fallback candidates misses
          (with_fallback fallback chain_id token_address candidates misses)
  unfolding candidate_is_for_lookup
  with_fallback-IsAnswer fallback candidates [] = refl
  with_fallback-IsAnswer fallback candidates (miss ∷ misses) =
      by_answer (fallback chain_id token_address (miss ∷ misses)) refl
    where
      by_answer :
          (r : Result (List PaymentWindowCandidate) PaymentWindowLookupError)
          → fallback chain_id token_address (miss ∷ misses) ≡ r
          → IsAnswer fallback candidates
              (miss ∷ misses)
              (with_fallback fallback chain_id token_address candidates (miss ∷ misses))
      by_answer (err e) h = inl (e, h, rw h refl)
      by_answer (ok more) h = inr (more, h, rw h refl)

  get-replace_watch_set :
      (watch_set : WatchSet) (a : EvmAddress)
      → or_default (get (key_of chain_id token_address a) (replace_watch_set cs watch_set))
        ≡ found a
  unfolding replace_watch_set get candidate_matches
  get-replace_watch_set watch_set a = get-insert_all (key_of chain_id token_address a) cs []

  found_twice :
      (a : EvmAddress)
      → filter (candidate_matches (key_of chain_id token_address a)) (found a) ≡ found a
  unfolding candidate_matches
  found_twice a = filter_twice (key_of chain_id token_address a) cs

  watched_lem :
      (watch_set : WatchSet) (addresses : List EvmAddress)
      → watched (replace_watch_set cs watch_set) chain_id token_address addresses
        ≡ (all_found addresses, missed addresses)
  unfolding watched
  watched_lem watch_set [] = refl
  watched_lem watch_set (a ∷ tail) =
      let key = key_of chain_id token_address a in
      looked_up_default a key (get key (replace_watch_set cs watch_set)) _
      ∙ rw (get-replace_watch_set watch_set a, found_twice a, watched_lem watch_set tail) refl

  looked_up_lem :
      (fallback : Lookup) (watch_set : WatchSet) (to_addresses : List EvmAddress)
      → lookup_batch fallback (replace_watch_set cs watch_set) chain_id token_address to_addresses
        ≡ with_fallback fallback chain_id token_address
            (all_found (distinct to_addresses))
            (missed (distinct to_addresses))
  unfolding lookup_batch
  looked_up_lem fallback watch_set to_addresses =
      rw (deduplicate_addresses_lem to_addresses, watched_lem watch_set (distinct to_addresses))
        (by_wanted (distinct to_addresses))
    where
      by_wanted :
          (wanted : List EvmAddress)
          → (if is_empty wanted
              then ok []
              else with_fallback fallback chain_id token_address (all_found wanted) (missed wanted))
            ≡ with_fallback fallback chain_id token_address (all_found wanted) (missed wanted)
      by_wanted [] = refl
      by_wanted (a ∷ tail) = refl

  -- After the watch set was filled from a list of candidates, whatever it held before, a lookup gives
  -- the candidates of the list for the chain and the token, address by address in the order of the
  -- request without its repetitions. Where the list has candidates for all of the addresses that is the
  -- answer; otherwise the fallback is asked for exactly the addresses for which the list has none, and
  -- either its error is the answer, or those of its candidates that are for the chain and the token
  -- follow.
  pub lookup_batch-replace_watch_set :
      (fallback : Lookup) (watch_set : WatchSet) (to_addresses : List EvmAddress)
      → IsAnswer fallback (all_found (distinct to_addresses)) (missed (distinct to_addresses)) (
          lookup_batch fallback
            (replace_watch_set cs watch_set)
            chain_id
            token_address
            to_addresses)
  lookup_batch-replace_watch_set fallback watch_set to_addresses =
      subst (IsAnswer fallback (all_found (distinct to_addresses)) (missed (distinct to_addresses)))
        (sym (looked_up_lem fallback watch_set to_addresses))
        (with_fallback-IsAnswer fallback (all_found (distinct to_addresses))
          (missed (distinct to_addresses)))
