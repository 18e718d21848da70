-- ===== src/Rpc/Rotation.antt =====
-- A request is put to every provider of its pool once, in turn.
use pay.Domain.Chain.{u64_end}
use pay.Common.Strings.{is_empty}
use pay.Rpc.Health.{ManagedRpcProvider, Instant, is_past, is_available}
use native.Mathlib.Nat.{mod-eq_of_lt, mod-eq-sub-mod, mod-lt}
use pay.Common.{
  ℕ, zero, suc, ◌+◌, ◌-◌, ◌%◌, ◌≤◌, ◌<◌, ◌≡◌, refl, List, [], ◌∷◌, ◌++◌, arith, length, take, drop,
  ◌∙◌, ap, subst, length-drop, take_all, false, Option, none, some, Bool, true, leb, ◌==◌, filter,
  if◌then◌else◌,
}
use pay.Domain.Address.{nth}
use pay.Rpc.Manager.{
  rotated, places_from, provider_candidates, RpcProviderManager, pool_of, available_from,
}

drop-nth : (i : ℕ) (xs : List ℕ) → i < length xs → drop i xs ≡ nth xs i ∷ drop (suc i) xs
drop-nth i [] h = absurd (omega arith)
drop-nth zero (x ∷ xs) h = refl
drop-nth (suc i) (x ∷ xs) h = drop-nth i xs (omega arith)

take-drop-suc :
    (k i : ℕ) (xs : List ℕ)
    → i < length xs
    → nth xs i ∷ take k (drop (suc i) xs) ≡ take (suc k) (drop i xs)
take-drop-suc k i xs h = rw (drop-nth i xs h) refl

module _ (xs : List ℕ) (start : ℕ) where
  -- the rounds that stay below the end, and those behind it
  rotated_front :
      (k i : ℕ) → start + i + k ≤ length xs → rotated xs start i k ≡ take k (drop (start + i) xs)
  unfolding rotated
  rotated_front zero i h = refl
  rotated_front (suc k) i h =
      let m : (start + i) % length xs ≡ start + i = mod-eq_of_lt (omega arith) in
      let ih = rotated_front k (suc i) (omega arith) in
      let e : start + suc i ≡ suc (start + i) = omega arith in
      rw m (rw ih (rw e (take-drop-suc k (start + i) xs (omega arith))))

  rotated_back :
      (k i : ℕ)
      → length xs ≤ start + i
      → start + i + k ≤ length xs + length xs
      → rotated xs start i k ≡ take k (drop (start + i - length xs) xs)
  unfolding rotated
  rotated_back zero i l h = refl
  rotated_back (suc k) i l h =
      let j = start + i - length xs in
      let m : (start + i) % length xs ≡ j = mod-eq-sub-mod l ∙ mod-eq_of_lt (omega arith) in
      let ih = rotated_back k (suc i) (omega arith) (omega arith) in
      let e : start + suc i - length xs ≡ suc j = omega (arith, l) in
      rw m (rw ih (rw e (take-drop-suc k j xs (omega arith))))

  rotated-add :
      (j k i : ℕ) → rotated xs start i (j + k) ≡ rotated xs start i j ++ rotated xs start (i + j) k
  unfolding rotated
  rotated-add zero k i =
      let z : 0 + k ≡ k = omega arith in let e : i + 0 ≡ i = omega arith in rw (z, e) refl
  rotated-add (suc j) k i =
      let c : suc j + k ≡ suc (j + k) = omega arith in
      let e : i + suc j ≡ suc i + j = omega arith in
      rw c (ap (λ r. nth xs ((start + i) % length xs) ∷ r) (rw e (rotated-add j k (suc i))))

take-drop_all : (s : ℕ) (xs : List ℕ) → take (length xs - s) (drop s xs) ≡ drop s xs
take-drop_all s xs =
    subst (λ n. take n (drop s xs) ≡ drop s xs) (length-drop s xs) (take_all (drop s xs))

-- All rounds together turn the list: from its place `start` to the end, and then from the front.
pub rotated_lem :
    (xs : List ℕ) (start : ℕ)
    → start < length xs
    → rotated xs start 0 (length xs) ≡ drop start xs ++ take start xs
rotated_lem xs start h =
    let k = length xs - start in
    let n : length xs ≡ k + start = omega (arith, h) in
    let zero_added : start + 0 ≡ start = omega arith in
    let zero_left : 0 + k ≡ k = omega arith in
    let front = rotated_front xs start k 0 (omega (arith, h)) in
    let back = rotated_back xs start start k (omega (arith, h)) (omega (arith, h)) in
    let over : start + k - length xs ≡ 0 = omega (arith, h) in
    let front' : rotated xs start 0 k ≡ drop start xs =
      (rw zero_added at front) ∙ take-drop_all start xs in
    let back' : rotated xs start k start ≡ take start xs = rw over at back in
    ap (rotated xs start 0) n
    ∙ rotated-add xs start k start 0
    ∙ (rw (zero_left, front', back') refl)

places-ne-nil : (ps : List ManagedRpcProvider) → 0 < length ps → 0 < length (places_from 0 ps)
unfolding places_from
places-ne-nil [] h = h
places-ne-nil (p ∷ ps) h = omega arith

pool-ne-nil :
    (available : List ℕ) (ps : List ManagedRpcProvider)
    → 0 < length ps
    → 0 < length (pool_of available ps)
pool-ne-nil [] ps h = places-ne-nil ps h
pool-ne-nil (i ∷ available) ps h = omega arith

is_empty_lem : (xs : List ℕ) → 0 < length xs → is_empty xs ≡ false
is_empty_lem [] h = absurd (omega arith)
is_empty_lem (x ∷ xs) h = refl

-- the numbers from `k` on, `n` of them
abbrev pub upto : ℕ → ℕ → List ℕ
upto k zero = []
upto k (suc n) = k ∷ upto (suc k) n

-- a provider is left alone until an instant
abbrev pub is_ready : Instant → Option Instant → Bool
is_ready now none = true
is_ready now (some until) = leb until now

-- at the place `i` there is a provider that is not left alone, where the list starts at the place `k`
abbrev pub is_ready_at : Instant → ℕ → List ManagedRpcProvider → ℕ → Bool
is_ready_at now k [] i = false
is_ready_at now k (p ∷ ps) i =
    let rest = is_ready_at now (suc k) ps i in
    if i == k then is_ready now p.health.unavailable_until else rest

-- the places of the providers that are not left alone, or all places if there are none
abbrev pub ready_places : Instant → List ManagedRpcProvider → List ℕ
ready_places now ps =
    let all = upto 0 (length ps) in
    let ready = filter (is_ready_at now 0 ps) all in if is_empty ready then all else ready

ready_behind :
    (now : Instant) (k : ℕ) (p : ManagedRpcProvider) (ps : List ManagedRpcProvider) (j n : ℕ)
    → k < j
    → filter (is_ready_at now k (p ∷ ps)) (upto j n)
      ≡ filter (is_ready_at now (suc k) ps) (upto j n)
ready_behind now k p ps j zero l = refl
ready_behind now k p ps j (suc n) l =
    let other : (j == k) ≡ false = ground arith in
    rw other (rw (ready_behind now k p ps (suc j) n (omega arith)) refl)

available_lem :
    (now : Instant) (k : ℕ) (ps : List ManagedRpcProvider)
    → available_from now k ps ≡ filter (is_ready_at now k ps) (upto k (length ps))
unfolding available_from is_available
available_lem now k [] = refl
available_lem now k (p ∷ ps) =
    let own : (k == k) ≡ true = ground arith in
    rw own (
      rw (ready_behind now k p ps (suc k) (length ps) (omega arith), available_lem now (suc k) ps)
        (same_test _ p.health.unavailable_until))
  where
    same_test :
        (rest : List ℕ) (o : Option Instant)
        → (if is_past now o then k ∷ rest else rest) ≡ (if is_ready now o then k ∷ rest else rest)
    same_test rest none = refl
    same_test rest (some until) = refl

places_lem : (k : ℕ) (ps : List ManagedRpcProvider) → places_from k ps ≡ upto k (length ps)
unfolding places_from
places_lem k [] = refl
places_lem k (p ∷ ps) = ap (λ r. k ∷ r) (places_lem (suc k) ps)

pool_lem :
    (available : List ℕ) (ps : List ManagedRpcProvider)
    → pool_of available ps ≡ (if is_empty available then upto 0 (length ps) else available)
pool_lem [] ps = places_lem 0 ps
pool_lem (i ∷ available) ps = refl

-- Where there are providers, a request has candidates: the places of the providers that are not left
-- alone at that instant, or all places if there are none, each once, in the order of the list turned to
-- a start that moves on with each request.
pub provider_candidates_lem :
    (m : RpcProviderManager) (now : Instant)
    → 0 < length m.providers
    → let places = ready_places now m.providers in
      let start = m.round_robin_counter % length places in
      (start < length places)
      × ((provider_candidates m now).0 ≡ drop start places ++ take start places)
      × ((provider_candidates m now).1.round_robin_counter ≡ (m.round_robin_counter + 1) % u64_end)
unfolding provider_candidates
provider_candidates_lem m now h =
    let available = available_from now 0 m.providers in
    let places = pool_of available m.providers in
    let eq : places ≡ ready_places now m.providers =
      pool_lem available m.providers ∙ rw (available_lem now 0 m.providers) refl in
    let some_places = pool-ne-nil available m.providers h in
    let start = m.round_robin_counter % length places in
    let below : start < length places = mod-lt m.round_robin_counter some_places in
    subst
      (λ l.
        (m.round_robin_counter % length l < length l)
        × ((provider_candidates m now).0
            ≡ drop (m.round_robin_counter % length l) l
              ++ take (m.round_robin_counter % length l) l)
        × ((provider_candidates m now).1.round_robin_counter
            ≡ (m.round_robin_counter + 1) % u64_end))
      eq
      (
        below,
        rw (is_empty_lem places some_places) (rotated_lem places start below),
        rw (is_empty_lem places some_places) refl,
      )
