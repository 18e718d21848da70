-- ===== src/Common/Maps/Laws.antt =====
-- Laws of the maps and sets.
use pay.Common.Tests.{if◌then◌else◌, Bool-cases}
use pay.Common.Lists.{All, filter}
use pay.Common.Maps.{Ord, Map, get, insert, push, or_default}
use mathlib.Core.Path.{◌≡◌, refl}
use mathlib.Core.Logic.{inl, inr}
use mathlib.Core.Bool.{Bool, true}
use mathlib.Core.Option.{some}
use mathlib.Core.List.{List, [], ◌∷◌, ◌++◌}
use native.Mathlib.Omega.{arith}

module _ {K : Type 0} ⦃o : Ord K⦄ where
  pub same_self : (a : K) → o.same a a ≡ true
  same_self a = (o.same_iff a a).1 refl

module _ {K V : Type 0} ⦃o : Ord K⦄ where
  pub get-insert :
      (k j : K) (v : V) (m : Map K V)
      → get j (insert k v m) ≡ (if o.same k j then some v else get j m)
  unfolding get insert
  get-insert k j v [] = refl
  get-insert k j v ((i, w) ∷ m) = elim (Bool-cases (o.less k i)) [
    | inl l ↦ rw l refl
    | inr l ↦ elim (Bool-cases (o.same i k)) [
      | inl s ↦ rw (l, s) (rw (← (o.same_iff i k).0 s) (ground arith))
      | inr s ↦
          rw (l, s)
            (ground (arith, get-insert k j v m, o.same_iff i j, o.same_iff k j, o.same_iff i k))
    ]
  ]

module _ {K A : Type 0} ⦃o : Ord K⦄ where
  pub get-push :
      (k j : K) (a : A) (m : Map K (List A))
      → get j (push k a m) ≡ (if o.same k j then some (or_default (get k m) ++ a ∷ []) else get j m)
  unfolding push
  get-push k j a m = get-insert k j (or_default (get k m) ++ a ∷ []) m

-- the keys rise
module _ {K V : Type 0} ⦃o : Ord K⦄ where
  abbrev pub IsBehind : K → K × V → Type 0
  IsBehind k e = o.less k e.0 ≡ true

  abbrev pub IsRising : Map K V → Type 0
  IsRising [] = Unit
  IsRising (e ∷ m) = All (IsBehind e.0) m × IsRising m

  All-IsBehind :
      (a b : K) (m : Map K V) → o.less a b ≡ true → All (IsBehind b) m → All (IsBehind a) m
  All-IsBehind a b [] l h = tt
  All-IsBehind a b (e ∷ m) l h = (o.less_trans a b e.0 l h.0, All-IsBehind a b m l h.1)

  pub All-insert {ℓ} :
      (P : K × V → Type ℓ) (k : K) (v : V) (m : Map K V) → P (k, v) → All P m → All P (insert k v m)
  unfolding insert
  All-insert P k v [] p h = (p, tt)
  All-insert P k v ((j, w) ∷ m) p h = elim (Bool-cases (o.less k j)) [
    | inl l ↦ rw l (p, h)
    | inr l ↦ elim (Bool-cases (o.same j k)) [
      | inl s ↦ rw (l, s) (p, h.1)
      | inr s ↦ rw (l, s) (h.0, All-insert P k v m p h.1)
    ]
  ]

  pub insert-IsRising : (k : K) (v : V) (m : Map K V) → IsRising m → IsRising (insert k v m)
  unfolding insert
  insert-IsRising k v [] h = (tt, tt)
  insert-IsRising k v ((j, w) ∷ m) h = elim (Bool-cases (o.less k j)) [
    | inl l ↦ rw l ((l, All-IsBehind k j m l h.0), h)
    | inr l ↦ elim (Bool-cases (o.same j k)) [
      | inl s ↦ rw (l, s) (rw ((o.same_iff j k).0 s) at h.0, h.1)
      | inr s ↦
          rw (l, s)
            (All-insert (IsBehind j) k v m (o.less_total k j l s) h.0, insert-IsRising k v m h.1)
    ]
  ]

  pub All-filter {ℓ} :
      (P : K × V → Type ℓ) (p : K × V → Bool) (m : Map K V) → All P m → All P (filter p m)
  All-filter P p [] h = tt
  All-filter P p (e ∷ m) h = elim (Bool-cases (p e)) [
    | inl y ↦ rw y (h.0, All-filter P p m h.1)
    | inr n ↦ rw n (All-filter P p m h.1)
  ]

  pub filter-IsRising : (p : K × V → Bool) (m : Map K V) → IsRising m → IsRising (filter p m)
  filter-IsRising p [] h = tt
  filter-IsRising p (e ∷ m) h = elim (Bool-cases (p e)) [
    | inl y ↦ rw y (All-filter (IsBehind e.0) p m h.0, filter-IsRising p m h.1)
    | inr n ↦ rw n (filter-IsRising p m h.1)
  ]
