-- ===== src/Common/Maps.antt =====
-- `BTreeMap` of Rust's standard library, as the list of its entries by rising keys.
pub mod Laws
use pay.Common.Tests.{ltb, ◌==◌, ==_iff, if◌then◌else◌}
use pay.Common.Lists.{filter}
use Prim.Native.Nat.{ℕ, ◌<◌}
use mathlib.Core.Path.{◌≡◌}
use mathlib.Core.Logic.{◌↔◌}
use mathlib.Core.Bool.{Bool, true, false}
use mathlib.Core.Option.{Option, none, some}
use native.Mathlib.Omega.{arith}
use mathlib.Core.List.{List, [], ◌∷◌, ◌++◌}

-- the order of a key type, as `Ord` and `Eq` give it
pub record Ord (K : Type 0) : Type 0 where
  pub same : K → K → Bool
  pub less : K → K → Bool
  pub same_iff : (a b : K) → (same a b ≡ true) ↔ (a ≡ b)
  pub less_trans : (a b c : K) → less a b ≡ true → less b c ≡ true → less a c ≡ true
  pub less_irrefl : (a : K) → less a a ≡ false
  pub less_total : (a b : K) → less a b ≡ false → same b a ≡ false → less b a ≡ true

pub ltb_trans : (a b c : ℕ) → ltb a b ≡ true → ltb b c ≡ true → ltb a c ≡ true
ltb_trans a b c h k = ground arith

pub ltb_irrefl : (a : ℕ) → ltb a a ≡ false
ltb_irrefl a = ground arith

pub ltb_total : (a b : ℕ) → ltb a b ≡ false → (b == a) ≡ false → ltb b a ≡ true
ltb_total a b h k = ground arith

instance abbrev pub nat_ord : Ord ℕ
nat_ord = record {
  same = ◌==◌;
  less = ltb;
  same_iff = ==_iff;
  less_trans = ltb_trans;
  less_irrefl = ltb_irrefl;
  less_total = ltb_total;
}

abbrev pub Map : Type 0 → Type 0 → Type 0
Map K V = List (K × V)

module _ {K V : Type 0} ⦃o : Ord K⦄ where
  -- `get(&k)`
  unfoldable pub get : K → Map K V → Option V
  get k [] = none
  get k ((j, v) ∷ m) = if o.same j k then some v else get k m

  -- `insert(k, v)`
  unfoldable pub insert : K → V → Map K V → Map K V
  insert k v [] = (k, v) ∷ []
  insert k v ((j, w) ∷ m) =
      if o.less k j
      then (k, v) ∷ (j, w) ∷ m
      else if o.same j k
      then (k, v) ∷ m
      else (j, w) ∷ insert k v m

  -- `remove(&k)`: what is left
  unfoldable pub remove : K → Map K V → Map K V
  remove k [] = []
  remove k ((j, v) ∷ m) = if o.same j k then remove k m else (j, v) ∷ remove k m

abbrev pub or_default : {A : Type 0} → Option (List A) → List A
or_default none = []
or_default (some xs) = xs

-- `entry(k).or_default().push(a)`
unfoldable pub push : {K A : Type 0} ⦃o : Ord K⦄ → K → A → Map K (List A) → Map K (List A)
push ⦃o⦄ k a m = insert k (or_default (get k m) ++ a ∷ []) m

-- `retain(|k, v| p(k, v))`
unfoldable pub retain : {K V : Type 0} → (K × V → Bool) → Map K V → Map K V
retain p m = filter p m

-- `values()`
abbrev pub values : {K V : Type 0} → Map K V → List V
values [] = []
values ((_, v) ∷ m) = v ∷ values m

-- `BTreeSet::insert`, on the list of the elements by rising order
unfoldable pub insert_set : {K : Type 0} ⦃o : Ord K⦄ → K → List K → List K
insert_set ⦃o⦄ k [] = k ∷ []
insert_set ⦃o⦄ k (j ∷ s) =
    if o.less k j then k ∷ j ∷ s else if o.same j k then j ∷ s else j ∷ insert_set k s
