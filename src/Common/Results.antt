-- ===== src/Common/Results.antt =====
-- Rust's `Result`, with `?` as bind, and `Option::ok_or`.
use mathlib.Core.Path.{◌≡◌, refl}
use mathlib.Core.Bool.{Bool, true, false}
use mathlib.Core.Option.{Option, none, some}

pub data Result {ℓ κ} (A : Type ℓ) (E : Type κ) : Type (ℓ ⊔ κ) where
  ok : A → Result A E
  err : E → Result A E

infixl 5 ◌>>=◌ ◌>>◌
abbrev pub ◌>>=◌ {ℓ μ κ} :
    {A : Type ℓ} {B : Type μ} {E : Type κ} → Result A E → (A → Result B E) → Result B E
ok a >>= f = f a
err e >>= f = err e

abbrev pub ◌>>◌ {ℓ μ κ} :
    {A : Type ℓ} {B : Type μ} {E : Type κ} → Result A E → Result B E → Result B E
m >> k = m >>= λ _. k

-- `option.ok_or(e)`
abbrev pub ok_or {ℓ κ} : {A : Type ℓ} {E : Type κ} → Option A → E → Result A E
ok_or none e = err e
ok_or (some a) _ = ok a

-- `if c { return Err(e); }`
abbrev pub fail_if {κ} : {E : Type κ} → Bool → E → Result (Unit {0}) E
fail_if true e = err e
fail_if false e = ok tt

-- Inversion of a successful `?`.
pub >>=-eq-ok {κ ℓ μ} :
    {E : Type κ} {A : Type ℓ} {B : Type μ} (first : Result A E) (rest : A → Result B E) {b : B}
    → (first >>= rest) ≡ ok b
    → (a : A) × (first ≡ ok a) × (rest a ≡ ok b)
>>=-eq-ok (ok a) rest e = (a, refl, e)
>>=-eq-ok (err _) rest e = cc

pub ok_or-ok {ℓ κ} :
    {A : Type ℓ} {E : Type κ} (o : Option A) (e : E) {a : A} → ok_or o e ≡ ok a → o ≡ some a
ok_or-ok none e h = cc
ok_or-ok (some b) e h = cc
