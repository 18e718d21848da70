-- ===== src/Db/Nonces.antt =====
-- No nonce of an account is reserved twice.
use pay.Common.{
  ℕ, suc, ◌≤◌, ◌≡◌, refl, sym, ap, subst, ◌&&◌, Option, none, some, List, [], ◌∷◌, Result, ok, err,
  arith, Bool-cases, inl, inr, leb, ◌==◌, if◌then◌else◌, max, ==_self, ◌++◌,
}
use pay.Domain.Address.{EvmAddress}
use pay.Db.Types.{AccountNonce, ReservedNonce, RepositoryError, numeric_end, i64_end}
use pay.Db.Accounts.{
  is_account, raise_next_nonce, next_nonce_of, advance_nonce, reserve_nonce, reserve_next, reserved,
}

abbrev pub or_zero : Option ℕ → ℕ
or_zero none = 0
or_zero (some n) = n

-- the least nonce that can be reserved next
abbrev pub floor_of : ℕ → EvmAddress → List AccountNonce → ℕ
floor_of c a rows = or_zero (next_nonce_of c a rows)

raise_lem :
    (c : ℕ) (a : EvmAddress) (p : ℕ) (rows : List AccountNonce)
    → next_nonce_of c a (raise_next_nonce c a p rows) ≡ some (max (floor_of c a rows) p)
unfolding next_nonce_of raise_next_nonce
raise_lem c a p [] = ground (arith, ==_self c, ==_self a)
raise_lem c a p (row ∷ rows) = elim (Bool-cases (is_account c a row)) [
  | inl y ↦ rw (y, next_nonce_of, raise_next_nonce) (rw y refl)
  | inr n ↦ rw (n, next_nonce_of, raise_next_nonce) (rw (n, raise_lem c a p rows) refl)
]

raise_le :
    (c d : ℕ) (a b : EvmAddress) (p : ℕ) (rows : List AccountNonce)
    → floor_of d b rows ≤ floor_of d b (raise_next_nonce c a p rows)
unfolding next_nonce_of raise_next_nonce
raise_le c d a b p [] = omega arith
raise_le c d a b p (row ∷ rows) = ground (arith, raise_le c d a b p rows)

advance_le :
    (c d : ℕ) (a b : EvmAddress) (rows : List AccountNonce)
    → floor_of d b rows ≤ floor_of d b (advance_nonce c a rows)
unfolding next_nonce_of advance_nonce
advance_le c d a b [] = omega arith
advance_le c d a b (row ∷ rows) = ground (arith, advance_le c d a b rows)

advance_lem :
    (c : ℕ) (a : EvmAddress) (rows : List AccountNonce) {n : ℕ}
    → next_nonce_of c a rows ≡ some n
    → next_nonce_of c a (advance_nonce c a rows) ≡ some (suc n)
unfolding next_nonce_of advance_nonce
advance_lem c a [] h = cc
advance_lem c a (row ∷ rows) {n} h = ground (arith, advance_lem c a rows {n = n})

-- what one reservation does to the account it is for
abbrev Reserves : ℕ → EvmAddress → ℕ → ℕ → ℕ → ReservedNonce → Type 0
Reserves c a p before after r =
    (r.chain_id ≡ c) × (r.address ≡ a) × (p ≤ r.nonce) × (before ≤ r.nonce) × (suc r.nonce ≤ after)

reserved_inv :
    (c : ℕ) (a : EvmAddress) (n : ℕ) {r : ReservedNonce}
    → reserved c a (some n) ≡ ok r
    → (r.chain_id ≡ c) × (r.address ≡ a) × (r.nonce ≡ n)
reserved_inv c a n h = ground (arith, h)

module _ (c : ℕ) (a : EvmAddress) (p : ℕ) (rows : List AccountNonce) where
  -- what a reservation may return
  abbrev IsReservation : Result ReservedNonce RepositoryError × List AccountNonce → Type 0
  IsReservation (result, rows') =
      ((r : ReservedNonce)
        → result ≡ ok r
        → Reserves c a p (floor_of c a rows) (floor_of c a rows') r)
      × ((d : ℕ) (b : EvmAddress) → floor_of d b rows ≤ floor_of d b rows')

  next-IsReservation :
      (n : ℕ) (raised : List AccountNonce)
      → next_nonce_of c a raised ≡ some n
      → n ≡ max (floor_of c a rows) p
      → ((d : ℕ) (b : EvmAddress) → floor_of d b rows ≤ floor_of d b raised)
      → IsReservation (reserve_next c a rows raised (some n))
  next-IsReservation n raised e m mono = elim (Bool-cases (leb numeric_end (suc n))) [
    | inl y ↦ rw y (λ r h. cc, λ d b. omega arith)
    | inr less ↦ rw less (
      λ r h.
          let (chain, address, nonce) = reserved_inv c a n h in
          let after : floor_of c a (advance_nonce c a raised) ≡ suc n =
            ap or_zero (advance_lem c a raised e) in
          (
            chain,
            address,
            omega (arith, m, nonce),
            omega (arith, m, nonce),
            omega (arith, after, nonce),
          ),
      λ d b. let l = mono d b in let l' = advance_le c d a b raised in omega (arith, l, l'),
    )
  ]

  reserve_nonce-IsReservation : IsReservation (reserve_nonce c a p rows)
  unfolding reserve_nonce
  reserve_nonce-IsReservation =
      let raised = raise_next_nonce c a p rows in
      let e = raise_lem c a p rows in
      elim (Bool-cases (leb i64_end c)) [
        | inl y ↦ rw y (λ r h. cc, λ d b. omega arith)
        | inr n ↦ rw n (
            subst (λ o. IsReservation (reserve_next c a rows raised o)) (sym e)
              (next-IsReservation (max (floor_of c a rows) p) raised e refl
                (λ d b. raise_le c d a b p rows)))
      ]

-- a call of `reserve_nonce`
pub record Reservation : Type 0 where
  pub chain_id : ℕ
  pub address : EvmAddress
  pub pending_nonce : ℕ

-- the nonces that one account gets from a sequence of reservations, those of other accounts between
module _ (c : ℕ) (a : EvmAddress) where
  abbrev pub nonce_for : Result ReservedNonce RepositoryError → List ℕ
  nonce_for (err e) = []
  nonce_for (ok r) = if r.chain_id == c && r.address == a then r.nonce ∷ [] else []

  abbrev pub nonces_of : List Reservation → List AccountNonce → List ℕ
  nonces_of [] rows = []
  nonces_of (q ∷ qs) rows =
      let (result, rows') = reserve_nonce q.chain_id q.address q.pending_nonce rows in
      nonce_for result ++ nonces_of qs rows'

  -- each is above the one before, and none is below `n`
  abbrev pub AreRising : ℕ → List ℕ → Type 0
  AreRising n [] = Unit
  AreRising n (m ∷ ms) = (n ≤ m) × AreRising (suc m) ms

  AreRising-le : (m n : ℕ) (ms : List ℕ) → m ≤ n → AreRising n ms → AreRising m ms
  AreRising-le m n [] l h = tt
  AreRising-le m n (k ∷ ms) l h = (omega (arith, h.0), h.1)

  step-AreRising :
      (q : Reservation) (rows : List AccountNonce)
      (o : Result ReservedNonce RepositoryError × List AccountNonce) (ms : List ℕ)
      → IsReservation q.chain_id q.address q.pending_nonce rows o
      → AreRising (floor_of c a o.1) ms
      → AreRising (floor_of c a rows) (nonce_for o.0 ++ ms)
  step-AreRising q rows (err e, rows') ms (_, mono) h = AreRising-le _ _ ms (mono c a) h
  step-AreRising q rows (ok r, rows') ms (found, mono) h =
      elim (Bool-cases (r.chain_id == c && r.address == a)) [
        | inl y ↦
            let (chain, address, _, before, after) = found r refl in
            let qc : q.chain_id ≡ c = ground (arith, y, chain) in
            let qa : q.address ≡ a = ground (arith, y, address) in
            let before' : floor_of c a rows ≤ r.nonce = rw (qc, qa) at before in
            let after' : suc r.nonce ≤ floor_of c a rows' = rw (qc, qa) at after in
            rw y (before', AreRising-le (suc r.nonce) (floor_of c a rows') ms after' h)
        | inr n ↦ rw n (AreRising-le _ _ ms (mono c a) h)
      ]

  -- In whatever order reservations come, for whatever accounts, the nonces that one account gets rise:
  -- none is handed out twice, and none is below the first that was free.
  pub nonces_of-AreRising :
      (qs : List Reservation) (rows : List AccountNonce)
      → AreRising (floor_of c a rows) (nonces_of qs rows)
  nonces_of-AreRising [] rows = tt
  nonces_of-AreRising (q ∷ qs) rows =
      let r = reserve_nonce q.chain_id q.address q.pending_nonce rows in
      step-AreRising q rows r (nonces_of qs r.1)
        (reserve_nonce-IsReservation q.chain_id q.address q.pending_nonce rows)
        (nonces_of-AreRising qs r.1)
