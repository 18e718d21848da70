-- ===== src/LogStore/Reorg.antt =====
-- Where a reorganisation is seen to begin.
use pay.Common.{
  ℕ, zero, suc, ◌+◌, ◌-◌, ◌≤◌, ◌<◌, ◌≡◌, refl, ◌⊎◌, inl, inr, Bool, true, false, Option, none, some,
  ok, arith, ◌==◌, >>=-eq-ok, Bool-cases, sym, ◌∙◌, subst, ==_iff, Result, err, ◌≢◌,
}
use pay.Common.Maps.{get, nat_ord}
use pay.Domain.Chain.{BlockHash}
use pay.Ledger.{StreamId, ChainBlock}
use pay.LogStore.State.{StreamData}
use pay.LogStore.Source.{Source, ask, ChainError, TransferLogStoreError}
use pay.LogStore.Poll.{agrees, first_diverged, reorg_floor, rewind_point}

pub ask-ok : {A : Type 0} (o : Result A ChainError) {a : A} → ask o ≡ ok a → o ≡ ok a
ask-ok (ok b) h = cc
ask-ok (err e) h = cc

abbrev Point : Type 0
Point = Result (Option ℕ) TransferLogStoreError

none-not-some : (p : Point) {r : ℕ} → p ≡ ok none → p ≢ ok (some r)
none-not-some p e h = cc

some_inj : (p : Point) {x r : ℕ} → p ≡ ok (some x) → p ≡ ok (some r) → x ≡ r
some_inj p e h = cc

module _ (source : Source) (stream : StreamId) (d : StreamData) where
  -- The stored header of a block agrees with the chain, or does not.
  abbrev pub Compares : Bool → ℕ → Type 0
  Compares b number =
      (block : ChainBlock) × (source.block_by_number number ≡ ok block)
      × (agrees (get number d.headers) block.hash ≡ b)

  abbrev pub AgreesBetween : ℕ → ℕ → Type 0
  AgreesBetween lo hi = (k : ℕ) → lo ≤ k → k < hi → Compares true k

  and_next :
      (number hi : ℕ)
      → Compares true number
      → AgreesBetween (number + 1) hi
      → AgreesBetween number hi
  and_next number hi c rest k l u = elim (Bool-cases (number == k)) [
    | inl y ↦ subst (Compares true) ((==_iff number k).0 y) c
    | inr n ↦ rest k (ground arith) u
  ]

  diverges_lem :
      (last number n : ℕ) {r : ℕ}
      → first_diverged source stream d last number n ≡ ok r
      → ((number ≤ r) × (r < number + n) × AgreesBetween number r × Compares false r)
        ⊎ ((r ≡ last) × AgreesBetween number (number + n))
  unfolding first_diverged
  diverges_lem last number zero h = inr (cc, λ k l u. absurd (omega arith))
  diverges_lem last number (suc n) {r} h =
      let (b, e, k) = >>=-eq-ok (ask (source.block_by_number number)) _ h in
      let answered = ask-ok (source.block_by_number number) e in
      elim (Bool-cases (agrees (get number d.headers) b.hash)) [
        | inl y ↦
            let here : Compares true number = (b, answered, y) in
            elim (diverges_lem last (number + 1) n (rw y at k)) [
              | inl (lo, hi, same, diverged) ↦
                  inl (omega arith, omega arith, and_next number r here same, diverged)
              | inr (eq, same) ↦
                  inr (eq, and_next number (number + suc n) here (λ i l u. same i l (omega arith)))
            ]
        | inr f ↦
            let found : ok number ≡ ok r = rw f at k in
            let eq : number ≡ r = cc in
            inl (
              omega arith,
              omega arith,
              λ i l u. absurd (omega arith),
              subst (Compares false) eq (b, answered, f),
            )
      ]

  -- A reorganisation is acted on only when the hash of the last completed block has changed on the
  -- chain. The rewind then goes to the first block, from the floor of the lookback on, whose stored
  -- header is missing or differs from the chain's, and every stored block between the floor and that
  -- block agrees with the chain; or to the last completed block, when they all agree.
  pub rewind_point_lem :
      (last : ℕ) (hash : BlockHash) {r : ℕ}
      → rewind_point source stream d (some last) (some hash) ≡ ok (some r)
      → ((b : ChainBlock) × (source.block_by_number last ≡ ok b) × ((b.hash == hash) ≡ false))
        × ((reorg_floor source stream d last ≤ r)
              × (r ≤ last)
              × AgreesBetween (reorg_floor source stream d last) r
              × Compares false r
            ⊎ (r ≡ last) × AgreesBetween (reorg_floor source stream d last) (last + 1))
  unfolding rewind_point
  rewind_point_lem last hash {r} h =
      let floor = reorg_floor source stream d last in
      let (b, e, k) = >>=-eq-ok (ask (source.block_by_number last)) _ h in
      let answered = ask-ok (source.block_by_number last) e in
      elim (Bool-cases (b.hash == hash)) [
        | inl y ↦ absurd (none-not-some (ok none) refl (rw y at k))
        | inr f ↦
            let (x, ex, kx) =
              >>=-eq-ok (first_diverged source stream d last floor (last + 1 - floor)) _
                (rw f at k) in
            let eq : x ≡ r = some_inj (ok (some x)) refl kx in
            (
              (b, answered, f),
              (elim (diverges_lem last floor (last + 1 - floor) ex) [
                | inl (lo, hi, same, diverged) ↦ inl (
                  rw eq at lo,
                  omega (arith, hi, eq),
                  subst (AgreesBetween floor) eq same,
                  subst (Compares false) eq diverged,
                )
                | inr (el, same) ↦ inr (sym eq ∙ el, λ i l u. same i l (omega (arith, l, u)))
              ]),
            )
      ]
