-- ===== src/Db/Lifecycle.antt =====
-- A collection and the transaction that it points to have statuses that fit.
use pay.Common.{
  ◌≡◌, Bool, true, false, Option, none, some, List, [], ◌∷◌, arith, ◌==◌, if◌then◌else◌, All, refl,
  sym, subst, ap, ◌∙◌, Bool-cases, inl, inr, ==_iff, ok, ◌&&◌, ◌<◌, >>=-eq-ok, fail_if, not,
}
use pay.Ledger.{Uuid}
use pay.Db.Types.{OutboundTxStatus, CollectionRecordStatus, CollectionRecord, OutboundTxRecord}
use pay.Db.Outbound.{
  Tables, find_tx, put_tx, attached, update_collections, is_open, is_confirming, open_tx, Outcome,
  is_broadcastable, carries, rows_affected, settle,
}

-- the status of a collection under that of its transaction
abbrev pub fits : OutboundTxStatus → CollectionRecordStatus → Bool
fits OutboundTxStatus.signed CollectionRecordStatus.transferring = true
fits OutboundTxStatus.broadcast CollectionRecordStatus.confirming = true
fits OutboundTxStatus.confirmed CollectionRecordStatus.confirmed = true
fits OutboundTxStatus.failed CollectionRecordStatus.failed = true
fits _ _ = false

module _ (txs : List OutboundTxRecord) where
  -- the transaction of a collection exists, and the statuses fit
  abbrev pub PointsTo : Option Uuid → CollectionRecordStatus → Type 0
  PointsTo none status = Unit
  PointsTo (some tx_id) status =
      (t : OutboundTxRecord) × (find_tx tx_id txs ≡ some t) × (fits t.status status ≡ true)

  abbrev pub IsLinked : CollectionRecord → Type 0
  IsLinked c = PointsTo c.outbound_tx_id c.status

abbrev pub AreLinked : Tables → Type 0
AreLinked tables = All (IsLinked tables.outbound_transactions) tables.collections

pub find-put :
    (new : OutboundTxRecord) (k : Uuid) (txs : List OutboundTxRecord) {t : OutboundTxRecord}
    → find_tx new.id txs ≡ some t
    → find_tx k (put_tx new txs) ≡ (if new.id == k then some new else find_tx k txs)
unfolding find_tx put_tx
find-put new k [] h = cc
find-put new k (x ∷ txs) {t} h = ground (arith, find-put new k txs {t = t})

pub found_id :
    (k : Uuid) (txs : List OutboundTxRecord) {t : OutboundTxRecord}
    → find_tx k txs ≡ some t
    → t.id ≡ k
unfolding find_tx
found_id k [] h = cc
found_id k (x ∷ txs) {t} h = ground (arith, found_id k txs {t = t})

module _ (new t : OutboundTxRecord) (txs : List OutboundTxRecord)
    (allowed : CollectionRecordStatus → Bool) (change : CollectionRecord → CollectionRecord)
    (held : find_tx new.id txs ≡ some t)
    (all_allowed : (s : CollectionRecordStatus) → fits t.status s ≡ true → allowed s ≡ true)
    (same_tx : (c : CollectionRecord) → (change c).outbound_tx_id ≡ c.outbound_tx_id)
    (fitting : (c : CollectionRecord) → fits new.status (change c).status ≡ true) where
  -- a collection whose transaction is the one that is settled, or another, or that has none
  settled-PointsTo :
      (c : CollectionRecord) (o : Option Uuid)
      → c.outbound_tx_id ≡ o
      → PointsTo txs o c.status
      → IsLinked (put_tx new txs) (if attached allowed new.id c then change c else c)
  settled-PointsTo c none e h =
      let away : attached allowed new.id c ≡ false = rw (e, attached) refl in
      rw away (subst (λ o. PointsTo (put_tx new txs) o c.status) (sym e) tt)
  settled-PointsTo c (some k) e (t', found, fit) = elim (Bool-cases (new.id == k)) [
    | inl y ↦
        let same : new.id ≡ k = (==_iff new.id k).0 y in
        let one : some t' ≡ some t = sym found ∙ ap (λ i. find_tx i txs) (sym same) ∙ held in
        let eq : t' ≡ t = cc in
        let may = all_allowed c.status (subst (λ x. fits x.status c.status ≡ true) eq fit) in
        let own : (k == new.id) ≡ true = ground (arith, y) in
        let there : attached allowed new.id c ≡ true = rw (e, attached, own, may) refl in
        let put : find_tx k (put_tx new txs) ≡ some new = find-put new k txs held ∙ (rw y refl) in
        rw there (
          subst (λ o. PointsTo (put_tx new txs) o (change c).status) (sym (same_tx c ∙ e))
            (new, put, fitting c))
    | inr n ↦
        let other : (k == new.id) ≡ false = ground (arith, n) in
        let away : attached allowed new.id c ≡ false = rw (e, attached, other) refl in
        let put : find_tx k (put_tx new txs) ≡ some t' = find-put new k txs held ∙ (rw n found) in
        rw away (subst (λ o. PointsTo (put_tx new txs) o c.status) (sym e) (t', put, fit))
  ]

  settled-AreLinked :
      (cs : List CollectionRecord)
      → All (IsLinked txs) cs
      → All (IsLinked (put_tx new txs)) (update_collections (attached allowed new.id) change cs)
  unfolding update_collections
  settled-AreLinked [] h = tt
  settled-AreLinked (c ∷ cs) h =
      (settled-PointsTo c c.outbound_tx_id refl h.0, settled-AreLinked cs h.1)

pub open_fits :
    (a : OutboundTxStatus) (s : CollectionRecordStatus)
    → is_open a ≡ true
    → fits a s ≡ true
    → is_broadcastable s ≡ true
open_fits a s h f = ground arith

pub confirming_fits :
    (a : OutboundTxStatus) (s : CollectionRecordStatus)
    → fits a CollectionRecordStatus.confirming ≡ true
    → fits a s ≡ true
    → is_confirming s ≡ true
confirming_fits a s h f = ground arith

is_confirming_eq :
    (s : CollectionRecordStatus) → is_confirming s ≡ true → s ≡ CollectionRecordStatus.confirming
is_confirming_eq s h = ground arith

pub open_inv :
    (tx_id : Uuid) (o : Option OutboundTxRecord) {t : OutboundTxRecord}
    → open_tx tx_id o ≡ ok t
    → (o ≡ some t) × (is_open t.status ≡ true)
open_inv tx_id none h = cc
open_inv tx_id (some t) h = ground (arith, h)

pub outcome_inj :
    (r : Outcome) {t t' : OutboundTxRecord} {s s' : Tables}
    → r ≡ ok (t, s)
    → r ≡ ok (t', s')
    → s ≡ s'
outcome_inj r h k = cc

and_true : (a b : Bool) → (a && b) ≡ true → (a ≡ true) × (b ≡ true)
and_true a b h = ground arith

-- a confirming collection has a transaction that may have one
carried_fits :
    (txs : List OutboundTxRecord) (tx_id : Uuid) (o : Option Uuid) (s : CollectionRecordStatus)
    {t : OutboundTxRecord}
    → PointsTo txs o s
    → find_tx tx_id txs ≡ some t
    → carries tx_id o ≡ true
    → is_confirming s ≡ true
    → fits t.status CollectionRecordStatus.confirming ≡ true
carried_fits txs tx_id none s p held c k = cc
carried_fits txs tx_id (some j) s {t} (x, found, fit) held c k =
    let one : some x ≡ some t = sym found ∙ ap (λ i. find_tx i txs) ((==_iff j tx_id).0 c) ∙ held in
    let eq : x ≡ t = cc in
    subst (λ z. fits z.status CollectionRecordStatus.confirming ≡ true) eq
      (subst (λ z. fits x.status z ≡ true) (is_confirming_eq s k) fit)

pub counted_fits :
    (txs : List OutboundTxRecord) (tx_id : Uuid) (cs : List CollectionRecord) {t : OutboundTxRecord}
    → All (IsLinked txs) cs
    → find_tx tx_id txs ≡ some t
    → 0 < rows_affected (attached is_confirming tx_id) cs
    → fits t.status CollectionRecordStatus.confirming ≡ true
counted_fits txs tx_id [] h held n = absurd (omega arith)
counted_fits txs tx_id (c ∷ cs) h held n = elim (Bool-cases (attached is_confirming tx_id c)) [
  | inl y ↦
      let (carried, confirming) = and_true _ _ y in
      carried_fits txs tx_id c.outbound_tx_id c.status h.0 held carried confirming
  | inr o ↦ counted_fits txs tx_id cs h.1 held (rw o at n)
]

module _ (allowed : CollectionRecordStatus → Bool) (change : CollectionRecord → CollectionRecord)
    (same_tx : (c : CollectionRecord) → (change c).outbound_tx_id ≡ c.outbound_tx_id)
    (new t : OutboundTxRecord)
    (fitting : (c : CollectionRecord) → fits new.status (change c).status ≡ true) where
  pub settle-AreLinked :
      (tables : Tables) {r : OutboundTxRecord} {tables' : Tables}
      → AreLinked tables
      → find_tx new.id tables.outbound_transactions ≡ some t
      → (0 < rows_affected (attached allowed new.id) tables.collections
          → (s : CollectionRecordStatus) → fits t.status s ≡ true
          → allowed s ≡ true)
      → settle allowed change new tables ≡ ok (r, tables')
      → AreLinked tables'
  settle-AreLinked tables {r} {tables'} h held all_allowed e =
      let n = rows_affected (attached allowed new.id) tables.collections in
      let (_, one, k) = >>=-eq-ok (fail_if (not (n == 1)) _) _ e in
      let counted : n ≡ 1 = ground (arith, one) in
      subst AreLinked (outcome_inj _ refl k) (
        settled-AreLinked new t tables.outbound_transactions allowed change held
          (all_allowed (omega (arith, counted))) same_tx fitting tables.collections h)
