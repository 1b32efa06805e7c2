-- ===== src/System/Rows.antt =====
-- The rows and their history stay well-formed under the updates of the service.
use ledger_ops_api.Database.Rows.{
  collides, replace, by_id, history_entry, TransactionData, TransactionChange,
}
use ledger_ops_api.Database.Tables.{Transaction, TransactionStatusHistory, Database, initiated}
use ledger_ops_api.Common.{
  List, ◌≡◌, any, All, ◌≢◌, ◌∷◌, ap, Bool-cases, Bool, ◌==◌, ◌||◌, inl, find, inr, [], arith, refl,
  some, ◌∙◌, sym, true, All-map, ℕ, none,
}
use ledger_ops_api.Database.Rows.Keys.{
  Keyed, Stored-head, Stored-tail, Stored, replace_absent, any-replace, any_of_find,
}
use ledger_ops_api.System.Trail.{
  Unique, any-collides, Unique-Keyed, Trails, Trail, WellFormed, elsewhere, moved,
  WellFormed-insert,
}
use ledger_ops_api.Database.Checks.{transaction_checks}
use ledger_ops_api.Database.StateMachine.{transition_exists}
use mathlib.Core.Path.{subst}
use ledger_ops_api.System.Kept.{Written}
use ledger_ops_api.Database.Sql.{Session}
use ledger_ops_api.Database.Rows.Inserts.{Inserted}
use ledger_ops_api.Database.Rows.Updates.{Updated}

any-collides_same :
    (t u : Transaction) (ts : List Transaction)
    → t.id ≡ u.id
    → t.reference ≡ u.reference
    → t.idempotency_key ≡ u.idempotency_key
    → any (collides t) ts ≡ any (collides u) ts
unfolding collides
any-collides_same t u [] i r k = refl
any-collides_same t u (x ∷ ts) i r k =
    rw (i, r, k) (ap (λ (b : Bool). collides u x || b) (any-collides_same t u ts i r k))

-- A row that has the id, the reference and the key of another one.
pub record SameKeys (t u : Transaction) : Type 0 where
  pub id : t.id ≡ u.id
  pub reference : t.reference ≡ u.reference
  pub key : t.idempotency_key ≡ u.idempotency_key

-- In a list with unique ids, the row that is replaced is the one that is stored.
any-collides-replace :
    (x u r : Transaction) (ts : List Transaction)
    → SameKeys u r
    → Keyed ts
    → Stored ts r
    → any (collides x) (replace u ts) ≡ any (collides x) ts
unfolding collides replace
any-collides-replace x u r [] k keyed h = refl
any-collides-replace x u r (t ∷ ts) k keyed h = elim (Bool-cases (t.id == u.id)) [
  | inl y ↦
      let e = Stored-head t r ts (rw k.id at y) h in
      let same : u.id ≡ t.id = ground arith in
      rw (y, replace_absent u ts (rw same keyed.0), k.id, k.reference, k.key, e) refl
  | inr n ↦
      let f : find (by_id r.id) ts ≡ some r = Stored-tail t r ts (rw k.id at n) h in
      rw (n, any-collides-replace x u r ts k keyed.1 f) refl
]

Unique-replace :
    (u r : Transaction) (ts : List Transaction)
    → SameKeys u r
    → Unique ts
    → Stored ts r
    → Unique (replace u ts)
unfolding replace
Unique-replace u r [] k unique h = tt
Unique-replace u r (t ∷ ts) k unique h = elim (Bool-cases (t.id == u.id)) [
  | inl y ↦
      let e = Stored-head t r ts (rw k.id at y) h in
      let same : u.id ≡ t.id = ground arith in
      let absent = any-collides t ts unique.0 in
      rw (y, replace_absent u ts (rw same absent))
        (
          any-collides_same u t ts same
                (k.reference ∙ ap (λ (z : Transaction). z.reference) (sym e))
                (k.key ∙ ap (λ (z : Transaction). z.idempotency_key) (sym e))
              ∙ unique.0,
          unique.1,
        )
  | inr n ↦
      let f = Stored-tail t r ts (rw k.id at n) h in
      rw n (
        any-collides-replace t u r ts k (Unique-Keyed ts unique.1) f ∙ unique.0,
        Unique-replace u r ts k unique.1 f,
      )
]

-- What holds of the new row and of every other one holds of the table with the row replaced.
pub All-replace :
    (P : Transaction → Type 0) (u : Transaction) (ts : List Transaction)
    → P u
    → All (λ (t : Transaction). t.id ≢ u.id → P t) ts
    → All P (replace u ts)
unfolding replace
All-replace P u [] h k = tt
All-replace P u (t ∷ ts) h k = elim (Bool-cases (t.id == u.id)) [
  | inl y ↦ rw y (h, All-replace P u ts h k.1)
  | inr n ↦ rw n (k.0 (ground arith), All-replace P u ts h k.1)
]

others-checked :
    (u : Transaction) (ts : List Transaction)
    → All (λ (t : Transaction). transaction_checks t ≡ true) ts
    → All (λ (t : Transaction). t.id ≢ u.id → transaction_checks t ≡ true) ts
others-checked u ts c = All-map _ _ (λ t h n. h) ts c

others-told :
    (u : Transaction) (h : TransactionStatusHistory) (hs : List TransactionStatusHistory)
    (ts : List Transaction)
    → h.transaction_id ≡ u.id
    → Trails hs ts
    → All (λ (t : Transaction). t.id ≢ u.id → Trail t.id t.status (h ∷ hs)) ts
others-told u h hs ts i k = All-map _ _ (λ t w n. elsewhere h (ground arith) w) ts k

known-replace :
    (u : Transaction) (ts : List Transaction) (hs : List TransactionStatusHistory)
    → All (λ (h : TransactionStatusHistory). any (by_id h.transaction_id) ts ≡ true) hs
    → All (λ (h : TransactionStatusHistory). any (by_id h.transaction_id) (replace u ts) ≡ true) hs
known-replace u ts hs k = All-map _ _ (λ h w. any-replace h.transaction_id u ts ∙ w) hs k

-- A stored row has its trail.
Trails-stored :
    (r : Transaction) (ts : List Transaction) (hs : List TransactionStatusHistory)
    → Stored ts r
    → Trails hs ts
    → Trail r.id r.status hs
Trails-stored r [] hs h k = cc
Trails-stored r (t ∷ ts) hs h k = elim (Bool-cases (t.id == r.id)) [
  | inl y ↦
      let e = Stored-head t r ts y h in subst (λ (x : Transaction). Trail x.id x.status hs) e k.0
  | inr n ↦ Trails-stored r ts hs (Stored-tail t r ts n h) k.1
]

module _ (u r : Transaction) (ts : List Transaction) (hs : List TransactionStatusHistory)
    (keys : SameKeys u r) (h : Stored ts r) (checks : transaction_checks u ≡ true)
    (w : WellFormed ts hs) where
  -- An update that leaves the status alone.
  pub WellFormed-replace_same : u.status ≡ r.status → WellFormed (replace u ts) hs
  WellFormed-replace_same st =
      let own : Trail u.id u.status hs = rw (keys.id, st) (Trails-stored r ts hs h w.told) in
      record {
        unique = Unique-replace u r ts keys w.unique h;
        checked = All-replace _ u ts checks (others-checked u ts w.checked);
        told = All-replace _ u ts own (All-map _ _ (λ t k n. k) ts w.told);
        known = known-replace u ts hs w.known;
      }

  -- An update of the status, with its entry of history.
  pub WellFormed-replace_moved :
      (e : TransactionStatusHistory)
      → e.transaction_id ≡ u.id
      → e.from_status ≡ some r.status
      → e.to_status ≡ u.status
      → transition_exists r.status u.status ≡ true
      → WellFormed (replace u ts) (e ∷ hs)
  WellFormed-replace_moved e i from to x =
      let before : Trail u.id r.status hs = rw keys.id (Trails-stored r ts hs h w.told) in
      let own : Trail u.id u.status (e ∷ hs) = moved e i from to x before in
      let here : any (by_id e.transaction_id) (replace u ts) ≡ true =
        any-replace e.transaction_id u ts
        ∙ ap (λ (j : ℕ). any (by_id j) ts) (i ∙ keys.id)
        ∙ any_of_find _ ts r h in
      record {
        unique = Unique-replace u r ts keys w.unique h;
        checked = All-replace _ u ts checks (others-checked u ts w.checked);
        told = All-replace _ u ts own (others-told u e hs ts i w.told);
        known = (here, known-replace u ts hs w.known);
      }

abbrev pub RowsWellFormed : Database → Type 0
RowsWellFormed d = WellFormed d.transactions d.history

Inserted-WellFormed :
    (s : Session) (x : TransactionData) (d : Database) (t : Transaction) (d' : Database)
    → Inserted s x d t d'
    → RowsWellFormed d
    → RowsWellFormed d'
unfolding history_entry ledger_ops_api.Database.Rows.new_row
Inserted-WellFormed s x d t d' i w =
    let st : t.status ≡ initiated = ap (λ (y : Transaction). y.status) i.row in
    subst RowsWellFormed (sym i.writes) (
      WellFormed-insert t (history_entry i.actor s.env.current_timestamp none t) d.transactions
        d.history i.unique i.checked st refl refl st w)

-- An update of a stored row.
Updated-WellFormed :
    (s : Session) (c : TransactionChange) (old : Transaction) (d : Database) (t : Transaction)
    (d' : Database)
    → Stored d.transactions old
    → Updated s c old d t d'
    → RowsWellFormed d
    → RowsWellFormed d'
unfolding history_entry
Updated-WellFormed s c old d t d' h u w =
    let keys : SameKeys t old = record {
      id = ap (λ (y : Transaction). y.id) u.row;
      reference = ap (λ (y : Transaction). y.reference) u.row;
      key = ap (λ (y : Transaction). y.idempotency_key) u.row;
    } in
    subst RowsWellFormed (sym u.writes) (elim u.recorded [
      | inl (st, hs) ↦
          subst (WellFormed (replace t d.transactions)) (sym hs)
            (WellFormed-replace_same t old d.transactions d.history keys h u.checked w (sym st))
      | inr (x, (a, is, hs)) ↦ subst (WellFormed (replace t d.transactions)) (sym hs) (
          WellFormed-replace_moved t old d.transactions d.history keys h u.checked w
            (history_entry a s.env.current_timestamp (some old.status) t) refl refl refl x)
    ])

pub RowsWellFormed-Written : Written RowsWellFormed
RowsWellFormed-Written = record {
  keyed = λ d w. Unique-Keyed d.transactions w.unique;
  insertion = Inserted-WellFormed;
  update = Updated-WellFormed;
  entry = λ e d w. w;
  posted = λ ps d w. w;
  others = λ d d' same w. rw (same.transactions, same.history) w;
}
