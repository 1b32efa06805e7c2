-- ===== src/System/Trail.antt =====
-- What every database of the service has: rows with their own ids, references and keys, which pass the checks, and for each
-- row a history that is its way through the table of statuses.
use ledger_ops_api.Common.{
  ℕ, List, Bool, All, any, ◌∷◌, ◌==◌, ◌≡◌, [], none, false, true, arith, ◌≢◌, Bool-cases, some, inl,
  refl, inr,
}
use ledger_ops_api.Database.Rows.{collides, by_id}
use ledger_ops_api.Database.Tables.{
  TransactionStatusHistory, Transaction, TransactionStatus, initiated,
}
use ledger_ops_api.Database.Rows.Keys.{Keyed}
use ledger_ops_api.Database.Checks.{transaction_checks}
use ledger_ops_api.Database.StateMachine.{transition_exists}

abbrev pub about : ℕ → TransactionStatusHistory → Bool
about i h = h.transaction_id == i

-- The entries of a transaction, the newest first, lead from its creation in the state initiated to a status, each by a row of
-- the table of transitions.
pub data Trail (i : ℕ) : TransactionStatus → List TransactionStatusHistory → Type 0 where
  created :
      (h : TransactionStatusHistory) {hs : List TransactionStatusHistory}
      → h.transaction_id ≡ i
      → h.from_status ≡ none
      → h.to_status ≡ initiated
      → any (about i) hs ≡ false
      → Trail i initiated (h ∷ hs)
  moved :
      (h : TransactionStatusHistory) {hs : List TransactionStatusHistory}
      {from to : TransactionStatus}
      → h.transaction_id ≡ i
      → h.from_status ≡ some from
      → h.to_status ≡ to
      → transition_exists from to ≡ true
      → Trail i from hs
      → Trail i to (h ∷ hs)
  elsewhere :
      (h : TransactionStatusHistory) {hs : List TransactionStatusHistory} {to : TransactionStatus}
      → h.transaction_id ≢ i
      → Trail i to hs
      → Trail i to (h ∷ hs)

-- The primary key and the unique indexes.
abbrev pub Unique : List Transaction → Type 0
Unique [] = Unit {0}
Unique (t ∷ ts) = (any (collides t) ts ≡ false) × Unique ts

abbrev pub Trails : List TransactionStatusHistory → List Transaction → Type 0
Trails hs ts = All (λ (t : Transaction). Trail t.id t.status hs) ts

pub record WellFormed (ts : List Transaction) (hs : List TransactionStatusHistory) : Type 0 where
  pub unique : Unique ts
  pub checked : All (λ (t : Transaction). transaction_checks t ≡ true) ts
  pub told : Trails hs ts
  pub known : All (λ (h : TransactionStatusHistory). any (by_id h.transaction_id) ts ≡ true) hs

pub any-collides :
    (t : Transaction) (ts : List Transaction)
    → any (collides t) ts ≡ false
    → any (by_id t.id) ts ≡ false
unfolding collides
any-collides t [] h = refl
any-collides t (x ∷ ts) h = ground (arith, any-collides t ts)

pub Unique-Keyed : (ts : List Transaction) → Unique ts → Keyed ts
Unique-Keyed [] u = tt
Unique-Keyed (t ∷ ts) u = (any-collides t ts u.0, Unique-Keyed ts u.1)

-- Entries on another transaction do not touch a trail.
pub Trails-elsewhere :
    (h : TransactionStatusHistory) (hs : List TransactionStatusHistory) (ts : List Transaction)
    → any (by_id h.transaction_id) ts ≡ false
    → Trails hs ts
    → Trails (h ∷ hs) ts
Trails-elsewhere h hs [] n k = tt
Trails-elsewhere h hs (t ∷ ts) n k =
    let other : h.transaction_id ≢ t.id = ground arith in
    (elsewhere h other k.0, Trails-elsewhere h hs ts (ground arith) k.1)

-- A transaction that the table has not has no history.
pub no_history :
    (i : ℕ) (ts : List Transaction) (hs : List TransactionStatusHistory)
    → any (by_id i) ts ≡ false
    → All (λ (h : TransactionStatusHistory). any (by_id h.transaction_id) ts ≡ true) hs
    → any (about i) hs ≡ false
no_history i ts [] n k = refl
no_history i ts (h ∷ hs) n k =
    let other : (h.transaction_id == i) ≡ false = elim (Bool-cases (h.transaction_id == i)) [
      | inl y ↦ let e : h.transaction_id ≡ i = ground arith in let w = k.0 in absurd (cc)
      | inr z ↦ z
    ] in
    let rest = no_history i ts hs n k.1 in ground arith

known-cons :
    (t : Transaction) (ts : List Transaction) (hs : List TransactionStatusHistory)
    → All (λ (h : TransactionStatusHistory). any (by_id h.transaction_id) ts ≡ true) hs
    → All (λ (h : TransactionStatusHistory). any (by_id h.transaction_id) (t ∷ ts) ≡ true) hs
known-cons t ts [] k = tt
known-cons t ts (h ∷ hs) k = (ground arith, known-cons t ts hs k.1)

-- A new row with its first entry of history.
pub WellFormed-insert :
    (t : Transaction) (h : TransactionStatusHistory) (ts : List Transaction)
    (hs : List TransactionStatusHistory)
    → any (collides t) ts ≡ false
    → transaction_checks t ≡ true
    → t.status ≡ initiated
    → h.transaction_id ≡ t.id
    → h.from_status ≡ none
    → h.to_status ≡ initiated
    → WellFormed ts hs
    → WellFormed (t ∷ ts) (h ∷ hs)
WellFormed-insert t h ts hs n c st i f to w =
    let new = any-collides t ts n in
    let first : Trail t.id initiated (h ∷ hs) =
      created h i f to (no_history t.id ts hs new w.known) in
    let here : any (by_id h.transaction_id) (t ∷ ts) ≡ true = ground arith in
    record {
      unique = (n, w.unique);
      checked = (c, w.checked);
      told = (rw st first, Trails-elsewhere h hs ts (rw i new) w.told);
      known = (here, known-cons t ts hs w.known);
    }
