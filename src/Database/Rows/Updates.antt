-- ===== src/Database/Rows/Updates.antt =====
-- What an UPDATE of a transaction writes.
use ledger_ops_api.Common.{
  ◌+◌, ◌≤◌, true, ◌||◌, ok, ◌≡◌, arith, List, Option, ◌⊎◌, some, ◌∷◌, false, Bool-cases, ℕ, inl,
  find, inr, record_not_found,
}
use ledger_ops_api.Database.Tables.{
  Database, Transaction, status_eq, TransactionStatusHistory, TransactionStatus,
}
use ledger_ops_api.Database.Sql.{Session, Actor, ◌>>=◌, or_throw}
use ledger_ops_api.Database.StateMachine.{transition_exists}
use ledger_ops_api.Database.Rows.{
  TransactionChange, change, fn_transactions_before_update, or_else, record_status, row_update,
  replace, history_entry, save_row, transaction_update, by_id,
}
use ledger_ops_api.Database.Checks.{transaction_checks}
use ledger_ops_api.Database.Sql.Inversion.{>>=-eq-ok, or_throw-eq-ok}

-- The row that an update leaves.
abbrev pub updated_row : Session → TransactionChange → Transaction → Transaction
updated_row s c old = record old {
  status = or_else c.status old.status;
  refunded_amount = or_else c.refunded_amount old.refunded_amount;
  version = old.version + 1;
  updated_at = s.env.current_timestamp;
}

-- What the trigger lets through.
pub before_update-accepts :
    (c : TransactionChange) (old : Transaction) (s : Session) (d : Database) {t : Transaction}
    {d' : Database}
    → fn_transactions_before_update old (change c old) s d ≡ ok (t, d')
    → (d' ≡ d)
      × (t ≡ updated_row s c old)
      × (old.refunded_amount ≤ or_else c.refunded_amount old.refunded_amount)
      × ((status_eq (or_else c.status old.status) old.status
            || transition_exists old.status (or_else c.status old.status))
          ≡ true)
unfolding fn_transactions_before_update ◌>>=◌
before_update-accepts c old s d {t} {d'} h = ground arith

-- The history row of a change of status, which names its actor.
pub record_status-writes :
    (from : Option TransactionStatus) (t : Transaction) (s : Session) (d : Database) {u : Unit {0}}
    {d' : Database}
    → record_status from t s d ≡ ok (u, d')
    → (a : Actor) × (s.actor ≡ some a)
      × (d' ≡ record d { history = history_entry a s.env.current_timestamp from t ∷ d.history })
unfolding record_status ◌>>=◌
record_status-writes from t s d {u} {d'} h = ground arith

-- Whether an update leaves the status, and the history, alone, or adds a row to the history.
abbrev pub Recorded :
    Session
    → Transaction
    → Transaction
    → List TransactionStatusHistory
    → List TransactionStatusHistory
    → Type 0
Recorded s old t hs hs' =
    ((old.status ≡ t.status) × (hs' ≡ hs))
    ⊎ ((transition_exists old.status t.status ≡ true)
        × ((a : Actor) × (s.actor ≡ some a)
            × (hs' ≡ history_entry a s.env.current_timestamp (some old.status) t ∷ hs)))

-- An update writes one row, and the history with it.
pub record Updated (s : Session) (c : TransactionChange) (old : Transaction) (d : Database)
    (t : Transaction) (d' : Database) : Type 0 where
  pub row : t ≡ updated_row s c old
  pub checked : transaction_checks t ≡ true
  pub grown : old.refunded_amount ≤ t.refunded_amount
  pub recorded : Recorded s old t d.history d'.history
  pub writes : d' ≡ record d { transactions = replace t d.transactions; history = d'.history }

pub status_eq→≡ : (a b : TransactionStatus) → status_eq a b ≡ true → a ≡ b
status_eq→≡ a b h = ground arith

save_row-same :
    (old new : Transaction) (s : Session) (d : Database) {t : Transaction} {d' : Database}
    → status_eq old.status new.status ≡ true
    → save_row old new s d ≡ ok (t, d')
    → (t ≡ new)
      × (transaction_checks new ≡ true)
      × (d' ≡ record d { transactions = replace new d.transactions })
unfolding save_row ◌>>=◌
save_row-same old new s d {t} {d'} same h = ground arith

save_row-moved :
    (old new : Transaction) (s : Session) (d : Database) {t : Transaction} {d' : Database}
    → status_eq old.status new.status ≡ false
    → save_row old new s d ≡ ok (t, d')
    → (t ≡ new)
      × (transaction_checks new ≡ true)
      × ((a : Actor) × (s.actor ≡ some a)
          × (d' ≡ record d {
            transactions = replace new d.transactions;
            history = history_entry a s.env.current_timestamp (some old.status) new ∷ d.history;
          }))
unfolding save_row ◌>>=◌
save_row-moved old new s d {t} {d'} moved h = ground arith

pub row_update-Updated :
    (c : TransactionChange) (old : Transaction) (s : Session) (d : Database) {t : Transaction}
    {d' : Database}
    → row_update c old s d ≡ ok (t, d')
    → Updated s c old d t d'
unfolding row_update
row_update-Updated c old s d {t} {d'} h =
    let (new, d₁, e, rest) = >>=-eq-ok _ _ s d h in
    let (keep, r, g, m) = before_update-accepts c old s d e in
    elim (Bool-cases (status_eq old.status new.status)) [
      | inl same ↦
          let (a, b, w) = save_row-same old new s d₁ same rest in
          record {
            row = cc;
            checked = rw a b;
            grown = ground arith;
            recorded = inl (ground (arith, status_eq→≡ old.status new.status same), ground arith);
            writes = ground arith;
          }
      | inr moved ↦
          let (a, b, (who, is, w)) = save_row-moved old new s d₁ moved rest in
          record {
            row = cc;
            checked = rw a b;
            grown = ground arith;
            recorded = inr (ground arith, (who, is, ground arith));
            writes = ground arith;
          }
    ]

pub transaction_update-Updated :
    (i : ℕ) (c : TransactionChange) (s : Session) (d : Database) {t : Transaction} {d' : Database}
    → transaction_update i c s d ≡ ok (t, d')
    → (old : Transaction) × (find (by_id i) d.transactions ≡ some old) × Updated s c old d t d'
unfolding transaction_update ◌>>=◌
transaction_update-Updated i c s d h =
    let (old, d₁, e, rest) =
      >>=-eq-ok (or_throw (find (by_id i) d.transactions) record_not_found) (λ o. row_update c o) s
        d h in
    let (found, keep) = or_throw-eq-ok (find (by_id i) d.transactions) record_not_found s d e in
    (old, found, row_update-Updated c old s d (rw keep at rest))
