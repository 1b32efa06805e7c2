-- ===== src/Database/Rows/Inserts.antt =====
-- What an INSERT of a transaction writes, and when it is refused.
use ledger_ops_api.Common.{
  ℕ, ◌≡◌, Bool, not, true, some, ok, false, find, arith, any, ◌∷◌, ◌⊎◌, none, ◌+◌, ◌≤◌, ◌∙◌,
}
use ledger_ops_api.Database.Rows.{
  TransactionData, fn_transactions_before_insert, transaction_create, new_row, by_id, collides,
  history_entry, insert_row, parent_known,
}
use ledger_ops_api.Database.Sql.{Session, ◌>>=◌, Actor}
use ledger_ops_api.Database.Tables.{
  Database, refund, Transaction, payment, succeeded, partially_refunded,
}
use ledger_ops_api.Database.Checks.{transaction_checks}
use ledger_ops_api.Database.Sql.Inversion.{bind-elim, guard-eq-ok}
use ledger_ops_api.Database.Rows.Updates.{record_status-writes}

-- What the trigger asks of a refund and its parent.
abbrev pub Refundable : TransactionData → Database → Type 0
Refundable x d =
    x.type ≡ refund
    → (i : ℕ) (p : Transaction) → x.parent_transaction_id ≡ some i
    → find (by_id i) d.transactions ≡ some p
    → (p.type ≡ payment)
      × ((p.status ≡ succeeded) ⊎ (p.status ≡ partially_refunded))
      × (x.amount + p.refunded_amount ≤ p.amount)

before_insert-eq-ok :
    (x : TransactionData) (s : Session) (d : Database) {u : Unit {0}} {d' : Database}
    → fn_transactions_before_insert (new_row s x) s d ≡ ok (u, d')
    → (d' ≡ d) × Refundable x d
unfolding fn_transactions_before_insert new_row ◌>>=◌
before_insert-eq-ok x s d {u} {d'} h = (ground arith, λ e i p f g. ground arith)

pub record Inserted (s : Session) (x : TransactionData) (d : Database) (t : Transaction)
    (d' : Database) : Type 0 where
  pub row : t ≡ new_row s x
  pub checked : transaction_checks t ≡ true
  pub unique : any (collides t) d.transactions ≡ false
  pub refundable : Refundable x d
  pub parent : parent_known t.parent_transaction_id d.transactions ≡ true
  pub actor : Actor
  pub declared : s.actor ≡ some actor
  pub writes : d' ≡ record d {
    transactions = t ∷ d.transactions;
    history = history_entry actor s.env.current_timestamp none t ∷ d.history;
  }

not→false : (b : Bool) → not b ≡ true → b ≡ false
not→false b h = ground arith

insert_row-Inserted :
    (x : TransactionData) (s : Session) (d : Database) {t : Transaction} {d' : Database}
    → insert_row (new_row s x) s d ≡ ok (t, d')
    → Inserted s x d t d'
unfolding insert_row
insert_row-Inserted x s d {t} {d'} h =
    let n = new_row s x in
    bind-elim _ _ s d h λ _ d₂ h₂ r₂. bind-elim _ _ s d₂ r₂ λ _ d₃ h₃ r₃.
      bind-elim _ _ s d₃ r₃ λ _ d₄ h₄ r₄. bind-elim _ _ s d₄ r₄ λ now d₅ h₅ r₅.
        bind-elim _ _ s d₅ r₅ λ _ d₆ h₆ r₆. bind-elim _ _ s d₆ r₆ λ _ d₇ h₇ r₇.
          bind-elim _ _ s d₇ r₇ λ _ d₈ h₈ r₈. bind-elim _ _ s d₈ r₈ λ _ d₉ h₉ r₉.
            bind-elim _ _ s d₉ r₉ λ _ e h₁₀ r₁₀.
              let k₂ = (guard-eq-ok _ _ s d h₂).1 in
              let (k₃, able) = before_insert-eq-ok x s d (rw k₂ at h₃) in
              let (checked, k₄) = guard-eq-ok _ _ s d₃ h₄ in
              let k₅ : d₅ ≡ d = cc in
              let n₅ : now ≡ d = cc in
              let (free, k₆) = guard-eq-ok _ _ s d₅ h₆ in
              let k₇ = (guard-eq-ok _ _ s d₆ h₇).1 in
              let (parent, k₈) = guard-eq-ok _ _ s d₇ h₈ in
              let k : d₈ ≡ d = cc in
              let w₉ : d₉ ≡ record d₈ { transactions = n ∷ d₈.transactions } = cc in
              let (actor, declared, w) = record_status-writes none n s d₉ h₁₀ in
              let is : t ≡ n = cc in
              let last : d' ≡ e = cc in
              record {
                row = is;
                checked = rw is checked;
                unique = rw is (not→false (any (collides n) d.transactions) (rw n₅ at free));
                refundable = able;
                parent = rw is (rw n₅ at parent);
                actor = actor;
                declared = declared;
                writes = last ∙ w ∙ rw (w₉, k, is);
              }

pub transaction_create-Inserted :
    (x : TransactionData) (s : Session) (d : Database) {t : Transaction} {d' : Database}
    → transaction_create x s d ≡ ok (t, d')
    → Inserted s x d t d'
unfolding transaction_create
transaction_create-Inserted x s d {t} {d'} h = insert_row-Inserted x s d h
