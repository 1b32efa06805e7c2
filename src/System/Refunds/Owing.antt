-- ===== src/System/Refunds/Owing.antt =====
-- Databases whose payments are refunded by what their confirmed refunds add up to, less what is
-- owed, and how updates of rows move what is owed.
use ledger_ops_api.Common.{
  ℕ, ◌+◌, ◌≡◌, ◌≢◌, List, All, All-map, All-find, true, refl, Option, some, none, ap, sym, ◌∙◌,
}
use mathlib.Core.Path.{subst}
use ledger_ops_api.Database.Tables.{Database, Transaction}
use ledger_ops_api.Database.Sql.{Session}
use ledger_ops_api.Database.Rows.{replace, parent_known, TransactionChange}
use ledger_ops_api.Database.Rows.Keys.{Stored, any-replace}
use ledger_ops_api.Database.Rows.Updates.{Updated}
use ledger_ops_api.System.Trail.{Unique-Keyed}
use ledger_ops_api.System.Rows.{RowsWellFormed, RowsWellFormed-Written, All-replace}
use ledger_ops_api.System.Refunds.Totals.{refunds_total, confirmed_amount}
use ledger_ops_api.System.Refunds.Accounts.{Accounts, Accounted, Accounts-replace}

-- The parent of every row is a row.
abbrev pub Parents : List Transaction → List Transaction → Type 0
Parents us ts = All (λ (t : Transaction). parent_known t.parent_transaction_id us ≡ true) ts

pub record Owing (owed : ℕ → ℕ) (d : Database) : Type 0 where
  pub rows : RowsWellFormed d
  pub parents : Parents d.transactions d.transactions
  pub accounts : Accounts owed d.transactions

pub parent_known-replace :
    (o : Option ℕ) (u : Transaction) (ts : List Transaction)
    → parent_known o (replace u ts) ≡ parent_known o ts
parent_known-replace none u ts = refl
parent_known-replace (some i) u ts = any-replace i u ts

Parents-replace :
    (u r : Transaction) (ts : List Transaction)
    → u.parent_transaction_id ≡ r.parent_transaction_id
    → Stored ts r
    → Parents ts ts
    → Parents (replace u ts) (replace u ts)
Parents-replace u r ts same h k =
    let still = λ (t : Transaction) (e : parent_known t.parent_transaction_id ts ≡ true).
      parent_known-replace t.parent_transaction_id u ts ∙ e in
    All-replace _ u ts (still u (rw same (All-find _ _ ts k h)))
      (All-map _ _ (λ t e n. still t e) ts k)

module _ (s : Session) (c : TransactionChange) (old : Transaction) (d : Database) (t : Transaction)
    (d' : Database) (h : Stored d.transactions old) (u : Updated s c old d t d') where
  pub Updated-Parents :
      Parents d.transactions d.transactions → Parents d'.transactions d'.transactions
  Updated-Parents k =
      subst (λ ts. Parents ts ts) (sym (ap (λ (x : Database). x.transactions) u.writes))
        (Parents-replace t old d.transactions
          (ap (λ (y : Transaction). y.parent_transaction_id) u.row) h k)

  -- An update that moves what is owed.
  pub Updated-Owing :
      (owed owed' : ℕ → ℕ)
      → ((i : ℕ) → i ≢ t.id → owed i + confirmed_amount i t ≡ owed' i + confirmed_amount i old)
      → ((total : ℕ)
          → total + confirmed_amount old.id old
            ≡ refunds_total old.id d.transactions + confirmed_amount old.id t
          → Accounted (refunds_total old.id d.transactions) (owed old.id) old
          → Accounted total (owed' old.id) t)
      → Owing owed d
      → Owing owed' d'
  Updated-Owing owed owed' shift own w =
      let is = ap (λ (x : Database). x.transactions) u.writes in
      let id : t.id ≡ old.id = ap (λ (y : Transaction). y.id) u.row in
      record {
        rows = RowsWellFormed-Written.update s c old d t d' h u w.rows;
        parents = Updated-Parents w.parents;
        accounts = subst (Accounts owed') (sym is) (
            Accounts-replace owed owed' t old d.transactions id
              (Unique-Keyed d.transactions w.rows.unique) h shift own w.accounts);
      }
