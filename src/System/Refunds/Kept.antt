-- ===== src/System/Refunds/Kept.antt =====
-- Every call keeps the refunded amounts in step with the refunds.
use ledger_ops_api.Common.{
  ℕ, ◌≡◌, arith, true, false, refl, some, none, ap, sym, List, All-map, ◌∷◌, Option, any,
}
use mathlib.Core.Path.{subst}
use ledger_ops_api.Database.Tables.{Database, Transaction, initiated, expired}
use ledger_ops_api.Database.Sql.{Session}
use ledger_ops_api.Database.Rows.{TransactionData, parent_known, by_id, transaction_create, new_row}
use ledger_ops_api.Database.Rows.Inserts.{Inserted, transaction_create-Inserted}
use ledger_ops_api.Transactions.Expiration.Batch.{expire}
use ledger_ops_api.System.Preservation.{ok-Preserves}
use ledger_ops_api.System.Trail.{any-collides, Unique-Keyed}
use ledger_ops_api.System.Kept.{Kept}
use ledger_ops_api.System.Rows.{RowsWellFormed-Written}
use ledger_ops_api.System.Batches.{expire_one_batch-Expires, Expiring}
use ledger_ops_api.System.Refunds.Owing.{Parents}
use ledger_ops_api.System.Refunds.Totals.{refunds_total-absent, confirmed_amount}
use ledger_ops_api.System.Refunds.Accounts.{Accounts}
use ledger_ops_api.System.Refunds.Updates.{Updated-steady}
use ledger_ops_api.System.Refunds.Transitions.{Settled, transition-Settled, Owing-same}

pub parent_known-cons :
    (o : Option ℕ) (t : Transaction) (ts : List Transaction)
    → parent_known o ts ≡ true
    → parent_known o (t ∷ ts) ≡ true
parent_known-cons none t ts k = refl
parent_known-cons (some i) t ts k = ground arith

initiated-unconfirmed : (i : ℕ) (t : Transaction) → t.status ≡ initiated → confirmed_amount i t ≡ 0
initiated-unconfirmed i t e = rw e (ground arith)

-- A new payment has no refunds, and a new refund is not confirmed.
Accounts-insert :
    (t : Transaction) (ts : List Transaction)
    → t.status ≡ initiated
    → t.refunded_amount ≡ 0
    → any (by_id t.id) ts ≡ false
    → Parents ts ts
    → Accounts (λ _. 0) ts
    → Accounts (λ _. 0) (t ∷ ts)
Accounts-insert t ts st r fresh k a =
    let none_yet = refunds_total-absent t.id ts ts fresh k in
    let own = initiated-unconfirmed t.id t st in
    (
      (λ _. ((λ _. omega arith), (λ e. absurd (cc)), omega arith)),
      All-map _ _
          (λ x q e.
            let (exact, whole, within) = q e in
            let z = initiated-unconfirmed x.id t st in
            ((λ n. omega (arith, exact n)), whole, omega arith))
          ts a,
    )

pub Inserted-Settled :
    (s : Session) (x : TransactionData) (d : Database) (t : Transaction) (d' : Database)
    → Inserted s x d t d'
    → Settled d
    → Settled d'
unfolding new_row
Inserted-Settled s x d t d' i w =
    let is : d'.transactions ≡ t ∷ d.transactions =
      ap (λ (y : Database). y.transactions) i.writes in
    let fresh = any-collides t d.transactions i.unique in
    record {
      rows = RowsWellFormed-Written.insertion s x d t d' i w.rows;
      parents =
          subst (λ ts. Parents ts ts) (sym is)
            (
              parent_known-cons t.parent_transaction_id t d.transactions i.parent,
              All-map _ _ (λ y k. parent_known-cons y.parent_transaction_id t d.transactions k)
                  d.transactions w.parents,
            );
      accounts = subst (Accounts (λ _. 0)) (sym is) (
          Accounts-insert t d.transactions (ap (λ (y : Transaction). y.status) i.row)
            (ap (λ (y : Transaction). y.refunded_amount) i.row) fresh w.parents w.accounts);
    }

pub Settled-Expiring : Expiring Settled
Settled-Expiring = record {
  keyed = λ d w. Unique-Keyed d.transactions w.rows.unique;
  expiry = λ s r d t d' h p u w.
      let st : t.status ≡ expired = ap (λ (y : Transaction). y.status) u.row in
      Updated-steady s expire r d t d' h u (λ _. 0)
        (ap (λ (y : Transaction). y.refunded_amount) u.row) (λ _ _ e. cc) (λ e. absurd (cc)) w;
}

pub Settled-Kept : Kept Settled
Settled-Kept = record {
  creations = λ x.
      ok-Preserves Settled (transaction_create x)
        λ s d t d' e w. Inserted-Settled s x d t d' (transaction_create-Inserted x s d e) w;
  transitions = transition-Settled;
  batches = expire_one_batch-Expires Settled Settled-Expiring;
  others = λ d d' same w. Owing-same (λ _. 0) d d' same.transactions same.history w;
}
