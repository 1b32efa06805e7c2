-- ===== src/System/Refunds/Updates.antt =====
-- The updates that confirm no refund and reverse no payment.
use ledger_ops_api.Common.{ℕ, ◌≡◌, ◌≢◌, arith, true, false, refl, ap, sym, inl, inr, ◌∙◌, All-find}
use ledger_ops_api.Database.Tables.{
  Database, Transaction, TransactionStatus, reversed, refund, pending, succeeded, status_eq,
  disputed,
}
use ledger_ops_api.Database.Sql.{Session}
use ledger_ops_api.Database.Rows.{TransactionChange, replace}
use ledger_ops_api.Database.Rows.Keys.{Stored}
use ledger_ops_api.Database.Rows.Updates.{Updated}
use ledger_ops_api.Database.Checks.{is_plain_status}
use ledger_ops_api.Database.Checks.Meaning.{Sound, transaction_checks-Sound}
use ledger_ops_api.Database.StateMachine.{transition_exists}
use ledger_ops_api.System.Refunds.Totals.{refunds_total, confirmed_amount, refunds_total-replace}
use ledger_ops_api.System.Refunds.Owing.{Owing, Updated-Owing}
use ledger_ops_api.System.Rows.{RowsWellFormed}
use ledger_ops_api.System.Trail.{Unique-Keyed}

-- A plain status becomes succeeded from pending only, and leaves it for no plain status.
succeeded_by :
    (a b : TransactionStatus)
    → is_plain_status a ≡ true
    → is_plain_status b ≡ true
    → transition_exists a b ≡ true
    → (a ≡ pending → b ≢ succeeded)
    → status_eq a succeeded ≡ status_eq b succeeded
unfolding transition_exists
succeeded_by a b p q x n = ground arith

confirmed_amount-same :
    (i : ℕ) (t old : Transaction)
    → t.type ≡ old.type
    → t.parent_transaction_id ≡ old.parent_transaction_id
    → t.amount ≡ old.amount
    → (old.type ≡ refund → status_eq old.status succeeded ≡ status_eq t.status succeeded)
    → confirmed_amount i t ≡ confirmed_amount i old
confirmed_amount-same i t old k p a h = rw (k, p, a) (ground arith)

pub left_reversed : (b : TransactionStatus) → transition_exists reversed b ≡ false
unfolding transition_exists
left_reversed b = refl

pub from_disputed :
    (a b : TransactionStatus) → b ≡ reversed → transition_exists a b ≡ true → a ≡ disputed
unfolding transition_exists
from_disputed a b e x = ground arith

module _ (s : Session) (c : TransactionChange) (old : Transaction) (d : Database) (t : Transaction)
    (d' : Database) (h : Stored d.transactions old) (u : Updated s c old d t d') where
  pub stored-Sound : RowsWellFormed d → Sound old
  stored-Sound w = transaction_checks-Sound old (All-find _ _ d.transactions w.checked h)

  succeeded_same :
      RowsWellFormed d
      → (old.type ≡ refund → old.status ≡ pending → t.status ≢ succeeded)
      → old.type ≡ refund
      → status_eq old.status succeeded ≡ status_eq t.status succeeded
  succeeded_same w n k = elim u.recorded [
    | inl (same, _) ↦ ap (λ (x : TransactionStatus). status_eq x succeeded) same
    | inr (x, _) ↦
        let type : t.type ≡ old.type = ap (λ (y : Transaction). y.type) u.row in
        succeeded_by old.status t.status ((stored-Sound w).refund_status k)
          ((transaction_checks-Sound t u.checked).refund_status (type ∙ k)) x (n k)
  ]

  confirmed_same :
      RowsWellFormed d
      → (old.type ≡ refund → old.status ≡ pending → t.status ≢ succeeded)
      → (i : ℕ) → confirmed_amount i t ≡ confirmed_amount i old
  confirmed_same w n i =
      confirmed_amount-same i t old (ap (λ (y : Transaction). y.type) u.row)
        (ap (λ (y : Transaction). y.parent_transaction_id) u.row)
        (ap (λ (y : Transaction). y.amount) u.row) (succeeded_same w n)

  -- No payment has more confirmed refunds than before.
  pub Updated-refunds_total :
      RowsWellFormed d
      → (old.type ≡ refund → old.status ≡ pending → t.status ≢ succeeded)
      → (i : ℕ) → refunds_total i (replace t d.transactions) ≡ refunds_total i d.transactions
  Updated-refunds_total w n i = omega (
    arith,
    confirmed_same w n i,
    refunds_total-replace i t old d.transactions (ap (λ (y : Transaction). y.id) u.row)
        (Unique-Keyed d.transactions w.unique) h,
  )

  still_reversed : old.status ≡ reversed → t.status ≡ reversed
  still_reversed e = elim u.recorded [
    | inl (same, _) ↦ sym same ∙ e
    | inr (x, _) ↦
        let y : transition_exists reversed t.status ≡ true = rw e at x in
        let n = left_reversed t.status in cc
  ]

  -- An update that leaves the refunded amount, confirms no refund and reverses nothing.
  pub Updated-steady :
      (owed : ℕ → ℕ)
      → t.refunded_amount ≡ old.refunded_amount
      → (old.type ≡ refund → old.status ≡ pending → t.status ≢ succeeded)
      → (t.status ≡ reversed → old.status ≡ reversed)
      → Owing owed d
      → Owing owed d'
  Updated-steady owed r n v w =
      let type : t.type ≡ old.type = ap (λ (y : Transaction). y.type) u.row in
      let amount : t.amount ≡ old.amount = ap (λ (y : Transaction). y.amount) u.row in
      let same = confirmed_same w.rows n in
      Updated-Owing s c old d t d' h u owed owed (λ i _. rw (same i) refl)
        (λ total e q k.
          let (exact, whole, within) = q (sym type ∙ k) in
          let is : total ≡ refunds_total old.id d.transactions = omega (arith, e, same old.id) in
          (
            (λ x. rw (is, r) (exact (λ y. x (still_reversed y)))),
            (λ x. r ∙ whole (v x) ∙ sym amount),
            rw (is, r) within,
          ))
        w
