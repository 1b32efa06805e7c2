-- ===== src/System/Books/Transitions.antt =====
-- A transition books what it makes due.
use ledger_ops_api.Common.{
  ℕ, ◌≡◌, ◌≢◌, arith, true, All-map, inl, inr, ◌∙◌, ap, some, Bool-cases, ◌==◌, Option, option_eq,
}
use ledger_ops_api.Database.Tables.{
  Database, Transaction, EntryDirection, refund, pending, succeeded, reversed,
}
use ledger_ops_api.Database.Sql.{Session}
use ledger_ops_api.Database.Rows.{TransactionChange}
use ledger_ops_api.Database.Rows.Keys.{Stored}
use ledger_ops_api.Database.Rows.Updates.{Updated}
use ledger_ops_api.Transactions.Expiration.Batch.{Keyed-Stored}
use ledger_ops_api.System.Rows.{RowsWellFormed}
use ledger_ops_api.System.Trail.{Unique-Keyed}
use ledger_ops_api.System.Refunds.Totals.{confirmed_amount, refunds_total-replace}
use ledger_ops_api.System.Books.Dues.{due, due_of-open}
use ledger_ops_api.System.Books.Ledger.{Booked, Updated-Booked, only}

parent_of : (o : Option ℕ) (i : ℕ) → option_eq ◌==◌ o (some i) ≡ true → o ≡ some i
parent_of o i h = ground arith

module _ (side : EntryDirection) (s : Session) (c : TransactionChange) (old : Transaction)
    (d : Database) (t : Transaction) (d' : Database) (h : Stored d.transactions old)
    (u : Updated s c old d t d') (w : RowsWellFormed d) where
  -- A refund is confirmed: it is due, and its parent, which is not reversed, has the same due.
  pub Updated-Booked_confirmed :
      old.type ≡ refund
      → old.status ≡ pending
      → t.status ≡ succeeded
      → ((x : Transaction)
          → Stored d.transactions x
          → x.id ≢ t.id
          → t.parent_transaction_id ≡ some x.id
          → x.status ≢ reversed)
      → Booked side (λ _. 0) d
      → Booked side (only side t.id t.amount) d'
  Updated-Booked_confirmed k p st open_parent =
      let id : t.id ≡ old.id = ap (λ (y : Transaction). y.id) u.row in
      let type : t.type ≡ refund = ap (λ (y : Transaction). y.type) u.row ∙ k in
      let keyed = Unique-Keyed d.transactions w.unique in
      let total = λ (i : ℕ). refunds_total-replace i t old d.transactions id keyed h in
      let before = λ (i : ℕ). let z : confirmed_amount i old ≡ 0 = ground arith in z in
      Updated-Booked side (λ _. 0) (only side t.id t.amount) s c old d t d' h u
        (All-map _ _
          (λ x stored n. (
            ground arith,
            elim (Bool-cases (option_eq ◌==◌ t.parent_transaction_id (some x.id))) [
              | inl y ↦
                  due_of-open x.type x.status x.amount _ _
                    (open_parent x stored n (parent_of t.parent_transaction_id x.id y))
              | inr y ↦
                  let z : confirmed_amount x.id t ≡ 0 = ground arith in
                  ap (λ m. due m x) (omega (arith, total x.id, before x.id, z))
            ],
          ))
          d.transactions (Keyed-Stored d.transactions keyed))
        (let mine : (old.id == t.id) ≡ true = ground (arith, id) in
          rw (mine, k, p, type, st) (omega arith))
