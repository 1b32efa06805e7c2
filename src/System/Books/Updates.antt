-- ===== src/System/Books/Updates.antt =====
-- The updates of a transition, and what they leave to be booked.
use ledger_ops_api.Common.{
  ℕ, ◌+◌, ◌≡◌, ◌≢◌, arith, true, refl, All-of, inl, inr, ◌∙◌, sym, ap, ◌==◌, ◌⊎◌,
}
use ledger_ops_api.Database.Tables.{
  Database, Transaction, EntryDirection, refund, pending, succeeded, reversed,
}
use ledger_ops_api.Database.Sql.{Session}
use ledger_ops_api.Database.Rows.{TransactionChange}
use ledger_ops_api.Database.Rows.Keys.{Stored}
use ledger_ops_api.Database.Rows.Updates.{Updated}
use ledger_ops_api.Database.StateMachine.{transition_exists}
use ledger_ops_api.Database.Checks.Meaning.{transaction_checks-Sound}
use ledger_ops_api.System.Rows.{RowsWellFormed}
use ledger_ops_api.System.Refunds.Totals.{refunds_total}
use ledger_ops_api.System.Refunds.Updates.{Updated-refunds_total, stored-Sound}
use ledger_ops_api.System.Books.Dues.{due, due_of-move}
use ledger_ops_api.System.Books.Ledger.{Booked, Updated-Booked, only}

module _ (side : EntryDirection) (s : Session) (c : TransactionChange) (old : Transaction)
    (d : Database) (t : Transaction) (d' : Database) (h : Stored d.transactions old)
    (u : Updated s c old d t d') (w : RowsWellFormed d) where
  id : t.id ≡ old.id
  id = ap (λ (y : Transaction). y.id) u.row

  type : t.type ≡ old.type
  type = ap (λ (y : Transaction). y.type) u.row

  amount : t.amount ≡ old.amount
  amount = ap (λ (y : Transaction). y.amount) u.row

  -- The status stays, or goes by a row of the table.
  status_cases : (old.status ≡ t.status) ⊎ (transition_exists old.status t.status ≡ true)
  status_cases = elim u.recorded [ inl (same, _) ↦ inl same | inr (x, _) ↦ inr x ]

  due-steady :
      (n : ℕ)
      → (old.status ≡ pending → t.status ≢ succeeded)
      → (t.status ≡ reversed → old.status ≡ reversed)
      → due n t ≡ due n old
  due-steady n p v =
      rw (type, amount)
        (sym (
          due_of-move old.type old.status t.status old.amount n
            (λ k. (
              (stored-Sound s c old d t d' h u w).refund_status k,
              (transaction_checks-Sound t u.checked).refund_status (type ∙ k),
            ))
            status_cases p v))

  -- Nothing more is due than before.
  pub Updated-Booked_steady :
      (o : ℕ → ℕ)
      → (old.status ≡ pending → t.status ≢ succeeded)
      → (t.status ≡ reversed → old.status ≡ reversed)
      → Booked side o d
      → Booked side o d'
  Updated-Booked_steady o p v =
      let total = Updated-refunds_total s c old d t d' h u w (λ _. p) in
      Updated-Booked side o o s c old d t d' h u
        (All-of _ (λ x _. (refl, ap (λ n. due n x) (total x.id))) d.transactions)
        (rw (total old.id)
          (ap (λ n. n + o old.id) (sym (due-steady (refunds_total old.id d.transactions) p v))))

  -- Something is due that has yet to be booked, for this row alone.
  pub Updated-Booked-only :
      (a : ℕ)
      → (old.type ≡ refund → old.status ≡ pending → t.status ≢ succeeded)
      → due (refunds_total old.id d.transactions) t
        ≡ due (refunds_total old.id d.transactions) old + a
      → Booked side (λ _. 0) d
      → Booked side (only side t.id a) d'
  Updated-Booked-only a p e =
      let total = Updated-refunds_total s c old d t d' h u w p in
      Updated-Booked side (λ _. 0) (only side t.id a) s c old d t d' h u
        (All-of _ (λ x n. (ground arith, ap (λ m. due m x) (total x.id))) d.transactions)
        (rw (total old.id)
          (let mine : (old.id == t.id) ≡ true = ground (arith, id) in rw mine (omega (arith, e))))
