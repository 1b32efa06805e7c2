-- ===== src/System/Bookings.antt =====
-- The bookings and the transition of status keep what their statements keep.
use ledger_ops_api.Database.Sql.{Sql, ◌>>=◌}
use ledger_ops_api.Database.Tables.{
  Database, Transaction, TransactionType, LedgerAccount, TransactionStatus, payment, refund,
}
use ledger_ops_api.Transactions.Booking.Accounts.{
  id_of, merchant_find_unique_or_throw, accounts_find_many,
}
use ledger_ops_api.Transactions.Booking.Payment.{book_payment_success}
use ledger_ops_api.Transactions.Booking.Refund.{book_return, accumulate_refund, book_refund_success}
use ledger_ops_api.Transactions.Booking.Dispute.{book_dispute_reversal}
use ledger_ops_api.Transactions.Service.{
  book_success, move, capture_late_acknowledgment, transition_body, after_commit, transition,
  find_by_reference, Outcome, TransitionStatusDto, updated, reconciliation,
}
use ledger_ops_api.System.Preservation.{
  Preserves, CallPreserves, or_throw-Preserves, if-Preserves, guard-Preserves, >>>-CallPreserves,
  >>=-Preserves, pure-Preserves, when-Preserves, sql_transaction-Preserves, select-Preserves,
}
use ledger_ops_api.Common.{List, ℕ, String, some, none, filter, any, str_eq}
use ledger_ops_api.Database.Commit.{with_actor}
use ledger_ops_api.System.Kept.{Written}
use ledger_ops_api.System.Statements.{
  journal_entry_create-Preserves, transaction_update-Preserves, exception_create-Preserves,
  posting_create_many-Preserves,
}

module _ (P : Database → Type 0) (w : Written P) where
  -- A body is preserved part by part.
  step :
      {A B : Type 0} (m : Sql A) (f : A → Sql B)
      → Preserves P m
      → ((a : A) → Preserves P (f a))
      → Preserves P (m >>= f)
  step m f = >>=-Preserves P m f

  id_of-Preserves :
      (accounts : List LedgerAccount) (code : String) → Preserves P (id_of accounts code)
  unfolding id_of
  id_of-Preserves accounts code = step _ _ (or_throw-Preserves P _ _) λ a. pure-Preserves P a.id

  merchant-Preserves : (i : ℕ) → Preserves P (merchant_find_unique_or_throw i)
  unfolding merchant_find_unique_or_throw
  merchant-Preserves i =
      step _ _ (select-Preserves P (λ d. d.merchants)) λ ms. or_throw-Preserves P _ _

  accounts-Preserves : (codes : List String) → Preserves P (accounts_find_many codes)
  unfolding accounts_find_many
  accounts-Preserves codes =
      select-Preserves P (λ d. filter (λ (a : LedgerAccount). any (str_eq a.code) codes) d.accounts)

  book_payment_success-Preserves : (t : Transaction) → Preserves P (book_payment_success t)
  unfolding book_payment_success
  book_payment_success-Preserves t = step _ _ (merchant-Preserves t.merchant_id) λ m.
      step _ _ (accounts-Preserves _) λ accounts.
        step _ _ (journal_entry_create-Preserves P w _) λ entry.
          step _ _ (id_of-Preserves accounts _) λ clearing.
            step _ _ (id_of-Preserves accounts _) λ payable.
              step _ _
                (if-Preserves P _ _ _
                  (step _ _ (id_of-Preserves accounts _) λ i. pure-Preserves P (some i))
                  (pure-Preserves P none))
                λ fees. posting_create_many-Preserves P w _

  book_return-Preserves :
      (t : Transaction) (amount : ℕ) (description : String)
      → Preserves P (book_return t amount description)
  unfolding book_return
  book_return-Preserves t amount description = step _ _ (merchant-Preserves t.merchant_id) λ m.
      step _ _ (accounts-Preserves _) λ accounts.
        step _ _ (journal_entry_create-Preserves P w _) λ entry.
          step _ _ (id_of-Preserves accounts _) λ payable.
            step _ _ (id_of-Preserves accounts _) λ clearing. posting_create_many-Preserves P w _

  accumulate_refund-Preserves : (parent t : Transaction) → Preserves P (accumulate_refund parent t)
  unfolding accumulate_refund
  accumulate_refund-Preserves parent t =
      step _ _ (guard-Preserves P _ _)
        λ _. step _ _ (transaction_update-Preserves P w parent.id _) λ saved. pure-Preserves P tt

  book_refund_success-Preserves : (t : Transaction) → Preserves P (book_refund_success t)
  unfolding book_refund_success
  book_refund_success-Preserves t = step _ _ (or_throw-Preserves P _ _) λ i.
      step _ _ (select-Preserves P (λ d. d.transactions)) λ ts.
        step _ _ (or_throw-Preserves P _ _) λ parent.
          step _ _ (accumulate_refund-Preserves parent t) λ _. book_return-Preserves t t.amount _

  book_dispute_reversal-Preserves : (t : Transaction) → Preserves P (book_dispute_reversal t)
  unfolding book_dispute_reversal
  book_dispute_reversal-Preserves t = step _ _ (guard-Preserves P _ _) λ _.
      step _ _ (transaction_update-Preserves P w t.id _)
        λ updated. step _ _ (book_return-Preserves t _ _) λ _. pure-Preserves P updated

  book_success-Preserves :
      (type : TransactionType) (t : Transaction) → Preserves P (book_success type t)
  unfolding book_success
  book_success-Preserves payment t = book_payment_success-Preserves t
  book_success-Preserves refund t = book_refund_success-Preserves t

  move-Preserves : (row : Transaction) (status : TransactionStatus) → Preserves P (move row status)
  unfolding move
  move-Preserves row status = step _ _ (transaction_update-Preserves P w row.id _) λ first.
      step _ _ (when-Preserves P _ _ (book_success-Preserves row.type first)) λ _.
        step _ _
          (if-Preserves P _ _ _ (book_dispute_reversal-Preserves first) (pure-Preserves P first))
          λ last. pure-Preserves P (updated last)

  capture-Preserves :
      (row : Transaction) (dto : TransitionStatusDto)
      → Preserves P (capture_late_acknowledgment row dto)
  unfolding capture_late_acknowledgment
  capture-Preserves row dto =
      step _ _ (exception_create-Preserves P w _) λ e. pure-Preserves P (reconciliation e.id)

  transition_body-Preserves :
      (reference : String) (dto : TransitionStatusDto) (v : ℕ)
      → Preserves P (transition_body reference dto v)
  unfolding transition_body find_by_reference
  transition_body-Preserves reference dto v =
      step _ _ (step _ _ (select-Preserves P (λ d. d.transactions)) λ ts. or_throw-Preserves P _ _)
        λ row.
          step _ _ (guard-Preserves P _ _)
            λ _. if-Preserves P _ _ _ (capture-Preserves row dto) (move-Preserves row dto.status)

  after_commit-Preserves : (out : Outcome) → CallPreserves P (after_commit out)
  unfolding after_commit CallPreserves
  after_commit-Preserves (updated t) env d p = p
  after_commit-Preserves (reconciliation i) env d p = p

  pub transition-Preserves :
      (reference : String) (dto : TransitionStatusDto) (v : ℕ)
      → CallPreserves P (transition reference dto v)
  unfolding transition with_actor
  transition-Preserves reference dto v =
      >>>-CallPreserves P _ after_commit
        (sql_transaction-Preserves P _ _ (transition_body-Preserves reference dto v))
        after_commit-Preserves
