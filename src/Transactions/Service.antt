-- ===== src/Transactions/Service.antt =====
-- TransactionsService (transactions.service.ts): reading by reference, and the transition of status.
pub mod Moves
pub mod Runs
pub mod Books
pub mod Response
pub mod Locking
pub mod Once
pub mod Refunds
pub mod Disputes
use ledger_ops_api.Common.{
  ℕ, String, Option, none, some, Bool, ◌&&◌, find, ◌==◌, str_eq, not_found, precondition_failed,
  reconciliation_required, if◌then◌else◌,
}
use ledger_ops_api.Database.Tables.{
  Transaction, TransactionStatus, pending, succeeded, expired, disputed, reversed, status_eq,
  TransactionType, payment, refund, late_acknowledgment, system,
}
use ledger_ops_api.Database.Sql.{Sql, pure, ◌>>=◌, ◌>>◌, guard, when, or_throw, select}
use ledger_ops_api.Database.Rows.{transaction_update}
use ledger_ops_api.Database.Others.{exception_create, ExceptionData}
use ledger_ops_api.Database.Commit.{Call, with_actor, autocommit, ◌>>>◌, return, throw_http}
use ledger_ops_api.Transactions.Booking.Payment.{book_payment_success}
use ledger_ops_api.Transactions.Booking.Refund.{book_refund_success}
use ledger_ops_api.Transactions.Booking.Dispute.{book_dispute_reversal}

abbrev pub by_reference : String → Transaction → Bool
by_reference r t = str_eq t.reference r

-- The row with this reference, also where the statement locks it (FOR UPDATE).
unfoldable pub find_by_reference : String → Sql Transaction
find_by_reference reference = do
  ts ← select (λ d. d.transactions)
  or_throw (find (by_reference reference) ts) not_found

unfoldable pub find_by_reference_or_throw : String → Call Transaction
unfolding find_by_reference autocommit
find_by_reference_or_throw reference = autocommit (find_by_reference reference)

pub record TransitionStatusDto : Type 0 where
  pub status : TransactionStatus
  pub reason : Option String
  pub provider_reference : Option String

-- What the SQL transaction hands back: the late acknowledgment must be committed before it is thrown.
pub data Outcome : Type 0 where
  updated : Transaction → Outcome
  reconciliation : ℕ → Outcome

abbrev pub late_exception : Transaction → TransitionStatusDto → ExceptionData
late_exception row dto = record {
  kind = late_acknowledgment;
  transaction_id = some row.id;
  reported_status = some dto.status;
  provider_reference = dto.provider_reference;
  detail = none;
}

-- The operator confirms after the deadline (ADR 0007).
unfoldable pub capture_late_acknowledgment : Transaction → TransitionStatusDto → Sql Outcome
capture_late_acknowledgment row dto = do
  e ← exception_create (late_exception row dto)
  pure (reconciliation e.id)

unfoldable pub book_success : TransactionType → Transaction → Sql (Unit {0})
book_success payment t = book_payment_success t
book_success refund t = book_refund_success t

-- The update of the locked row, with the bookings that go with it.
unfoldable pub move : Transaction → TransactionStatus → Sql Outcome
unfolding book_success
move row status = do
  first ← transaction_update row.id (record { status = some status; refunded_amount = none })
  when (status_eq status succeeded && status_eq row.status pending) (book_success row.type first)
  last ←
      (if status_eq status reversed && status_eq row.status disputed
        then book_dispute_reversal first
        else pure first)
  pure (updated last)

unfoldable pub transition_body : String → TransitionStatusDto → ℕ → Sql Outcome
unfolding find_by_reference capture_late_acknowledgment move
transition_body reference dto expected_version = do
  row ← find_by_reference reference
  guard (row.version == expected_version) precondition_failed
  if status_eq row.status expired && status_eq dto.status succeeded
      then capture_late_acknowledgment row dto
      else move row dto.status

unfoldable pub after_commit : Outcome → Call Transaction
after_commit (updated t) = return t
after_commit (reconciliation id) = throw_http (reconciliation_required id)

unfoldable pub transition : String → TransitionStatusDto → ℕ → Call Transaction
unfolding transition_body after_commit with_actor
transition reference dto expected_version =
    with_actor (record { type = system; id = "api:transactions"; reason = dto.reason })
      (transition_body reference dto expected_version)
    >>> after_commit
