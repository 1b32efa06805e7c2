-- ===== src/Transactions/Booking/Dispute.antt =====
-- The booking of a lost dispute (dispute-reversal-booking.ts).
use ledger_ops_api.Common.{◌-◌, none, some, ltb, plain_error}
use ledger_ops_api.Database.Tables.{Transaction}
use ledger_ops_api.Database.Sql.{Sql, pure, ◌>>=◌, ◌>>◌, guard}
use ledger_ops_api.Database.Rows.{transaction_update}
use ledger_ops_api.Transactions.Booking.Accounts.{◌⧺◌}
use ledger_ops_api.Transactions.Booking.Refund.{book_return}

-- `remaining <= 0n` is tested on integers: it says that no less than the amount is refunded.
unfoldable pub book_dispute_reversal : Transaction → Sql Transaction
unfolding book_return
book_dispute_reversal t = do
  guard (ltb t.refunded_amount t.amount) plain_error
  updated ← transaction_update t.id (record { status = none; refunded_amount = some t.amount })
  book_return t (t.amount - t.refunded_amount) ("Litige perdu " ⧺ t.reference)
  pure updated
