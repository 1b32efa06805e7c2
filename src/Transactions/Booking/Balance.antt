-- ===== src/Transactions/Booking/Balance.antt =====
-- The lines of each booking balance.
use ledger_ops_api.Common.{ℕ, ◌≡◌, ◌*◌, ◌≤◌, ◌<◌, ◌+◌, Option, List, arith, is_some, ltb}
use ledger_ops_api.Transactions.Booking.Payment.{compute_commission, payment_postings}
use ledger_ops_api.Transactions.Booking.Refund.{return_postings}
use ledger_ops_api.Database.Ledger.{total, in_currency}
use ledger_ops_api.Database.Tables.{Transaction, LedgerPosting}
use ledger_ops_api.Database.Ledger.Balance.{Offsets}
use ledger_ops_api.Database.Ledger.Statements.{push_all}

-- The commission is 1.5 % of the amount, rounded down, and never takes it all.
pub compute_commission_bounds :
    (amount : ℕ)
    → (compute_commission amount * 1000 ≤ amount * 15)
      × (amount * 15 < compute_commission amount * 1000 + 1000)
      × (compute_commission amount ≤ amount)
unfolding compute_commission
compute_commission_bounds amount = omega arith

pub payment_postings-Offsets :
    (t : Transaction) (e a b : ℕ) (f : Option ℕ) (ps : List LedgerPosting)
    → is_some f ≡ ltb 0 (compute_commission t.amount)
    → Offsets ps (push_all (payment_postings t e a b f) ps)
unfolding payment_postings total in_currency
payment_postings-Offsets t e a b f ps due currency =
    ground (arith, compute_commission_bounds t.amount)

pub return_postings-Offsets :
    (t : Transaction) (amount e a b : ℕ) (ps : List LedgerPosting)
    → Offsets ps (push_all (return_postings t amount e a b) ps)
unfolding return_postings total in_currency
return_postings-Offsets t amount e a b ps currency = ground arith
