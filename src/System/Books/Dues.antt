-- ===== src/System/Books/Dues.antt =====
-- What the ledger must have booked for a transaction, by its status.
use ledger_ops_api.Common.{ℕ, ◌+◌, ◌-◌, ◌≡◌, ◌≢◌, ◌⊎◌, arith, true}
use ledger_ops_api.Database.Tables.{
  Transaction, TransactionType, TransactionStatus, payment, refund, initiated, pending, succeeded,
  failed, expired, partially_refunded, refunded, disputed, reversed,
}
use ledger_ops_api.Database.Checks.{is_plain_status}
use ledger_ops_api.Database.StateMachine.{transition_exists}

-- A confirmed payment is booked with its amount, a reversed one also with the return of what its
-- refunds had left; a refund with its amount once it is confirmed.
abbrev pub due_of : TransactionType → TransactionStatus → ℕ → ℕ → ℕ
due_of k initiated amount refunds = 0
due_of k pending amount refunds = 0
due_of k failed amount refunds = 0
due_of k expired amount refunds = 0
due_of k succeeded amount refunds = amount
due_of refund partially_refunded amount refunds = 0
due_of refund refunded amount refunds = 0
due_of refund disputed amount refunds = 0
due_of refund reversed amount refunds = 0
due_of payment partially_refunded amount refunds = amount
due_of payment refunded amount refunds = amount
due_of payment disputed amount refunds = amount
due_of payment reversed amount refunds = amount + (amount - refunds)

abbrev pub due : ℕ → Transaction → ℕ
due refunds t = due_of t.type t.status t.amount refunds

pub due_of-open :
    (k : TransactionType) (st : TransactionStatus) (a m n : ℕ)
    → st ≢ reversed
    → due_of k st a m ≡ due_of k st a n
due_of-open k st a m n h = ground arith

-- A move that confirms nothing and reverses nothing leaves what is due.
pub due_of-move :
    (k : TransactionType) (x y : TransactionStatus) (a n : ℕ)
    → (k ≡ refund → (is_plain_status x ≡ true) × (is_plain_status y ≡ true))
    → (x ≡ y) ⊎ (transition_exists x y ≡ true)
    → (x ≡ pending → y ≢ succeeded)
    → (y ≡ reversed → x ≡ reversed)
    → due_of k x a n ≡ due_of k y a n
unfolding transition_exists
due_of-move k x y a n plain m c r = ground arith
