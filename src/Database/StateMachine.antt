-- ===== src/Database/StateMachine.antt =====
-- The table transaction_status_transitions: the state machine as data (init_ledger 2.9).
use ledger_ops_api.Common.{Bool, ◌&&◌, List, [], ◌∷◌, any}
use ledger_ops_api.Database.Tables.{
  TransactionStatus, initiated, pending, succeeded, failed, expired, partially_refunded, refunded,
  disputed, reversed, status_eq,
}

abbrev pub transaction_status_transitions : List (TransactionStatus × TransactionStatus)
transaction_status_transitions =
    (initiated, pending)
    ∷ (initiated, failed)
    ∷ (pending, succeeded)
    ∷ (pending, failed)
    ∷ (pending, expired)
    ∷ (succeeded, partially_refunded)
    ∷ (succeeded, refunded)
    ∷ (succeeded, disputed)
    ∷ (partially_refunded, refunded)
    ∷ (partially_refunded, disputed)
    ∷ (disputed, succeeded)
    ∷ (disputed, partially_refunded)
    ∷ (disputed, reversed)
    ∷ []

-- EXISTS (SELECT 1 ... WHERE "from_status" = from AND "to_status" = to)
unfoldable pub transition_exists : TransactionStatus → TransactionStatus → Bool
transition_exists from to =
    any (λ (t : TransactionStatus × TransactionStatus). status_eq t.0 from && status_eq t.1 to)
      transaction_status_transitions
