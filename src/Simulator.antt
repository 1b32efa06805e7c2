-- ===== src/Simulator.antt =====
-- OperatorSimulatorProcessor (provider-simulator/provider-simulator.processor.ts). The queue belongs to BullMQ, and the random draw
-- of a settlement is an argument: a number below 100.
pub mod Producer
use ledger_ops_api.Common.{ℕ, Result, Option, String, if◌then◌else◌, ok, some, ltb, err, none}
use ledger_ops_api.Database.Tables.{
  TransactionStatus, Database, Transaction, status_eq, initiated, failed, pending, succeeded,
}
use ledger_ops_api.Transactions.Service.{
  TransitionStatusDto, find_by_reference_or_throw, transition,
}
use ledger_ops_api.Database.Commit.{Call, ◌>>>◌, return}
use ledger_ops_api.Database.Rows.{or_else}

pub data Job : Type 0 where
  acknowledge settle other : Job

abbrev pub default_failure_rate_percent : ℕ
default_failure_rate_percent = 10

-- What a failed transition of the simulator leaves: every error ends in silence or in a warning.
abbrev pub swallow : {A : Type 0} → Result A × Database → Result (Unit {0}) × Database
swallow (ok a, d) = (ok tt, d)
swallow (err e, d) = (ok tt, d)

abbrev pub simulated : TransactionStatus → TransitionStatusDto
simulated to = record {
  status = to;
  reason = some "Callback opérateur simulé";
  provider_reference = none;
}

-- `between` is what other requests do between the reading and the transition.
unfoldable pub act_on :
    (Database → Database) → TransactionStatus → TransactionStatus → Transaction → Call (Unit {0})
act_on between expected_from to current env d =
    if status_eq current.status expected_from
    then swallow (transition current.reference (simulated to) current.version env (between d))
    else (ok tt, d)

unfoldable pub transition_if_still_at :
    (Database → Database) → String → TransactionStatus → TransactionStatus → Call (Unit {0})
transition_if_still_at between reference expected_from to =
    find_by_reference_or_throw reference >>> act_on between expected_from to

unfoldable pub settlement : Option ℕ → ℕ → TransactionStatus
settlement failure_rate draw =
    if ltb draw (or_else failure_rate default_failure_rate_percent) then failed else succeeded

unfoldable pub process : (Database → Database) → Option ℕ → ℕ → Job → String → Call (Unit {0})
process between failure_rate draw acknowledge reference =
    transition_if_still_at between reference initiated pending
process between failure_rate draw settle reference =
    transition_if_still_at between reference pending (settlement failure_rate draw)
process between failure_rate draw other reference = return tt
