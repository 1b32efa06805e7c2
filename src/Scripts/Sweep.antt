-- ===== src/Scripts/Sweep.antt =====
-- The batch of expired payments of seed-demo.ts: the sweep is repeated until the whole batch is expired, or the deadline has passed.
pub mod Ends
use ledger_ops_api.Common.{
  ℕ, ◌+◌, suc, zero, List, [], ◌∷◌, Option, some, none, Bool, true, false, not, ◌||◌, any, find,
  leb, if◌then◌else◌, Result, ok, err, Failure, String, not_found, plain_error,
}
use ledger_ops_api.Database.Tables.{
  Database, Transaction, TransactionStatus, status_eq, pending, expired,
}
use ledger_ops_api.Database.Sql.{Env}
use ledger_ops_api.Transactions.Service.{by_reference}
use ledger_ops_api.Transactions.Expiration.{expire_overdue_pending}

-- EXPIRY_SETTLE_TIMEOUT_MS and EXPIRY_SETTLE_POLL_MS
abbrev pub expiry_settle_timeout_ms : ℕ
expiry_settle_timeout_ms = 30000

abbrev pub expiry_settle_poll_ms : ℕ
expiry_settle_poll_ms = 500

-- What each round finds: the rows that others have locked and the clocks of its sweep, what others do until its readings, and
-- Date.now() at its end.
pub record Rounds : Type 0 where
  pub locked : ℕ → ℕ → Bool
  pub envs : ℕ → ℕ → Env
  pub meanwhile : ℕ → Database → Database
  pub now : ℕ → ℕ

abbrev pub add_status :
    Option Transaction → Option (List TransactionStatus) → Option (List TransactionStatus)
add_status none rest = none
add_status (some t) none = none
add_status (some t) (some ss) = some (t.status ∷ ss)

-- `findByReferenceOrThrow`, for each reference of the batch.
unfoldable pub read_statuses : List String → List Transaction → Option (List TransactionStatus)
read_statuses [] ts = some []
read_statuses (r ∷ rs) ts = add_status (find (by_reference r) ts) (read_statuses rs ts)

abbrev pub is_unexpected : TransactionStatus → Bool
is_unexpected s = not (status_eq s expired || status_eq s pending)

abbrev pub is_pending : TransactionStatus → Bool
is_pending s = status_eq s pending

-- After the readings: an error, the end, or another round.
abbrev pub next_round :
    Option (List TransactionStatus)
    → Bool
    → Database
    → Option (Result (Unit {0}) × Database)
    → Option (Result (Unit {0}) × Database)
next_round none late d again = some (err not_found, d)
next_round (some ss) late d again =
    if any is_unexpected ss
    then some (err plain_error, d)
    else if not (any is_pending ss)
    then some (ok tt, d)
    else if late
    then some (err plain_error, d)
    else again

abbrev pub after_sweep :
    Option (Result ℕ × Database)
    → (Database → Option (Result (Unit {0}) × Database))
    → Option (Result (Unit {0}) × Database)
after_sweep none f = none
after_sweep (some (err e, d)) f = some (err e, d)
after_sweep (some (ok n, d)) f = f d

-- The `for (;;)` loop, on fuel. `none` is the fuel running out.
unfoldable pub settle_rounds :
    ℕ → Rounds → ℕ → ℕ → List String → Database → Option (Result (Unit {0}) × Database)
unfolding read_statuses
settle_rounds zero rounds deadline round references d = none
settle_rounds (suc fuel) rounds deadline round references d =
    after_sweep (expire_overdue_pending (rounds.locked round) (rounds.envs round) d) λ d₁.
      let x = rounds.meanwhile round d₁ in
      let again = settle_rounds fuel rounds deadline (suc round) references x in
      next_round (read_statuses references x.transactions) (leb deadline (rounds.now round)) x again

unfoldable pub settle_expired_batch :
    ℕ → Rounds → ℕ → List String → Database → Option (Result (Unit {0}) × Database)
unfolding settle_rounds
settle_expired_batch fuel rounds started references d =
    settle_rounds fuel rounds (started + expiry_settle_timeout_ms) 0 references d
