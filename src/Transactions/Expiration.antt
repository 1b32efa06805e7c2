-- ===== src/Transactions/Expiration.antt =====
-- The expiration of overdue pending transactions (transactions.service.ts, expireOverduePending and
-- expireOneBatch; expiration/expiration.scheduler.ts).
pub mod Batch
pub mod Rounds
pub mod Loop
use ledger_ops_api.Common.{
  ℕ, List, Bool, ◌∷◌, take, if◌then◌else◌, filter, err, [], ◌&&◌, leb, some, not, suc, ok, ◌==◌,
  length, none, false, ltb, Option, Result, ◌+◌, true, zero, sort_by,
}
use ledger_ops_api.Database.Tables.{Transaction, status_eq, pending, system, Database, expired}
use ledger_ops_api.Database.Commit.{with_actor, Call}
use ledger_ops_api.Database.Rows.{or_else, row_update}
use ledger_ops_api.Database.Sql.{Sql, pure, Env, ◌>>=◌, select, ◌>>◌, Actor}

abbrev pub expiration_batch_size : ℕ
expiration_batch_size = 200

-- "status" = 'PENDING' AND "expires_at" < now. A null date is never overdue.
unfoldable pub overdue : ℕ → Transaction → Bool
overdue now t =
    status_eq t.status pending && (elim t.expires_at [ none ↦ false | some e ↦ ltb e now ])

abbrev pub expiry_of : Transaction → ℕ
expiry_of t = or_else t.expires_at 0

-- ORDER BY "expires_at"
abbrev pub sooner : Transaction → Transaction → Bool
sooner t x = leb (expiry_of t) (expiry_of x)

-- The rows that a batch may take: overdue, and not locked by another transaction (SKIP LOCKED).
unfoldable pub takeable : (ℕ → Bool) → ℕ → Transaction → Bool
unfolding overdue
takeable locked now t = overdue now t && not (locked t.id)

-- The rows that the batch locks, the oldest first.
unfoldable pub overdue_batch : (ℕ → Bool) → ℕ → List Transaction → List Transaction
overdue_batch locked now ts =
    take expiration_batch_size (sort_by sooner (filter (takeable locked now) ts))

-- `transaction.updateMany`, on the locked rows.
unfoldable pub expire_rows : List Transaction → Sql (Unit {0})
expire_rows [] = pure tt
expire_rows (t ∷ ts) = do
  expired_row ← row_update (record { status = some expired; refunded_amount = none }) t
  expire_rows ts

abbrev pub expiration_actor : Actor
expiration_actor = record {
  type = system;
  id = "expiration-job";
  reason = some "Expiration automatique (délai dépassé)";
}

unfoldable pub batch_body : (ℕ → Bool) → ℕ → Sql ℕ
unfolding overdue_batch expire_rows
batch_body locked now = do
  ts ← select (λ x. x.transactions)
  expire_rows (overdue_batch locked now ts)
  pure (length (overdue_batch locked now ts))

unfoldable pub expire_one_batch : (ℕ → Bool) → Call ℕ
unfolding batch_body with_actor
expire_one_batch locked env d = with_actor expiration_actor (batch_body locked env.clock_now) env d

-- A batch that throws ends the loop.
abbrev pub after_batch :
    Result ℕ × Database
    → (ℕ → Database → Option (Result ℕ × Database))
    → Option (Result ℕ × Database)
after_batch (ok n, d) next = next n d
after_batch (err e, d) next = some (err e, d)

-- The `do ... while` loop, on fuel: one batch in each round, until one is empty. Each round reads the
-- clock anew and is a SQL transaction of its own: `envs` gives what it finds. `none` is the fuel
-- running out.
unfoldable pub expire_loop :
    ℕ → (ℕ → Bool) → (ℕ → Env) → ℕ → Database → Option (Result ℕ × Database)
unfolding expire_one_batch
expire_loop zero locked envs total d = none
expire_loop (suc fuel) locked envs total d =
    after_batch (expire_one_batch locked (envs fuel) d) λ n d'. elim (n == 0) [
      | true ↦ some (ok total, d')
      | false ↦ expire_loop fuel locked envs (total + n) d'
    ]

-- The pending rows, each of which a batch may expire once.
unfoldable pub pending_count : List Transaction → ℕ
pending_count ts = length (filter (λ (t : Transaction). status_eq t.status pending) ts)

unfoldable pub expire_overdue_pending :
    (ℕ → Bool) → (ℕ → Env) → Database → Option (Result ℕ × Database)
unfolding expire_loop pending_count
expire_overdue_pending locked envs d =
    expire_loop (pending_count d.transactions + 1) locked envs 0 d
