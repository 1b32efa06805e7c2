-- ===== src/Transactions/Idempotency.antt =====
-- createTransactionIdempotently (transactions/idempotent-transaction.util.ts).
pub mod Replay
use ledger_ops_api.Common.{
  ℕ, ◌≡◌, String, Bool, Failure, str_eq, find, none, err, ok, false, some, if◌then◌else◌, true,
  unprocessable_entity, Result, Option,
}
use ledger_ops_api.Database.Tables.{Transaction, Database, system}
use ledger_ops_api.Database.Commit.{with_actor, Call}
use ledger_ops_api.Database.Sql.{Sql, Env}

pub record IdempotentCreateResult : Type 0 where
  pub transaction : Transaction
  pub replayed : Bool

abbrev pub by_key : String → Transaction → Bool
by_key k t = str_eq t.idempotency_key k

-- The `catch`: the row that has the key, if there is one, decides.
abbrev pub recover_with :
    Option Transaction → String → Failure → Database → Result IdempotentCreateResult × Database
recover_with none fingerprint error d = (err error, d)
recover_with (some existing) fingerprint error d =
    if str_eq existing.request_fingerprint fingerprint
    then (ok (record { transaction = existing; replayed = true }), d)
    else (err unprocessable_entity, d)

abbrev pub recover : String → String → Failure → Call IdempotentCreateResult
recover key fingerprint error env d =
    recover_with (find (by_key key) d.transactions) fingerprint error d

-- Between the failed insert and the look-up other requests may be committed: `meanwhile` is what they
-- make of the database.
abbrev pub answer :
    (meanwhile : Database → Database) (key fingerprint : String)
    → Env
    → Result Transaction × Database
    → Result IdempotentCreateResult × Database
answer meanwhile key fingerprint env (ok t, d) =
    (ok (record { transaction = t; replayed = false }), d)
answer meanwhile key fingerprint env (err error, d) =
    recover key fingerprint error env (meanwhile d)

unfoldable pub create_transaction_idempotently :
    (meanwhile : Database → Database) (actor_id key fingerprint : String)
    → Sql Transaction
    → Call IdempotentCreateResult
create_transaction_idempotently meanwhile actor_id key fingerprint insert env d =
    answer meanwhile key fingerprint env
      (with_actor (record { type = system; id = actor_id; reason = none }) insert env d)
