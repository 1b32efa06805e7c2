-- ===== src/Database/Commit.antt =====
-- SQL transactions from the outside (src/database/prisma.ts): BEGIN, the body, the deferred checks
-- and COMMIT, or ROLLBACK.
pub mod Cases
use ledger_ops_api.Common.{Option, none, some, Result, ok, err, Failure}
use ledger_ops_api.Database.Tables.{Database}
use ledger_ops_api.Database.Sql.{Sql, Actor, Env, pure, ◌>>=◌, ◌>>◌}
use ledger_ops_api.Database.Ledger.{commit_checks}

-- A call of a service: it returns or throws, and leaves a database either way.
abbrev pub Call : Type 0 → Type 0
Call A = Env → Database → Result A × Database

-- COMMIT keeps what the body wrote; any error rolls everything back.
abbrev pub finish : {A : Type 0} → Database → Result (A × Database) → Result A × Database
finish d (ok (a, d')) = (ok a, d')
finish d (err e) = (err e, d)

abbrev pub committed : {A : Type 0} → Sql A → Sql A
committed body = do a ← body; commit_checks; pure a

-- prisma.$transaction
abbrev pub sql_transaction : {A : Type 0} → Option Actor → Sql A → Call A
sql_transaction actor body env d = finish d (committed body (record { env = env; actor = actor }) d)

unfoldable pub with_actor : {A : Type 0} → Actor → Sql A → Call A
with_actor actor body = sql_transaction (some actor) body

-- One statement outside an explicit transaction is a transaction of its own, with no actor.
unfoldable pub autocommit : {A : Type 0} → Sql A → Call A
autocommit body = sql_transaction none body

-- `throw e`, outside any SQL transaction.
abbrev pub throw_http : {A : Type 0} → Failure → Call A
throw_http e env d = (err e, d)

abbrev pub return : {A : Type 0} → A → Call A
return a env d = (ok a, d)

abbrev pub then_call :
    {A B : Type 0}
    → Result A × Database
    → (A → Database → Result B × Database)
    → Result B × Database
then_call (ok a, d) f = f a d
then_call (err e, d) f = (err e, d)

infixl 5 ◌>>>◌
-- `await`: the next call finds what the one before it left.
abbrev pub ◌>>>◌ : {A B : Type 0} → Call A → (A → Call B) → Call B
◌>>>◌ m f env d = then_call (m env d) (λ a d'. f a env d')
