-- ===== src/Database/Sql.antt =====
-- SQL transactions. A statement reads the session and the database, and returns its rows and the
-- changed database, or an error, which leaves nothing behind (src/database/prisma.ts, withActor).
pub mod Inversion
use ledger_ops_api.Common.{
  ℕ, String, Option, none, some, Bool, true, false, Result, ok, err, Failure, str_eq, if◌then◌else◌,
}
use ledger_ops_api.Database.Tables.{Database, ActorType}

-- The tables whose rows take their id from gen_random_uuid().
pub data Table : Type 0 where
  transactions journal_entries reconciliation_exceptions merchants ledger_accounts api_keys : Table

pub record Actor : Type 0 where
  pub type : ActorType
  pub id : String
  pub reason : Option String

-- What a call finds in its surroundings: the clock of the server and of the application, the number
-- of the SQL transaction, and the random ids that it draws.
pub record Env : Type 0 where
  pub current_timestamp : ℕ
  pub clock_now : ℕ
  pub txid_current : ℕ
  pub uuid : Table → ℕ

-- The settings app.actor_type, app.actor_id and app.reason, which are local to a transaction.
pub record Session : Type 0 where
  pub env : Env
  pub actor : Option Actor

abbrev pub Sql : Type 0 → Type 0
Sql A = Session → Database → Result (A × Database)

abbrev pub pure : {A : Type 0} → A → Sql A
pure a s d = ok (a, d)

abbrev pub throw : {A : Type 0} → Failure → Sql A
throw e s d = err e

abbrev pub and_then :
    {A B : Type 0}
    → Result (A × Database)
    → (A → Database → Result (B × Database))
    → Result (B × Database)
and_then (ok (a, d)) f = f a d
and_then (err e) f = err e

infixl 5 ◌>>=◌ ◌>>◌
unfoldable pub ◌>>=◌ : {A B : Type 0} → Sql A → (A → Sql B) → Sql B
◌>>=◌ m f s d = and_then (m s d) (λ a d'. f a s d')

abbrev pub ◌>>◌ : {B : Type 0} → Sql (Unit {0}) → Sql B → Sql B
m >> k = m >>= λ _. k

-- `if (!test) throw e`
abbrev pub guard : Bool → Failure → Sql (Unit {0})
guard true e = pure tt
guard false e = throw e

-- `if (test) { ... }`
abbrev pub when : Bool → Sql (Unit {0}) → Sql (Unit {0})
when true m = m
when false m = pure tt

abbrev pub or_throw : {A : Type 0} → Option A → Failure → Sql A
or_throw none e = throw e
or_throw (some a) e = pure a

abbrev pub select : {A : Type 0} → (Database → A) → Sql A
select f s d = ok (f d, d)

abbrev pub session : Sql Session
session s d = ok (s, d)

abbrev pub write : (Database → Database) → Sql (Unit {0})
write f s d = ok (tt, f d)

-- nullif(text, '')
abbrev pub nullif_empty : String → Option String
nullif_empty t = if str_eq t "" then none else some t
