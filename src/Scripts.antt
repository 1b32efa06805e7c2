-- ===== src/Scripts.antt =====
-- The scripts (scripts/bootstrap-admin-key.ts, scripts/seed-demo.ts): they call the services one after another, and read the
-- database in between.
pub mod Keys
pub mod Payments
pub mod Refunds
pub mod Exceptions
pub mod Reaching
pub mod Sweep
pub mod Verification
pub mod Seed
pub mod Bootstrap
use ledger_ops_api.Common.{
  ℕ, ok, Failure, Result, Bool, Option, err, some, suc, String, true, none, false,
}
use ledger_ops_api.Database.Tables.{Database}
use ledger_ops_api.Database.Sql.{Env}
use ledger_ops_api.Database.Commit.{Call}
use ledger_ops_api.Payments.Service.{Platform}

-- What each call of a script finds, by its number: the clock and the ids, what the payments take from outside, and the key that
-- generateApiKey would draw.

pub record World : Type 0 where
  pub env : ℕ → Env
  pub platform : ℕ → Platform
  pub drawn_key : ℕ → String
  pub hash_api_key : String → String

-- A script counts its calls, and returns or throws.
abbrev pub Script : Type 0 → Type 0
Script A = World → ℕ → Database → Result A × (ℕ × Database)

abbrev pub done : {A : Type 0} → A → Script A
done a w n d = (ok a, (n, d))

abbrev pub fail : {A : Type 0} → Failure → Script A
fail e w n d = (err e, (n, d))

-- A query of the Prisma client.
abbrev pub look : {A : Type 0} → (World → Database → A) → Script A
look f w n d = (ok (f w d), (n, d))

-- A call of a service.
unfoldable pub call : {A : Type 0} → (World → ℕ → Call A) → Script A
call c w n d = ((c w n (w.env n) d).0, (suc n, (c w n (w.env n) d).1))

abbrev pub continue :
    {A B : Type 0}
    → Result A × (ℕ × Database)
    → (A → ℕ → Database → Result B × (ℕ × Database))
    → Result B × (ℕ × Database)
continue (ok a, (n, d)) f = f a n d
continue (err e, (n, d)) f = (err e, (n, d))

infixl 5 ◌>>=◌ ◌>>◌
unfoldable pub ◌>>=◌ : {A B : Type 0} → Script A → (A → Script B) → Script B
◌>>=◌ m f w n d = continue (m w n d) (λ a n' d'. f a w n' d')

abbrev pub ◌>>◌ : {B : Type 0} → Script (Unit {0}) → Script B → Script B
m >> k = m >>= λ _. k

-- `catch`
abbrev pub handled :
    {A : Type 0}
    → Result A × (ℕ × Database)
    → (Failure → ℕ → Database → Result A × (ℕ × Database))
    → Result A × (ℕ × Database)
handled (ok a, (n, d)) f = (ok a, (n, d))
handled (err e, (n, d)) f = f e n d

unfoldable pub attempt : {A : Type 0} → Script A → (Failure → Script A) → Script A
attempt m f w n d = handled (m w n d) (λ e n' d'. f e w n' d')

-- `if (test) throw e`
abbrev pub throw_if : Bool → Failure → Script (Unit {0})
throw_if true e = fail e
throw_if false e = done tt

abbrev pub or_fail : {A : Type 0} → Option A → Failure → Script A
or_fail none e = fail e
or_fail (some a) e = done a
