-- ===== src/Database/Commit/Cases.antt =====
-- How a SQL transaction ends: it is rolled back whole, or its body and its deferred checks succeed.
use ledger_ops_api.Common.{
  ◌≡◌, Result, Option, Failure, err, ◌⊎◌, ok, inr, inl, ap, refl, sym, ◌∙◌, none,
}
use ledger_ops_api.Database.Sql.{Env, Sql, Actor, Session}
use ledger_ops_api.Database.Tables.{Database}
use ledger_ops_api.Database.Commit.{committed, sql_transaction, finish, then_call, autocommit}
use ledger_ops_api.Database.Ledger.{commit_checks}
use ledger_ops_api.Database.Sql.Inversion.{bind-elim}
use ledger_ops_api.Database.Ledger.Statements.{commit_checks-keeps}
use mathlib.Core.Path.{subst}

abbrev pub session_of : Env → Option Actor → Session
session_of env actor = record { env = env; actor = actor }

Result-cases : {A : Type 0} (r : Result A) → ((e : Failure) × (r ≡ err e)) ⊎ ((a : A) × (r ≡ ok a))
Result-cases (ok a) = inr (a, refl)
Result-cases (err e) = inl (e, refl)

committed-eq-ok :
    {A : Type 0} (body : Sql A) (s : Session) (d : Database) {a : A} {d' : Database}
    → committed body s d ≡ ok (a, d')
    → (body s d ≡ ok (a, d')) × (commit_checks s d' ≡ ok (tt, d'))
committed-eq-ok body s d {a} {d'} h = bind-elim _ _ s d h λ b d₁ h₁ r₁.
    bind-elim _ _ s d₁ r₁ λ _ d₂ h₂ r₂.
      let same = commit_checks-keeps s d₁ h₂ in
      let k : d₂ ≡ d' = cc in
      let k' : d₁ ≡ d' = sym same ∙ k in
      let l : b ≡ a = cc in
      (cc, subst (λ (x : Database). commit_checks s x ≡ ok (tt, x)) k' (h₂ ∙ cc))

pub sql_transaction_cases :
    {A : Type 0} (actor : Option Actor) (body : Sql A) (env : Env) (d : Database)
    → ((e : Failure) × (sql_transaction actor body env d ≡ (err e, d)))
      ⊎ ((a : A) × (d' : Database) × (body (session_of env actor) d ≡ ok (a, d'))
          × (commit_checks (session_of env actor) d' ≡ ok (tt, d'))
          × (sql_transaction actor body env d ≡ (ok a, d')))
sql_transaction_cases actor body env d =
    elim (Result-cases (committed body (session_of env actor) d)) [
      | inl (e, h) ↦ inl (e, ap (finish d) h)
      | inr ((a, d'), h) ↦
          let (b, c) = committed-eq-ok body (session_of env actor) d h in
          inr (a, d', b, c, ap (finish d) h)
    ]

-- A chain of calls that returns, in its two parts.
pub then_call-eq-ok :
    {A B : Type 0} (r : Result A × Database) (f : A → Database → Result B × Database) {b : B}
    {d' : Database}
    → then_call r f ≡ (ok b, d')
    → (a : A) × (d₁ : Database) × (r ≡ (ok a, d₁)) × (f a d₁ ≡ (ok b, d'))
then_call-eq-ok (ok a, d) f h = (a, d, refl, h)
then_call-eq-ok (err e, d) f {b} {d'} h = cc

pub autocommit-eq-ok :
    {A : Type 0} (body : Sql A) (env : Env) (d : Database) {a : A} {d' : Database}
    → autocommit body env d ≡ (ok a, d')
    → body (session_of env none) d ≡ ok (a, d')
unfolding autocommit
autocommit-eq-ok body env d {a} {d'} h = elim (sql_transaction_cases none body env d) [
  | inl (e, w) ↦ cc
  | inr (b, d₁, k, _, w) ↦ cc
]
