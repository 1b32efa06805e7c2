-- ===== src/Transactions/Service/Runs.antt =====
-- A transition that is committed, in its parts.
use ledger_ops_api.Common.{
  ℕ, ◌≡◌, Bool, String, find, ok, Failure, ◌&&◌, err, some, ◌⊎◌, refl, true, ◌∙◌, ==_iff, false,
  inl, inr, ap, Result,
}
use ledger_ops_api.Database.Tables.{Transaction, status_eq, Database, system, expired, succeeded}
use ledger_ops_api.Database.Sql.{Session, ◌>>=◌, Actor, Env}
use ledger_ops_api.Transactions.Service.{
  find_by_reference, transition_body, TransitionStatusDto, transition, after_commit, Outcome,
  updated, by_reference, reconciliation, capture_late_acknowledgment,
}
use ledger_ops_api.Database.Commit.{then_call, with_actor}
use ledger_ops_api.Database.Sql.Inversion.{bind-elim, guard-eq-ok, or_throw-eq-ok, if-elim}
use ledger_ops_api.Database.Commit.Cases.{session_of, sql_transaction_cases}
use ledger_ops_api.Transactions.Service.Moves.{Moved, move-Moved}

abbrev pub is_late : Transaction → TransitionStatusDto → Bool
is_late row dto = status_eq row.status expired && status_eq dto.status succeeded

-- The row is found at the version that the caller expects; then it is captured or moved.
pub record BodyRan (s : Session) (reference : String) (dto : TransitionStatusDto) (v : ℕ)
    (d : Database) (out : Outcome) (d' : Database) : Type 0 where
  pub row : Transaction
  pub found : find (by_reference reference) d.transactions ≡ some row
  pub version : row.version ≡ v
  pub ran :
      ((is_late row dto ≡ true) × (capture_late_acknowledgment row dto s d ≡ ok (out, d')))
      ⊎ ((is_late row dto ≡ false) × Moved s row dto.status d out d')

pub find_by_reference-eq-ok :
    (reference : String) (s : Session) (d : Database) {row : Transaction} {d' : Database}
    → find_by_reference reference s d ≡ ok (row, d')
    → (find (by_reference reference) d.transactions ≡ some row) × (d' ≡ d)
unfolding find_by_reference ◌>>=◌
find_by_reference-eq-ok reference s d h = or_throw-eq-ok _ _ s d h

pub transition_body-BodyRan :
    (reference : String) (dto : TransitionStatusDto) (v : ℕ) (s : Session) (d : Database)
    {out : Outcome} {d' : Database}
    → transition_body reference dto v s d ≡ ok (out, d')
    → BodyRan s reference dto v d out d'
unfolding transition_body
transition_body-BodyRan reference dto v s d {out} {d'} h = bind-elim _ _ s d h λ row d₁ h₁ r₁.
    bind-elim _ _ s d₁ r₁ λ _ d₂ h₂ r₂.
      let (found, k₁) = find_by_reference-eq-ok reference s d h₁ in
      let (same, k₂) = guard-eq-ok _ _ s d₁ h₂ in
      let k : d₂ ≡ d = k₂ ∙ k₁ in
      record {
        row = row;
        found = found;
        version = (==_iff row.version v).0 same;
        ran =
            if-elim _ _ _ s d₂ r₂ (λ b w. inl (b, rw k at w))
              (λ b w. inr (b, move-Moved row dto.status s d (rw k at w)));
      }

abbrev pub api_actor : TransitionStatusDto → Actor
api_actor dto = record { type = system; id = "api:transactions"; reason = dto.reason }

-- A transition throws and leaves the database alone, or its SQL transaction is committed.
pub transition_cases :
    (reference : String) (dto : TransitionStatusDto) (v : ℕ) (env : Env) (d : Database)
    → ((e : Failure) × (transition reference dto v env d ≡ (err e, d)))
      ⊎ ((out : Outcome) × (d' : Database) × BodyRan
            (session_of env (some (api_actor dto)))
            reference
            dto
            v
            d
            out
            d'
          × (transition reference dto v env d ≡ after_commit out env d'))
unfolding transition with_actor
transition_cases reference dto v env d =
    elim (sql_transaction_cases (some (api_actor dto)) (transition_body reference dto v) env d) [
      | inl (e, h) ↦
          inl (
            e,
            ap (λ (x : Result Outcome × Database). then_call x (λ o d₁. after_commit o env d₁)) h,
          )
      | inr (out, d', h, _, e) ↦ inr (
        out,
        d',
        transition_body-BodyRan reference dto v _ d h,
        ap (λ (x : Result Outcome × Database). then_call x (λ o d₁. after_commit o env d₁)) e,
      )
    ]

pub after_commit-keeps : (out : Outcome) (env : Env) (d : Database) → (after_commit out env d).1 ≡ d
unfolding after_commit
after_commit-keeps (updated t) env d = refl
after_commit-keeps (reconciliation i) env d = refl
