-- ===== src/Scripts/Verification/Passes.antt =====
-- The final check, on the databases that the service reaches.
use ledger_ops_api.Common.{
  ℕ, ◌≡◌, List, [], ◌∷◌, Bool, Bool-cases, false, filter, any, String, arith, refl, inl, inr, ok,
}
use ledger_ops_api.Database.Tables.{LedgerPosting, debit, credit, direction_eq, Database}
use ledger_ops_api.Database.Ledger.{total, in_currency}
use ledger_ops_api.Database.Ledger.Balance.{TrialBalance}
use ledger_ops_api.System.Steps.{Reach}
use ledger_ops_api.System.Reachable.{Reach-Invariant}
use ledger_ops_api.Scripts.{World, ◌>>=◌}
use ledger_ops_api.Scripts.Verification.{
  currencies, filtered_sum, differ, violates, v_trial_balance_violations, verify,
}

filtered_sum-same :
    (ps : List LedgerPosting)
    → total debit ps ≡ total credit ps
    → differ (filtered_sum debit ps) (filtered_sum credit ps) ≡ false
unfolding filtered_sum
filtered_sum-same ps h =
    elim (Bool-cases (any (λ (p : LedgerPosting). direction_eq p.direction debit) ps)) [
      | inr n ↦ rw n refl
      | inl y ↦
          elim (Bool-cases (any (λ (p : LedgerPosting). direction_eq p.direction credit) ps)) [
            | inr m ↦ rw (y, m) refl
            | inl z ↦ rw (y, z) (ground arith)
          ]
    ]

filter-none :
    (p : String → Bool) (xs : List String) → ((x : String) → p x ≡ false) → filter p xs ≡ []
filter-none p [] h = refl
filter-none p (x ∷ xs) h = rw (h x) (filter-none p xs h)

TrialBalance-violations :
    (ps : List LedgerPosting) → TrialBalance ps → v_trial_balance_violations ps ≡ []
unfolding v_trial_balance_violations
TrialBalance-violations ps h =
    filter-none (violates ps) (currencies ps) λ c. filtered_sum-same (in_currency c ps) (h c)

-- In every database that the calls of the service reach from one without transactions, history and postings, the final check of the
-- demonstration data returns, and changes nothing.
pub Reach-verify :
    (start d : Database) (w : World) (n : ℕ)
    → start.transactions ≡ []
    → start.history ≡ []
    → start.postings ≡ []
    → Reach start d
    → verify w n d ≡ (ok tt, (n, d))
unfolding verify ◌>>=◌
Reach-verify start d w n ts hs ps r =
    let empty = TrialBalance-violations d.postings (Reach-Invariant start d ts hs ps r).balanced in
    rw empty refl
