-- ===== src/Scripts/Verification.antt =====
-- The final check of seed-demo.ts (verifyAndSummarize) and the view that it reads, v_trial_balance_violations (migration init_ledger). The counts
-- that it prints are left out.
pub mod Passes
use ledger_ops_api.Common.{
  ℕ, ◌+◌, List, [], ◌∷◌, Option, some, none, Bool, true, false, not, ◌==◌, str_eq, any, filter,
  if◌then◌else◌, String, plain_error,
}
use ledger_ops_api.Database.Tables.{
  LedgerPosting, EntryDirection, debit, credit, direction_eq, Database,
}
use ledger_ops_api.Database.Ledger.{total, in_currency}
use ledger_ops_api.Scripts.{Script, look, throw_if, ◌>>=◌}

-- GROUP BY "currency"
unfoldable pub currencies : List LedgerPosting → List String
currencies [] = []
currencies (p ∷ ps) =
    let rest = currencies ps in if any (str_eq p.currency) rest then rest else p.currency ∷ rest

-- sum("amount") FILTER (WHERE "direction" = side): NULL without such a row.
unfoldable pub filtered_sum : EntryDirection → List LedgerPosting → Option ℕ
unfolding total
filtered_sum side ps =
    if any (λ (p : LedgerPosting). direction_eq p.direction side) ps
    then some (total side ps)
    else none

-- `<>`, which is not true of a NULL.
abbrev pub differ : Option ℕ → Option ℕ → Bool
differ none y = false
differ (some a) none = false
differ (some a) (some b) = not (a == b)

abbrev pub violates : List LedgerPosting → String → Bool
violates ps currency =
    differ (filtered_sum debit (in_currency currency ps))
      (filtered_sum credit (in_currency currency ps))

unfoldable pub v_trial_balance_violations : List LedgerPosting → List String
unfolding currencies filtered_sum in_currency
v_trial_balance_violations ps = filter (violates ps) (currencies ps)

abbrev pub is_some_row : List String → Bool
is_some_row [] = false
is_some_row (c ∷ cs) = true

-- `if (violations.length > 0) throw`
unfoldable pub verify : Script (Unit {0})
unfolding v_trial_balance_violations
verify = do
  violations ← look (λ w d. v_trial_balance_violations d.postings)
  throw_if (is_some_row violations) plain_error
