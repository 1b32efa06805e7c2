-- ===== src/Database/Ledger/Balance.antt =====
-- The trial balance: per currency, the debits equal the credits (the view
-- v_trial_balance_violations has no row).
use ledger_ops_api.Common.{◌≡◌, List, String, arith, ◌+◌}
use ledger_ops_api.Database.Tables.{LedgerPosting, debit, credit}
use ledger_ops_api.Database.Ledger.{total, in_currency}

abbrev pub TrialBalance : List LedgerPosting → Type 0
TrialBalance ps =
    (currency : String)
    → total debit (in_currency currency ps) ≡ total credit (in_currency currency ps)

-- The new postings leave the difference of the two sides alone, in every currency.
abbrev pub Offsets : List LedgerPosting → List LedgerPosting → Type 0
Offsets ps qs =
    (currency : String)
    → total debit (in_currency currency qs) + total credit (in_currency currency ps)
      ≡ total credit (in_currency currency qs) + total debit (in_currency currency ps)

pub Offsets-TrialBalance :
    (ps qs : List LedgerPosting) → Offsets ps qs → TrialBalance ps → TrialBalance qs
Offsets-TrialBalance ps qs o h currency = omega (arith, o currency, h currency)
