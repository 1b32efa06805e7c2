-- ===== src/Transactions/Booking/Payment.antt =====
-- The booking of a confirmed payment (payment-success-booking.ts).
use ledger_ops_api.Common.{ℕ, ◌-◌, ◌*◌, ◌/◌, Option, none, some, List, [], ◌∷◌, ltb, if◌then◌else◌}
use ledger_ops_api.Database.Tables.{Transaction, LedgerPosting, debit, credit}
use ledger_ops_api.Database.Sql.{Sql, pure, ◌>>=◌}
use ledger_ops_api.Database.Ledger.{journal_entry_create, posting_create_many}
use ledger_ops_api.Transactions.Booking.Accounts.{
  ◌⧺◌, clearing_account_code, merchant_payable_account_code, fees_code,
  merchant_find_unique_or_throw, accounts_find_many, id_of,
}

-- 1.5 %, rounded down.
unfoldable pub compute_commission : ℕ → ℕ
compute_commission amount = amount * 15 / 1000

-- The lines of the entry. There is none for the commission where it is 0.
unfoldable pub payment_postings : Transaction → ℕ → ℕ → ℕ → Option ℕ → List LedgerPosting
payment_postings t entry_id clearing_id payable_id fees_id =
    record {
      entry_id = entry_id;
      account_id = clearing_id;
      direction = debit;
      amount = t.amount;
      currency = t.currency;
    }
    ∷ record {
      entry_id = entry_id;
      account_id = payable_id;
      direction = credit;
      amount = t.amount - compute_commission t.amount;
      currency = t.currency;
    }
    ∷ (elim fees_id [
      | none ↦ []
      | some fees ↦
          record {
            entry_id = entry_id;
            account_id = fees;
            direction = credit;
            amount = compute_commission t.amount;
            currency = t.currency;
          }
          ∷ []
    ])

unfoldable pub book_payment_success : Transaction → Sql (Unit {0})
unfolding compute_commission payment_postings
book_payment_success t = do
  let clearing_code = clearing_account_code t.provider
  merchant ← merchant_find_unique_or_throw t.merchant_id
  let payable_code = merchant_payable_account_code merchant.code
  accounts ← accounts_find_many (clearing_code ∷ payable_code ∷ fees_code ∷ [])
  entry ← journal_entry_create (record {
    description = "Paiement " ⧺ t.reference;
    transaction_id = some t.id;
    reverses_entry_id = none;
  })
  clearing_id ← id_of accounts clearing_code
  payable_id ← id_of accounts payable_code
  fees_id ←
      (if ltb 0 (compute_commission t.amount)
        then (id_of accounts fees_code >>= λ i. pure (some i))
        else pure none)
  posting_create_many (payment_postings t entry.id clearing_id payable_id fees_id)
