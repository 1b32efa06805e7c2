-- ===== src/Transactions/Booking/Refund.antt =====
-- The booking of a confirmed refund, on the ledger and on the parent (refund-success-booking.ts).
use ledger_ops_api.Common.{
  ℕ, ◌+◌, String, none, some, List, [], ◌∷◌, leb, ◌==◌, find, if◌then◌else◌, plain_error,
  unprocessable_entity,
}
use ledger_ops_api.Database.Tables.{
  Transaction, TransactionStatus, refunded, partially_refunded, LedgerPosting, debit, credit,
}
use ledger_ops_api.Database.Sql.{Sql, pure, ◌>>=◌, ◌>>◌, guard, or_throw, select}
use ledger_ops_api.Database.Rows.{by_id, transaction_update}
use ledger_ops_api.Database.Ledger.{journal_entry_create, posting_create_many}
use ledger_ops_api.Transactions.Booking.Accounts.{
  ◌⧺◌, clearing_account_code, merchant_payable_account_code, merchant_find_unique_or_throw,
  accounts_find_many, id_of,
}

-- Money that goes back to the customer: a debit of the merchant, a credit of the provider.
unfoldable pub return_postings : Transaction → ℕ → ℕ → ℕ → ℕ → List LedgerPosting
return_postings t amount entry_id payable_id clearing_id =
    record {
      entry_id = entry_id;
      account_id = payable_id;
      direction = debit;
      amount = amount;
      currency = t.currency;
    }
    ∷ record {
      entry_id = entry_id;
      account_id = clearing_id;
      direction = credit;
      amount = amount;
      currency = t.currency;
    }
    ∷ []

-- The status of the parent once `total` of its `amount` is refunded.
unfoldable pub new_parent_status : ℕ → ℕ → TransactionStatus
new_parent_status total amount = if total == amount then refunded else partially_refunded

-- The update of the locked parent row.
unfoldable pub accumulate_refund : Transaction → Transaction → Sql (Unit {0})
unfolding new_parent_status
accumulate_refund parent refund = do
  let total = parent.refunded_amount + refund.amount
  guard (leb total parent.amount) unprocessable_entity
  saved ← transaction_update parent.id (record {
    status = some (new_parent_status total parent.amount);
    refunded_amount = some total;
  })
  pure tt

-- The entry of a refund. The source writes these steps again for a lost dispute.
unfoldable pub book_return : Transaction → ℕ → String → Sql (Unit {0})
unfolding return_postings
book_return t amount description = do
  let clearing_code = clearing_account_code t.provider
  merchant ← merchant_find_unique_or_throw t.merchant_id
  let payable_code = merchant_payable_account_code merchant.code
  accounts ← accounts_find_many (clearing_code ∷ payable_code ∷ [])
  entry ←
      journal_entry_create
        (record { description = description; transaction_id = some t.id; reverses_entry_id = none })
  payable_id ← id_of accounts payable_code
  clearing_id ← id_of accounts clearing_code
  posting_create_many (return_postings t amount entry.id payable_id clearing_id)

unfoldable pub book_refund_success : Transaction → Sql (Unit {0})
unfolding accumulate_refund book_return
book_refund_success refund = do
  parent_id ← or_throw refund.parent_transaction_id plain_error
  ts ← select (λ d. d.transactions)
  parent ← or_throw (find (by_id parent_id) ts) plain_error
  accumulate_refund parent refund
  book_return refund refund.amount ("Remboursement " ⧺ refund.reference)
