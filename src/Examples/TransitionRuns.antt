-- ===== src/Examples/TransitionRuns.antt =====
-- Transitions at concrete inputs.
use ledger_ops_api.Transactions.Service.{
  TransitionStatusDto, transition, by_reference, after_commit, book_success, find_by_reference,
  move, transition_body, capture_late_acknowledgment,
}
use ledger_ops_api.Database.Tables.{
  Database, Transaction, succeeded, pending, expired, disputed, reversed,
}
use ledger_ops_api.Database.Ledger.Balance.{Offsets}
use ledger_ops_api.Common.{
  find, ◌≢◌, ℕ, ◌≡◌, arith, none, ok, some, err, precondition_failed, reconciliation_required, refl,
  ◌∷◌, ◌⊎◌, [], str_eq,
}
use ledger_ops_api.Examples.Data.{demo_database, demo_env, demo_payment, demo_refund}
use ledger_ops_api.Transactions.Service.Books.{transition-Offsets}
use ledger_ops_api.Transactions.Service.Response.{Responds, transition-Responds}
use ledger_ops_api.Transactions.Service.Once.{Books, transition-Books_once}
use ledger_ops_api.Database.Commit.Cases.{session_of}
use ledger_ops_api.Transactions.Service.Runs.{api_actor}
use ledger_ops_api.Transactions.Service.Locking.{late_row, transition_late}
use ledger_ops_api.Transactions.Service.Refunds.{RefundConfirmed, transition_refunds}
use ledger_ops_api.Database.Sql.{◌>>=◌}
use ledger_ops_api.Database.Rows.{
  transaction_update, same_frozen_fields, fn_transactions_before_update, history_entry,
  record_status, replace, row_update, save_row,
}
use ledger_ops_api.Database.StateMachine.{transition_exists}
use ledger_ops_api.Database.Checks.{
  transaction_checks, fixed_checks, currency_iso, msisdn_e164, fingerprint_hex, refund_checks,
  is_digit,
}
use ledger_ops_api.Transactions.Booking.Payment.{
  book_payment_success, compute_commission, payment_postings,
}
use ledger_ops_api.Transactions.Booking.Accounts.{
  merchant_find_unique_or_throw, accounts_find_many, id_of, clearing_account_code,
  merchant_payable_account_code,
}
use ledger_ops_api.Database.Ledger.{
  journal_entry_create, check_entries, commit_checks, distinct_currencies, fn_assert_entry_valid,
  posting_create_many, posting_insert, postings_of, total,
}
use ledger_ops_api.Database.Commit.{with_actor}
use ledger_ops_api.Transactions.Booking.Dispute.{book_dispute_reversal}
use ledger_ops_api.Transactions.Booking.Refund.{
  accumulate_refund, book_refund_success, book_return, new_parent_status, return_postings,
}
use ledger_ops_api.Database.Others.{exception_create, exception_kind_checks}
use ledger_ops_api.Transactions.Service.Disputes.{DisputeLost, transition_reverses}

abbrev confirmed : TransitionStatusDto
confirmed = record { status = succeeded; reason = none; provider_reference = none }

abbrev pending_payment : Database
pending_payment = demo_database (demo_payment pending 0 ∷ [])

abbrev pending_refund : Database
pending_refund = demo_database (demo_refund pending ∷ demo_payment succeeded 0 ∷ [])

abbrev expired_payment : Database
expired_payment = demo_database (demo_payment expired 0 ∷ [])

abbrev saved : Transaction → ℕ → Transaction
saved t version = record t { version = version; updated_at = 1000 }

transition-Offsets_example :
    Offsets pending_payment.postings
      (transition "TXN-20260922-8F3K2Q" confirmed 2 demo_env pending_payment).1.postings
transition-Offsets_example =
    transition-Offsets "TXN-20260922-8F3K2Q" confirmed 2 demo_env pending_payment

-- The committed confirmation of the payment.
confirmed_run : transition "TXN-20260922-8F3K2Q" confirmed 2 demo_env pending_payment ≡ (
  ok (saved (demo_payment succeeded 0) 3),
  (transition "TXN-20260922-8F3K2Q" confirmed 2 demo_env pending_payment).1,
)
unfolding transition ◌>>=◌ str_eq transaction_update same_frozen_fields transition_exists
    transaction_checks fixed_checks currency_iso msisdn_e164 fingerprint_hex refund_checks
    book_payment_success merchant_find_unique_or_throw accounts_find_many journal_entry_create id_of
    is_digit with_actor check_entries commit_checks distinct_currencies fn_assert_entry_valid
    posting_create_many posting_insert postings_of total fn_transactions_before_update history_entry
    record_status replace row_update save_row clearing_account_code merchant_payable_account_code
    book_dispute_reversal compute_commission payment_postings accumulate_refund book_refund_success
    book_return new_parent_status return_postings after_commit book_success find_by_reference move
    transition_body exception_create exception_kind_checks capture_late_acknowledgment
confirmed_run = refl

transition-Responds_example :
    (row : Transaction) × (find (by_reference "TXN-20260922-8F3K2Q") pending_payment.transactions
      ≡ some row)
    × (row.version ≡ 2)
    × Responds row succeeded
        (saved (demo_payment succeeded 0) 3)
        (transition "TXN-20260922-8F3K2Q" confirmed 2 demo_env pending_payment).1
transition-Responds_example =
    transition-Responds "TXN-20260922-8F3K2Q" confirmed 2 demo_env pending_payment
      (saved (demo_payment succeeded 0) 3)
      (transition "TXN-20260922-8F3K2Q" confirmed 2 demo_env pending_payment).1 (refl, tt)
      confirmed_run

transition-Books_once_example :
    ((row : Transaction) × (find (by_reference "TXN-20260922-8F3K2Q") pending_payment.transactions
        ≡ some row)
      × (row.version ≡ 2)
      × Books row.status confirmed.status)
    ⊎ (((transition "TXN-20260922-8F3K2Q" confirmed 2 demo_env pending_payment).1.postings
          ≡ pending_payment.postings)
        × ((transition "TXN-20260922-8F3K2Q" confirmed 2 demo_env pending_payment).1.entries
            ≡ pending_payment.entries))
transition-Books_once_example =
    transition-Books_once "TXN-20260922-8F3K2Q" confirmed 2 demo_env pending_payment

found_refund :
    find (by_reference "TXN-20260922-000001") pending_refund.transactions
    ≡ some (demo_refund pending)
unfolding ledger_ops_api.Common.str_eq
found_refund = refl

refunded_run : transition "TXN-20260922-000001" confirmed 2 demo_env pending_refund ≡ (
  ok (saved (demo_refund succeeded) 3),
  (transition "TXN-20260922-000001" confirmed 2 demo_env pending_refund).1,
)
unfolding transition ◌>>=◌ str_eq transaction_update same_frozen_fields transition_exists
    transaction_checks fixed_checks currency_iso msisdn_e164 fingerprint_hex refund_checks
    book_payment_success merchant_find_unique_or_throw accounts_find_many journal_entry_create id_of
    is_digit with_actor check_entries commit_checks distinct_currencies fn_assert_entry_valid
    posting_create_many posting_insert postings_of total fn_transactions_before_update history_entry
    record_status replace row_update save_row clearing_account_code merchant_payable_account_code
    book_dispute_reversal compute_commission payment_postings accumulate_refund book_refund_success
    book_return new_parent_status return_postings after_commit book_success find_by_reference move
    transition_body exception_create exception_kind_checks capture_late_acknowledgment
refunded_run = refl

transition_refunds_example :
    RefundConfirmed
      (session_of demo_env (some (api_actor confirmed)))
      (demo_refund pending)
      pending_refund
      (saved (demo_refund succeeded) 3)
      (transition "TXN-20260922-000001" confirmed 2 demo_env pending_refund).1
transition_refunds_example =
    transition_refunds "TXN-20260922-000001" confirmed 2 demo_env pending_refund (refl, (refl, tt))
      found_refund refl refl refl refunded_run

found_payment :
    find (by_reference "TXN-20260922-8F3K2Q") pending_payment.transactions
    ≡ some (demo_payment pending 0)
unfolding ledger_ops_api.Common.str_eq
found_payment = refl

found_expired :
    find (by_reference "TXN-20260922-8F3K2Q") expired_payment.transactions
    ≡ some (demo_payment expired 0)
unfolding ledger_ops_api.Common.str_eq
found_expired = refl

transition_late_example : transition "TXN-20260922-8F3K2Q" confirmed 2 demo_env expired_payment ≡ (
  err (reconciliation_required 99),
  record expired_payment { exceptions = late_row demo_env (demo_payment expired 0) confirmed ∷ [] },
)
unfolding ledger_ops_api.Database.Checks.varchar_or_null
transition_late_example =
    transition_late "TXN-20260922-8F3K2Q" confirmed 2 demo_env expired_payment found_expired refl
      refl refl refl refl refl

abbrev disputed_payment : Database
disputed_payment = demo_database (demo_payment disputed 4000 ∷ [])

abbrev lost : TransitionStatusDto
lost = record { status = reversed; reason = none; provider_reference = none }

found_disputed :
    find (by_reference "TXN-20260922-8F3K2Q") disputed_payment.transactions
    ≡ some (demo_payment disputed 4000)
unfolding ledger_ops_api.Common.str_eq
found_disputed = refl

reversed_run : transition "TXN-20260922-8F3K2Q" lost 2 demo_env disputed_payment ≡ (
  ok (saved (demo_payment reversed 10000) 4),
  (transition "TXN-20260922-8F3K2Q" lost 2 demo_env disputed_payment).1,
)
unfolding transition ◌>>=◌ str_eq transaction_update same_frozen_fields transition_exists
    transaction_checks fixed_checks currency_iso msisdn_e164 fingerprint_hex refund_checks
    book_payment_success merchant_find_unique_or_throw accounts_find_many journal_entry_create id_of
    is_digit with_actor check_entries commit_checks distinct_currencies fn_assert_entry_valid
    posting_create_many posting_insert postings_of total fn_transactions_before_update history_entry
    record_status replace row_update save_row clearing_account_code merchant_payable_account_code
    book_dispute_reversal compute_commission payment_postings accumulate_refund book_refund_success
    book_return new_parent_status return_postings after_commit book_success find_by_reference move
    transition_body exception_create exception_kind_checks capture_late_acknowledgment
reversed_run = refl

transition_reverses_example :
    DisputeLost
      (session_of demo_env (some (api_actor lost)))
      (demo_payment disputed 4000)
      disputed_payment
      (saved (demo_payment reversed 10000) 4)
      (transition "TXN-20260922-8F3K2Q" lost 2 demo_env disputed_payment).1
transition_reverses_example =
    transition_reverses "TXN-20260922-8F3K2Q" lost 2 demo_env disputed_payment (refl, tt)
      found_disputed refl refl reversed_run
