-- ===== src/Examples/VersionRuns.antt =====
-- A version that has been used, at a concrete run.
use ledger_ops_api.System.Steps.{Reach, here, next, transitioned}
use ledger_ops_api.Database.Tables.{pending, succeeded, Transaction}
use ledger_ops_api.Merchants.{CreateMerchantDto}
use ledger_ops_api.Common.{
  length, ◌≡◌, [], none, refl, find, Option, List, ◌∷◌, some, Failure, err, ◌⊎◌, ok,
}
use ledger_ops_api.Examples.Data.{demo_env}
use ledger_ops_api.Transactions.Service.{
  transition, after_commit, book_success, find_by_reference, move, transition_body,
  capture_late_acknowledgment, find_by_reference_or_throw,
}
use ledger_ops_api.Database.Sql.{◌>>=◌}
use ledger_ops_api.Database.Rows.{
  transaction_update, same_frozen_fields, fn_transactions_before_update, history_entry,
  record_status, replace, row_update, save_row, transaction_create, insert_row,
  fn_transactions_before_insert, new_row, collides,
}
use ledger_ops_api.Database.StateMachine.{transition_exists}
use ledger_ops_api.Database.Checks.{
  transaction_checks, fixed_checks, currency_iso, msisdn_e164, fingerprint_hex, refund_checks,
  is_digit, varchar, varchar_or_null,
}
use ledger_ops_api.Transactions.Booking.Payment.{
  book_payment_success, compute_commission, payment_postings,
}
use ledger_ops_api.Transactions.Booking.Accounts.{
  merchant_find_unique_or_throw, accounts_find_many, id_of, clearing_account_code,
  merchant_payable_account_code,
}
use ledger_ops_api.Database.Ledger.{
  journal_entry_create, check_entries, commit_checks, distinct_currencies, fn_assert_entry_valid,
  posting_create_many, posting_insert, postings_of, total,
}
use ledger_ops_api.Database.Commit.{with_actor, autocommit}
use ledger_ops_api.Transactions.Booking.Dispute.{book_dispute_reversal}
use ledger_ops_api.Transactions.Booking.Refund.{
  accumulate_refund, book_refund_success, book_return, new_parent_status, return_postings,
}
use ledger_ops_api.Database.Others.{
  exception_create, exception_kind_checks, merchant_create, ledger_account_create,
  account_code_format,
}
use ledger_ops_api.Transactions.Idempotency.{create_transaction_idempotently}
use ledger_ops_api.Payments.Util.{big_int, parse_digits, compute_expires_at, resolve_expiry_minutes}
use ledger_ops_api.Examples.SystemRuns.{
  with_payment, with_sent, with_confirmed, created_payment, created-WellFormed, asked,
}
use ledger_ops_api.System.Versions.{transition-transition}
use ledger_ops_api.Common.{precondition_failed}
use ledger_ops_api.Database.Tables.{failed}

abbrev sent_payment : Transaction
sent_payment = record created_payment { status = pending; version = 2 }

sent_run :
    transition "TXN-20260922-000002" (asked pending) 1 demo_env with_payment
    ≡ (ok sent_payment, with_sent)
unfolding transition ◌>>=◌ transaction_update same_frozen_fields transition_exists
    transaction_checks fixed_checks currency_iso msisdn_e164 fingerprint_hex refund_checks
    book_payment_success merchant_find_unique_or_throw accounts_find_many journal_entry_create id_of
    is_digit with_actor check_entries commit_checks distinct_currencies fn_assert_entry_valid
    posting_create_many posting_insert postings_of total fn_transactions_before_update history_entry
    record_status replace row_update save_row clearing_account_code merchant_payable_account_code
    book_dispute_reversal compute_commission payment_postings accumulate_refund book_refund_success
    book_return new_parent_status return_postings after_commit book_success find_by_reference move
    transition_body exception_create exception_kind_checks capture_late_acknowledgment
    create_transaction_idempotently transaction_create insert_row fn_transactions_before_insert
    new_row collides big_int parse_digits compute_expires_at resolve_expiry_minutes
    find_by_reference_or_throw autocommit ledger_ops_api.Merchants.create merchant_create
    ledger_account_create account_code_format varchar varchar_or_null
    ledger_ops_api.Payments.Service.create ledger_ops_api.Common.str_eq
sent_run = refl

after_sending : Reach with_sent with_confirmed
after_sending = next here (transitioned "TXN-20260922-000002" (asked succeeded) 2 demo_env)

transition-transition_example :
    transition "TXN-20260922-000002" (asked failed) 1 demo_env with_confirmed
    ≡ (err precondition_failed, with_confirmed)
transition-transition_example =
    transition-transition "TXN-20260922-000002" (asked pending) 1 demo_env with_payment
      {t = sent_payment} {d' = with_sent} with_confirmed (asked failed) demo_env created-WellFormed
      sent_run after_sending
