-- ===== src/Examples/RefundRuns.antt =====
-- A run with a refund: a payment is created and confirmed, then a part of it is refunded.
use ledger_ops_api.System.Steps.{Reach, here, next, transitioned, refund_created}
use ledger_ops_api.Database.Tables.{
  Database, pending, succeeded, Transaction, partially_refunded, debit, reversed, credit,
}
use ledger_ops_api.Merchants.{CreateMerchantDto}
use ledger_ops_api.Common.{
  length, ◌≡◌, [], none, refl, find, Option, List, ◌∷◌, some, Failure, err, ◌⊎◌, ok, ◌≢◌, ◌≤◌,
}
use ledger_ops_api.Examples.Data.{platform}
use ledger_ops_api.Transactions.Service.{
  transition, after_commit, book_success, find_by_reference, move, transition_body,
  capture_late_acknowledgment, find_by_reference_or_throw,
}
use ledger_ops_api.System.Reachable.{Reach-Settled, Reach-Booked}
use ledger_ops_api.Database.Sql.{◌>>=◌, Env}
use ledger_ops_api.Database.Rows.{
  transaction_update, same_frozen_fields, fn_transactions_before_update, history_entry,
  record_status, replace, row_update, save_row, transaction_create, insert_row,
  fn_transactions_before_insert, new_row, collides, by_id,
}
use ledger_ops_api.Database.StateMachine.{transition_exists}
use ledger_ops_api.Database.Checks.{
  varchar, transaction_checks, fixed_checks, currency_iso, msisdn_e164, fingerprint_hex,
  refund_checks, is_digit,
}
use ledger_ops_api.Transactions.Booking.Payment.{
  book_payment_success, compute_commission, payment_postings,
}
use ledger_ops_api.Transactions.Booking.Accounts.{
  merchant_find_unique_or_throw, accounts_find_many, id_of, clearing_account_code,
  merchant_payable_account_code,
}
use ledger_ops_api.Database.Ledger.{
  journal_entry_create, check_entries, commit_checks, distinct_currencies, fn_assert_entry_valid,
  posting_create_many, posting_insert, postings_of, total,
}
use ledger_ops_api.Database.Commit.{with_actor, autocommit}
use ledger_ops_api.Transactions.Booking.Dispute.{book_dispute_reversal}
use ledger_ops_api.Transactions.Booking.Refund.{
  accumulate_refund, book_refund_success, book_return, new_parent_status, return_postings,
}
use ledger_ops_api.Database.Others.{
  exception_create, exception_kind_checks, merchant_create, ledger_account_create,
  account_code_format,
}
use ledger_ops_api.Transactions.Idempotency.{create_transaction_idempotently}
use ledger_ops_api.Payments.Util.{
  big_int, parse_digits, compute_expires_at, resolve_expiry_minutes, CreateRefundDto,
}
use ledger_ops_api.Examples.SystemRuns.{
  with_confirmed, empty, asked, created_run, confirmed_run, both, created_payment,
}
use ledger_ops_api.Payments.Service.{Platform, create_refund}
use ledger_ops_api.System.Refunds.Totals.{refunds_total}
use ledger_ops_api.System.Books.Totals.{booked}
use ledger_ops_api.System.Books.Dues.{due}

-- The identifiers of the second half of the run.
abbrev refund_env : Env
refund_env = record {
  current_timestamp = 2000;
  clock_now = 2000;
  txid_current = 51;
  uuid = λ t. 100;
}

abbrev refund_platform : Platform
refund_platform = record platform { reference = "TXN-20260922-000003" }

abbrev refund_dto : CreateRefundDto
refund_dto = record { amount = "2000"; reason = none }

abbrev with_refund : Database
with_refund =
    (create_refund refund_platform "TXN-20260922-000002" refund_dto "key-10" 1 refund_env
      with_confirmed).1

abbrev with_refund_sent : Database
with_refund_sent = (transition "TXN-20260922-000003" (asked pending) 1 refund_env with_refund).1

abbrev with_refunded : Database
with_refunded = (transition "TXN-20260922-000003" (asked succeeded) 2 refund_env with_refund_sent).1

refunded_run : Reach empty with_refunded
refunded_run =
    next
      (next
        (next (both created_run confirmed_run) (
          refund_created refund_platform "TXN-20260922-000002" refund_dto "key-10" 1 refund_env
            (λ x. here) (λ x. here)))
        (transitioned "TXN-20260922-000003" (asked pending) 1 refund_env))
      (transitioned "TXN-20260922-000003" (asked succeeded) 2 refund_env)

-- The payment, refunded in part.
abbrev refunded_payment : Transaction
refunded_payment = record created_payment {
  status = partially_refunded;
  refunded_amount = 2000;
  version = 4;
  updated_at = 2000;
}

stored_refunded : find (by_id 99) with_refunded.transactions ≡ some refunded_payment
unfolding transition ◌>>=◌ transaction_update same_frozen_fields transition_exists
    transaction_checks fixed_checks currency_iso msisdn_e164 fingerprint_hex refund_checks
    book_payment_success merchant_find_unique_or_throw accounts_find_many journal_entry_create id_of
    is_digit with_actor check_entries commit_checks distinct_currencies fn_assert_entry_valid
    posting_create_many posting_insert postings_of total fn_transactions_before_update history_entry
    record_status replace row_update save_row clearing_account_code merchant_payable_account_code
    book_dispute_reversal compute_commission payment_postings accumulate_refund book_refund_success
    book_return new_parent_status return_postings after_commit book_success find_by_reference move
    transition_body exception_create exception_kind_checks capture_late_acknowledgment
    create_transaction_idempotently transaction_create insert_row fn_transactions_before_insert
    new_row collides big_int parse_digits compute_expires_at resolve_expiry_minutes
    find_by_reference_or_throw autocommit ledger_ops_api.Merchants.create merchant_create
    ledger_account_create account_code_format varchar ledger_ops_api.Payments.Service.create
    ledger_ops_api.Common.str_eq create_refund
stored_refunded = refl

totals_refunded :
    (refunds_total 99 with_refunded.transactions ≡ 2000)
    × (booked debit 99 with_refunded.entries with_refunded.postings ≡ 5000)
    × (booked credit 100 with_refunded.entries with_refunded.postings ≡ 2000)
unfolding transition ◌>>=◌ transaction_update same_frozen_fields transition_exists
    transaction_checks fixed_checks currency_iso msisdn_e164 fingerprint_hex refund_checks
    book_payment_success merchant_find_unique_or_throw accounts_find_many journal_entry_create id_of
    is_digit with_actor check_entries commit_checks distinct_currencies fn_assert_entry_valid
    posting_create_many posting_insert postings_of total fn_transactions_before_update history_entry
    record_status replace row_update save_row clearing_account_code merchant_payable_account_code
    book_dispute_reversal compute_commission payment_postings accumulate_refund book_refund_success
    book_return new_parent_status return_postings after_commit book_success find_by_reference move
    transition_body exception_create exception_kind_checks capture_late_acknowledgment
    create_transaction_idempotently transaction_create insert_row fn_transactions_before_insert
    new_row collides big_int parse_digits compute_expires_at resolve_expiry_minutes
    find_by_reference_or_throw autocommit ledger_ops_api.Merchants.create merchant_create
    ledger_account_create account_code_format varchar ledger_ops_api.Payments.Service.create
    ledger_ops_api.Common.str_eq create_refund
totals_refunded = (refl, refl, refl)

Reach-Settled_example :
    (((refunded_payment.status ≢ reversed)
        × (refunded_payment.refunded_amount ≡ refunds_total 99 with_refunded.transactions))
      ⊎ ((refunded_payment.status ≡ reversed)
          × (refunded_payment.refunded_amount ≡ refunded_payment.amount)))
    × (refunds_total 99 with_refunded.transactions ≤ 2000)
    × (2000 ≤ 5000)
Reach-Settled_example =
    Reach-Settled empty with_refunded refunded_payment refl refl refunded_run stored_refunded refl

Reach-Booked_example :
    booked debit 99 with_refunded.entries with_refunded.postings
    ≡ due (refunds_total 99 with_refunded.transactions) refunded_payment
Reach-Booked_example =
    Reach-Booked debit empty with_refunded refunded_payment refl refl refl refl refunded_run
      stored_refunded
