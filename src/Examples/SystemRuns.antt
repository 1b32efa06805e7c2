-- ===== src/Examples/SystemRuns.antt =====
-- A run of the service from a database without transactions, and one that goes on from a payment.
use ledger_ops_api.System.Steps.{Reach, here, next, transitioned, merchant_created, payment_created}
use ledger_ops_api.Database.Tables.{
  Database, TransactionStatus, pending, succeeded, Transaction, TransactionStatusHistory, initiated,
  expired, system,
}
use ledger_ops_api.Merchants.{CreateMerchantDto}
use ledger_ops_api.Common.{
  length, ◌≡◌, [], none, refl, find, Option, List, ◌∷◌, some, Failure, err, ◌⊎◌, ok,
}
use ledger_ops_api.System.Invariant.{Invariant}
use ledger_ops_api.System.Trail.{WellFormed, moved, created}
use ledger_ops_api.System.Extends.{Extends, StatusPath}
use ledger_ops_api.Examples.Data.{demo_database, demo_env, platform, payment_dto, demo_payment}
use ledger_ops_api.Transactions.Service.{
  TransitionStatusDto, transition, after_commit, book_success, find_by_reference, move,
  transition_body, capture_late_acknowledgment, find_by_reference_or_throw,
}
use ledger_ops_api.System.Reachable.{Reach-Invariant, Reach-Extends}
use ledger_ops_api.Database.Sql.{◌>>=◌}
use ledger_ops_api.Database.Rows.{
  transaction_update, same_frozen_fields, fn_transactions_before_update, history_entry,
  record_status, replace, row_update, save_row, transaction_create, insert_row,
  fn_transactions_before_insert, new_row, collides, by_id,
}
use ledger_ops_api.Database.StateMachine.{transition_exists}
use ledger_ops_api.Database.Checks.{
  transaction_checks, fixed_checks, currency_iso, msisdn_e164, fingerprint_hex, refund_checks,
  is_digit, varchar, varchar_or_null,
}
use ledger_ops_api.Transactions.Booking.Payment.{
  book_payment_success, compute_commission, payment_postings,
}
use ledger_ops_api.Transactions.Booking.Accounts.{
  merchant_find_unique_or_throw, accounts_find_many, id_of, clearing_account_code,
  merchant_payable_account_code,
}
use ledger_ops_api.Database.Ledger.{
  journal_entry_create, check_entries, commit_checks, distinct_currencies, fn_assert_entry_valid,
  posting_create_many, posting_insert, postings_of, total,
}
use ledger_ops_api.Database.Commit.{with_actor, autocommit}
use ledger_ops_api.Transactions.Booking.Dispute.{book_dispute_reversal}
use ledger_ops_api.Transactions.Booking.Refund.{
  accumulate_refund, book_refund_success, book_return, new_parent_status, return_postings,
}
use ledger_ops_api.Database.Others.{
  exception_create, exception_kind_checks, merchant_create, ledger_account_create,
  account_code_format,
}
use ledger_ops_api.Transactions.Idempotency.{create_transaction_idempotently}
use ledger_ops_api.Payments.Util.{big_int, parse_digits, compute_expires_at, resolve_expiry_minutes}
use ledger_ops_api.System.Statuses.{Reach-final, Reach-StatusPath}
use ledger_ops_api.Database.Commit.Cases.{session_of}
use ledger_ops_api.Merchants.Creation.{payable_account, create_both}

abbrev pub empty : Database
empty = demo_database []

abbrev new_merchant : CreateMerchantDto
new_merchant = record { code = "shop"; name = "Shop" }

abbrev pub asked : TransactionStatus → TransitionStatusDto
asked status = record { status = status; reason = none; provider_reference = none }

-- A merchant is created, then a payment, which is sent and confirmed.
abbrev with_merchant : Database
with_merchant = (ledger_ops_api.Merchants.create new_merchant demo_env empty).1

abbrev pub with_payment : Database
with_payment =
    (ledger_ops_api.Payments.Service.create platform payment_dto "key-9" 1 demo_env with_merchant).1

abbrev pub with_sent : Database
with_sent = (transition "TXN-20260922-000002" (asked pending) 1 demo_env with_payment).1

abbrev pub with_confirmed : Database
with_confirmed = (transition "TXN-20260922-000002" (asked succeeded) 2 demo_env with_sent).1

pub created_run : Reach empty with_payment
created_run =
    next (next here (merchant_created new_merchant demo_env))
      (payment_created platform payment_dto "key-9" 1 demo_env (λ x. here))

pub confirmed_run : Reach with_payment with_confirmed
confirmed_run =
    next (next here (transitioned "TXN-20260922-000002" (asked pending) 1 demo_env))
      (transitioned "TXN-20260922-000002" (asked succeeded) 2 demo_env)

-- The run books the payment.
confirmed_books : length with_confirmed.postings ≡ 3
unfolding transition ◌>>=◌ transaction_update same_frozen_fields transition_exists
    transaction_checks fixed_checks currency_iso msisdn_e164 fingerprint_hex refund_checks
    book_payment_success merchant_find_unique_or_throw accounts_find_many journal_entry_create id_of
    is_digit with_actor check_entries commit_checks distinct_currencies fn_assert_entry_valid
    posting_create_many posting_insert postings_of total fn_transactions_before_update history_entry
    record_status replace row_update save_row clearing_account_code merchant_payable_account_code
    book_dispute_reversal compute_commission payment_postings accumulate_refund book_refund_success
    book_return new_parent_status return_postings after_commit book_success find_by_reference move
    transition_body exception_create exception_kind_checks capture_late_acknowledgment
    create_transaction_idempotently transaction_create insert_row fn_transactions_before_insert
    new_row collides big_int parse_digits compute_expires_at resolve_expiry_minutes
    find_by_reference_or_throw autocommit ledger_ops_api.Merchants.create merchant_create
    ledger_account_create account_code_format varchar varchar_or_null
    ledger_ops_api.Payments.Service.create ledger_ops_api.Common.str_eq
confirmed_books = refl

pub both : {s t u : Database} → Reach s t → Reach t u → Reach s u
both r here = r
both r (next q st) = next (both r q) st

Reach-Invariant_example :
    Invariant with_confirmed.transactions with_confirmed.history with_confirmed.postings
Reach-Invariant_example =
    Reach-Invariant empty with_confirmed refl refl refl (both created_run confirmed_run)

pub created-WellFormed : WellFormed with_payment.transactions with_payment.history
created-WellFormed = (Reach-Invariant empty with_payment refl refl refl created_run).rows

Reach-Extends_example : Extends with_payment with_confirmed
Reach-Extends_example = Reach-Extends with_payment with_confirmed created-WellFormed confirmed_run

-- The payment that the run creates.
abbrev pub created_payment : Transaction
created_payment = record (demo_payment initiated 0) {
  id = 99;
  reference = "TXN-20260922-000002";
  amount = 5000;
  idempotency_key = "key-9";
  version = 1;
  expires_at = some 901000;
  created_at = 1000;
  updated_at = 1000;
}

stored_payment : find (by_id 99) with_payment.transactions ≡ some created_payment
unfolding transition ◌>>=◌ transaction_update same_frozen_fields transition_exists
    transaction_checks fixed_checks currency_iso msisdn_e164 fingerprint_hex refund_checks
    book_payment_success merchant_find_unique_or_throw accounts_find_many journal_entry_create id_of
    is_digit with_actor check_entries commit_checks distinct_currencies fn_assert_entry_valid
    posting_create_many posting_insert postings_of total fn_transactions_before_update history_entry
    record_status replace row_update save_row clearing_account_code merchant_payable_account_code
    book_dispute_reversal compute_commission payment_postings accumulate_refund book_refund_success
    book_return new_parent_status return_postings after_commit book_success find_by_reference move
    transition_body exception_create exception_kind_checks capture_late_acknowledgment
    create_transaction_idempotently transaction_create insert_row fn_transactions_before_insert
    new_row collides big_int parse_digits compute_expires_at resolve_expiry_minutes
    find_by_reference_or_throw autocommit ledger_ops_api.Merchants.create merchant_create
    ledger_account_create account_code_format varchar varchar_or_null
    ledger_ops_api.Payments.Service.create ledger_ops_api.Common.str_eq
stored_payment = refl

Reach-StatusPath_example :
    (r' : Transaction) × (find (by_id 99) with_confirmed.transactions ≡ some r')
    × StatusPath initiated r'.status
Reach-StatusPath_example =
    Reach-StatusPath with_payment with_confirmed 99 created-WellFormed confirmed_run stored_payment

-- A payment that has expired, and a confirmation that comes too late.
abbrev expired_payment : Transaction
expired_payment = demo_payment expired 0

-- Its way: created, sent, expired.
abbrev entry : Option TransactionStatus → TransactionStatus → TransactionStatusHistory
entry from to = record {
  transaction_id = 7;
  from_status = from;
  to_status = to;
  actor_type = system;
  actor_id = none;
  reason = none;
  created_at = 0;
}

abbrev expired_history : List TransactionStatusHistory
expired_history =
    entry (some pending) expired ∷ entry (some initiated) pending ∷ entry none initiated ∷ []

abbrev with_expired : Database
with_expired = record (demo_database (expired_payment ∷ [])) { history = expired_history }

abbrev with_late : Database
with_late = (transition "TXN-20260922-8F3K2Q" (asked succeeded) 2 demo_env with_expired).1

expired-WellFormed : WellFormed with_expired.transactions with_expired.history
unfolding transaction_checks fixed_checks currency_iso msisdn_e164 fingerprint_hex refund_checks
    is_digit transition_exists
expired-WellFormed = record {
  unique = (refl, tt);
  checked = (refl, tt);
  told = (
    moved _ refl refl refl refl (moved _ refl refl refl refl (created _ refl refl refl refl)),
    tt,
  );
  known = (refl, (refl, (refl, tt)));
}

late_run : Reach with_expired with_late
late_run = next here (transitioned "TXN-20260922-8F3K2Q" (asked succeeded) 2 demo_env)

Reach-final_example :
    (r' : Transaction) × (find (by_id 7) with_late.transactions ≡ some r') × (r'.status ≡ expired)
Reach-final_example = Reach-final with_expired with_late 7 expired-WellFormed late_run refl refl

create_both_example :
    ((e : Failure) × (ledger_ops_api.Merchants.create new_merchant demo_env empty ≡ (err e, empty)))
    ⊎ (ledger_ops_api.Merchants.create new_merchant demo_env empty ≡ (
      ok (ledger_ops_api.Merchants.Creation.new_merchant (session_of demo_env none) new_merchant),
      record empty {
        merchants =
            ledger_ops_api.Merchants.Creation.new_merchant (session_of demo_env none) new_merchant
            ∷ empty.merchants;
        accounts = payable_account (session_of demo_env none) new_merchant ∷ empty.accounts;
      },
    ))
create_both_example = create_both new_merchant demo_env empty
