-- ===== src/Examples/PaymentRuns.antt =====
-- Creations of payments and refunds at concrete inputs.
use ledger_ops_api.Payments.Service
use ledger_ops_api.Payments.Service.{Platform, payment_data, create_refund, refund_of, refund_data}
use ledger_ops_api.Payments.Util.{
  CreateRefundDto, big_int, parse_digits, compute_expires_at, resolve_expiry_minutes,
}
use ledger_ops_api.Database.Tables.{Database, Transaction, succeeded, initiated}
use ledger_ops_api.Common.{
  String, none, str_eq, ℕ, ◌*◌, ◌≤◌, ◌∷◌, ◌≡◌, some, ◌<◌, [], if◌then◌else◌, ◌+◌, ok, true, err,
  unprocessable_entity, refl, false,
}
use ledger_ops_api.Database.Rows.Inserts.{Inserted}
use ledger_ops_api.Payments.Creation.{
  RefundCreated, payments_session, create-Inserted, create_refund-RefundCreated,
}
use ledger_ops_api.Transactions.Booking.Payment.{compute_commission}
use ledger_ops_api.Examples.Data.{
  hash, demo_database, demo_payment, demo_refund, demo_env, platform, payment_dto,
}
use ledger_ops_api.Transactions.Idempotency.{
  create_transaction_idempotently, IdempotentCreateResult,
}
use ledger_ops_api.Transactions.Service.{find_by_reference_or_throw, find_by_reference}
use ledger_ops_api.Database.Rows.{
  transaction_create, insert_row, fn_transactions_before_insert, new_row, collides, record_status,
  history_entry,
}
use ledger_ops_api.Database.Commit.{Call, with_actor, autocommit}
use ledger_ops_api.Database.Sql.{◌>>=◌}
use ledger_ops_api.Transactions.Booking.Balance.{compute_commission_bounds}
use ledger_ops_api.Transactions.Idempotency.Replay.{create_transaction_replays}
use ledger_ops_api.Database.Checks.{
  transaction_checks, fixed_checks, currency_iso, msisdn_e164, fingerprint_hex, refund_checks,
  is_digit,
}
use ledger_ops_api.Database.Ledger.{commit_checks, check_entries}

abbrev refund_dto : CreateRefundDto
refund_dto = record { amount = "4000"; reason = none }

abbrev one_payment : Database
one_payment = demo_database (demo_payment succeeded 0 ∷ [])

create_transaction_replays_example :
    create_transaction_idempotently
      (λ x. x)
      "api:payments"
      "key-1"
      hash
      (transaction_create (payment_data platform demo_env payment_dto "key-1" 1))
      demo_env
      one_payment
    ≡ (if str_eq hash hash
        then (ok (record { transaction = demo_payment succeeded 0; replayed = true }), one_payment)
        else (err unprocessable_entity, one_payment))
unfolding payment_data str_eq
create_transaction_replays_example =
    create_transaction_replays (λ x. x) "api:payments" hash
      (payment_data platform demo_env payment_dto "key-1" 1) demo_env one_payment refl refl

abbrev created : String → ℕ → Call IdempotentCreateResult
created key m = Service.create platform payment_dto key m

abbrev new_payment : Transaction
new_payment = record (demo_payment initiated 0) {
  id = 99;
  reference = "TXN-20260922-000002";
  amount = 5000;
  idempotency_key = "key-9";
  version = 1;
  expires_at = some 901000;
  created_at = 1000;
  updated_at = 1000;
}

created_run : Service.create platform payment_dto "key-9" 1 demo_env one_payment ≡ (
  ok (record { transaction = new_payment; replayed = false }),
  (Service.create platform payment_dto "key-9" 1 demo_env one_payment).1,
)
unfolding Service.create payment_data create_transaction_idempotently with_actor ◌>>=◌
    transaction_create insert_row fn_transactions_before_insert new_row collides record_status
    history_entry big_int parse_digits compute_expires_at resolve_expiry_minutes str_eq
    transaction_checks fixed_checks currency_iso msisdn_e164 fingerprint_hex refund_checks is_digit
    commit_checks check_entries
created_run = refl

create-Inserted_example :
    Inserted
      (payments_session demo_env)
      (payment_data platform demo_env payment_dto "key-9" 1)
      one_payment
      new_payment
      (Service.create platform payment_dto "key-9" 1 demo_env one_payment).1
create-Inserted_example =
    create-Inserted platform payment_dto "key-9" 1 demo_env one_payment created_run refl

abbrev new_refund : Transaction
new_refund = record (demo_refund initiated) {
  id = 99;
  reference = "TXN-20260922-000002";
  idempotency_key = "key-9";
  version = 1;
  expires_at = some 901000;
  created_at = 1000;
  updated_at = 1000;
}

refund_run :
    create_refund platform "TXN-20260922-8F3K2Q" refund_dto "key-9" 1 demo_env one_payment ≡ (
      ok (record { transaction = new_refund; replayed = false }),
      (create_refund platform "TXN-20260922-8F3K2Q" refund_dto "key-9" 1 demo_env one_payment).1,
    )
unfolding create_refund find_by_reference_or_throw find_by_reference autocommit refund_of
    refund_data create_transaction_idempotently with_actor ◌>>=◌ transaction_create insert_row
    fn_transactions_before_insert new_row collides record_status history_entry big_int parse_digits
    compute_expires_at resolve_expiry_minutes str_eq transaction_checks fixed_checks currency_iso
    msisdn_e164 fingerprint_hex refund_checks is_digit commit_checks check_entries
refund_run = refl

create_refund-RefundCreated_example :
    RefundCreated platform "TXN-20260922-8F3K2Q" refund_dto "key-9" 1 demo_env one_payment
      new_refund
      (create_refund platform "TXN-20260922-8F3K2Q" refund_dto "key-9" 1 demo_env one_payment).1
create_refund-RefundCreated_example =
    create_refund-RefundCreated platform "TXN-20260922-8F3K2Q" refund_dto "key-9" 1 demo_env
      one_payment refund_run refl

compute_commission_bounds_example :
    (compute_commission 10000 * 1000 ≤ 10000 * 15)
    × (10000 * 15 < compute_commission 10000 * 1000 + 1000)
    × (compute_commission 10000 ≤ 10000)
compute_commission_bounds_example = compute_commission_bounds 10000
