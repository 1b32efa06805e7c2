-- ===== src/Payments/Service.antt =====
-- PaymentsService (payments/payments.service.ts). The hash of a body, the random reference and the
-- queue of the simulator belong to libraries: they enter as `Platform`.
use ledger_ops_api.Common.{
  ℕ, Result, String, List, if◌then◌else◌, ◌==◌, ok, none, [], some, err, ◌∷◌, not_found,
}
use ledger_ops_api.Payments.Util.{
  CreatePaymentDto, CreateRefundDto, ExpiryConfig, big_int, compute_expires_at,
  resolve_expiry_minutes,
}
use ledger_ops_api.Database.Sql.{Env}
use ledger_ops_api.Transactions.Idempotency.{
  create_transaction_idempotently, IdempotentCreateResult,
}
use ledger_ops_api.Database.Rows.{TransactionData, transaction_create}
use ledger_ops_api.Database.Commit.{Call, ◌>>>◌}
use ledger_ops_api.Database.Tables.{Transaction, payment, refund, Database}
use ledger_ops_api.Transactions.Service.{find_by_reference_or_throw}

-- `reference` is what generateTransactionReference draws for the call; `before_insert` and
-- `meanwhile` are what other requests do to the database between two statements of the call: after the
-- parent of a refund is read, and after an insert has failed.
pub record Platform : Type 0 where
  pub fingerprint_of : CreatePaymentDto → String
  pub refund_fingerprint_of : String → CreateRefundDto → String
  pub reference : String
  pub config : ExpiryConfig
  pub before_insert : Database → Database
  pub meanwhile : Database → Database

unfoldable pub payment_data : Platform → Env → CreatePaymentDto → String → ℕ → TransactionData
payment_data p env dto key merchant_id = record {
  reference = p.reference;
  type = payment;
  provider = dto.provider;
  amount = big_int dto.amount;
  currency = dto.currency;
  customer_msisdn = dto.customer_msisdn;
  parent_transaction_id = none;
  merchant_id = merchant_id;
  expires_at =
      some (compute_expires_at env.clock_now (resolve_expiry_minutes p.config dto.provider));
  idempotency_key = key;
  request_fingerprint = p.fingerprint_of dto;
}

-- `create`. What it schedules for the simulator is not in the database.
unfoldable pub create : Platform → CreatePaymentDto → String → ℕ → Call IdempotentCreateResult
unfolding payment_data create_transaction_idempotently
create p dto key merchant_id env d =
    create_transaction_idempotently p.meanwhile "api:payments" key (p.fingerprint_of dto)
      (transaction_create (payment_data p env dto key merchant_id)) env d

-- The callbacks that the simulator is asked for: none for a replay.
unfoldable pub scheduled : Result IdempotentCreateResult → List String
scheduled (ok r) = if r.replayed then [] else r.transaction.reference ∷ []
scheduled (err e) = []

unfoldable pub refund_data :
    Platform → Env → String → Transaction → CreateRefundDto → String → TransactionData
refund_data p env parent_reference parent dto key = record {
  reference = p.reference;
  type = refund;
  provider = parent.provider;
  amount = big_int dto.amount;
  currency = parent.currency;
  customer_msisdn = parent.customer_msisdn;
  parent_transaction_id = some parent.id;
  merchant_id = parent.merchant_id;
  expires_at =
      some (compute_expires_at env.clock_now (resolve_expiry_minutes p.config parent.provider));
  idempotency_key = key;
  request_fingerprint = p.refund_fingerprint_of parent_reference dto;
}

unfoldable pub refund_of :
    Platform → String → CreateRefundDto → String → ℕ → Transaction → Call IdempotentCreateResult
unfolding refund_data create_transaction_idempotently
refund_of p parent_reference dto key merchant_id parent env d =
    if parent.merchant_id == merchant_id
    then create_transaction_idempotently p.meanwhile "api:payments" key
        (p.refund_fingerprint_of parent_reference dto)
        (transaction_create (refund_data p env parent_reference parent dto key)) env
        (p.before_insert d)
    else (err not_found, d)

-- `createRefund`: a parent of another merchant is answered like one that does not exist.
unfoldable pub create_refund :
    Platform → String → CreateRefundDto → String → ℕ → Call IdempotentCreateResult
unfolding refund_of
create_refund p parent_reference dto key merchant_id =
    find_by_reference_or_throw parent_reference >>> refund_of p parent_reference dto key merchant_id
