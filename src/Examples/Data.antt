-- ===== src/Examples/Data.antt =====
-- A small database: the demo merchant, its accounts and one payment.
use ledger_ops_api.Common.{ℕ, String, none, some, true, List, [], ◌∷◌}
use ledger_ops_api.Database.Tables.{
  Database, LedgerAccount, Merchant, Transaction, TransactionStatus, orange_money, payment, asset,
  liability, revenue, AccountType, refund,
}
use ledger_ops_api.Database.Sql.{Env}
use ledger_ops_api.Payments.Service.{Platform}
use ledger_ops_api.Payments.Util.{CreatePaymentDto}

abbrev pub hash : String
hash = "0123456789abcdef0123456789abcdef0123456789abcdef0123456789abcdef"

abbrev account : ℕ → String → AccountType → LedgerAccount
account i code type = record {
  id = i;
  code = code;
  name = code;
  type = type;
  currency = "XOF";
  is_active = true;
}

abbrev pub demo_merchant : Merchant
demo_merchant = record { id = 1; code = "demo"; name = "demo"; is_active = true; created_at = 0 }

-- A payment of 10000 at the given status, with the given amount refunded.
abbrev pub demo_payment : TransactionStatus → ℕ → Transaction
demo_payment status refunded = record {
  id = 7;
  reference = "TXN-20260922-8F3K2Q";
  type = payment;
  status = status;
  provider = orange_money;
  provider_reference = none;
  amount = 10000;
  currency = "XOF";
  refunded_amount = refunded;
  customer_msisdn = "+2250700000000";
  parent_transaction_id = none;
  merchant_id = 1;
  idempotency_key = "key-1";
  request_fingerprint = hash;
  version = 2;
  expires_at = some 900000;
  created_at = 0;
  updated_at = 0;
}

-- A refund of 4000 of that payment.
abbrev pub demo_refund : TransactionStatus → Transaction
demo_refund status = record {
  id = 8;
  reference = "TXN-20260922-000001";
  type = refund;
  status = status;
  provider = orange_money;
  provider_reference = none;
  amount = 4000;
  currency = "XOF";
  refunded_amount = 0;
  customer_msisdn = "+2250700000000";
  parent_transaction_id = some 7;
  merchant_id = 1;
  idempotency_key = "key-2";
  request_fingerprint = hash;
  version = 2;
  expires_at = some 900000;
  created_at = 0;
  updated_at = 0;
}

abbrev pub demo_database : List Transaction → Database
demo_database ts = record {
  transactions = ts;
  history = [];
  entries = [];
  postings = [];
  accounts =
      account 11 "provider:orange_money:clearing" asset
      ∷ account 12 "merchant:demo:payable" liability
      ∷ account 13 "revenue:fees" revenue
      ∷ [];
  merchants = demo_merchant ∷ [];
  exceptions = [];
  api_keys = [];
}

abbrev pub demo_env : Env
demo_env = record { current_timestamp = 1000; clock_now = 1000; txid_current = 50; uuid = λ t. 99 }

abbrev pub platform : Platform
platform = record {
  fingerprint_of = λ dto. hash;
  refund_fingerprint_of = λ reference dto. hash;
  reference = "TXN-20260922-000002";
  config = record { by_provider = λ p. none; default_minutes = none };
  before_insert = λ d. d;
  meanwhile = λ d. d;
}

abbrev pub payment_dto : CreatePaymentDto
payment_dto = record {
  provider = orange_money;
  amount = "5000";
  currency = "XOF";
  customer_msisdn = "+2250700000000";
}
