-- ===== src/Transactions/Presenter.antt =====
-- toTransactionResponse and toHistoryResponse (transactions/transaction.presenter.ts). Amounts are kept as numbers:
-- their text is theirs alone.
use ledger_ops_api.Common.{String, Option, ℕ}
use ledger_ops_api.Database.Tables.{
  Transaction, TransactionStatusHistory, TransactionType, TransactionStatus, Provider, ActorType,
}

pub record TransactionResponse : Type 0 where
  pub reference : String
  pub type : TransactionType
  pub status : TransactionStatus
  pub provider : Provider
  pub amount : ℕ
  pub currency : String
  pub customer_msisdn : String
  pub merchant_id : ℕ
  pub refunded_amount : ℕ
  pub version : ℕ
  pub created_at : ℕ
  pub updated_at : ℕ

abbrev pub to_transaction_response : Transaction → TransactionResponse
to_transaction_response t = record {
  reference = t.reference;
  type = t.type;
  status = t.status;
  provider = t.provider;
  amount = t.amount;
  currency = t.currency;
  customer_msisdn = t.customer_msisdn;
  merchant_id = t.merchant_id;
  refunded_amount = t.refunded_amount;
  version = t.version;
  created_at = t.created_at;
  updated_at = t.updated_at;
}

pub record HistoryResponse : Type 0 where
  pub from_status : Option TransactionStatus
  pub to_status : TransactionStatus
  pub actor_type : ActorType
  pub actor_id : Option String
  pub reason : Option String
  pub created_at : ℕ

abbrev pub to_history_response : TransactionStatusHistory → HistoryResponse
to_history_response h = record {
  from_status = h.from_status;
  to_status = h.to_status;
  actor_type = h.actor_type;
  actor_id = h.actor_id;
  reason = h.reason;
  created_at = h.created_at;
}
