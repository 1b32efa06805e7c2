-- ===== src/Database/Rows.antt =====
-- Rows of "transactions": INSERT and UPDATE with their triggers and constraints (migrations
-- init_ledger 2.1, 2.6 to 2.8, freeze_expires_at, transaction_merchant_id).
pub mod Updates
pub mod Keys
pub mod Inserts
use ledger_ops_api.Common.{
  ℕ, ◌+◌, String, Option, none, some, Bool, true, not, ◌&&◌, ◌||◌, List, [], ◌∷◌, find, any, ltb,
  leb, ◌==◌, str_eq, is_some, option_eq, if◌then◌else◌, foreign_key_violation, unique_violation,
  check_violation, numeric_out_of_range, record_not_found, ledger_error, invalid_transition,
  frozen_field, missing_actor, business_rule,
}
use ledger_ops_api.Database.Tables.{
  Transaction, TransactionStatusHistory, Merchant, TransactionStatus, initiated, succeeded,
  partially_refunded, status_eq, TransactionType, payment, refund, type_eq, Provider, provider_eq,
}
use ledger_ops_api.Database.Sql.{
  Sql, Table, Session, Actor, pure, throw, ◌>>=◌, ◌>>◌, guard, when, or_throw, select, session,
  write, nullif_empty,
}
use ledger_ops_api.Database.Checks.{transaction_checks}
use ledger_ops_api.Database.StateMachine.{transition_exists}

-- BIGINT and INTEGER
abbrev pub bigint_max : ℕ
bigint_max = 9223372036854775807

abbrev pub integer_max : ℕ
integer_max = 2147483647

abbrev pub by_id : ℕ → Transaction → Bool
by_id i t = t.id == i

-- `actor.reason ?? ""`
abbrev pub reason_text : Option String → String
reason_text none = ""
reason_text (some r) = r

unfoldable pub history_entry :
    Actor → ℕ → Option TransactionStatus → Transaction → TransactionStatusHistory
history_entry a now from t = record {
  transaction_id = t.id;
  from_status = from;
  to_status = t.status;
  actor_type = a.type;
  actor_id = nullif_empty a.id;
  reason = nullif_empty (reason_text a.reason);
  created_at = now;
}

-- fn_transactions_record_status
unfoldable pub record_status : Option TransactionStatus → Transaction → Sql (Unit {0})
record_status from t = do
  s ← session
  a ← or_throw s.actor (ledger_error missing_actor)
  write (λ d. record d { history = history_entry a s.env.current_timestamp from t ∷ d.history })

-- What `transaction.create` is given.
pub record TransactionData : Type 0 where
  pub reference : String
  pub type : TransactionType
  pub provider : Provider
  pub amount : ℕ
  pub currency : String
  pub customer_msisdn : String
  pub parent_transaction_id : Option ℕ
  pub merchant_id : ℕ
  pub expires_at : Option ℕ
  pub idempotency_key : String
  pub request_fingerprint : String

-- The parent's part of fn_transactions_before_insert. An unknown parent raises nothing here (the
-- comparisons with NULL are not true).
refundable : Option Transaction → Transaction → Bool
refundable none t = true
refundable (some p) t =
    type_eq p.type payment
    && (status_eq p.status succeeded || status_eq p.status partially_refunded)
    && str_eq p.currency t.currency
    && provider_eq p.provider t.provider
    && leb (t.amount + p.refunded_amount) p.amount

find_parent : Option ℕ → List Transaction → Option Transaction
find_parent none ts = none
find_parent (some i) ts = find (by_id i) ts

-- fn_transactions_before_insert, on a row that the code creates with the default status.
unfoldable pub fn_transactions_before_insert : Transaction → Sql (Unit {0})
unfolding refundable find_parent
fn_transactions_before_insert t = do
  guard (status_eq t.status initiated) (ledger_error invalid_transition)
  d ← select (λ d. d)
  guard
      (not (type_eq t.type refund)
        || refundable (find_parent t.parent_transaction_id d.transactions) t)
      (ledger_error business_rule)

unfoldable pub new_row : Session → TransactionData → Transaction
new_row s x = record {
  id = s.env.uuid Table.transactions;
  reference = x.reference;
  type = x.type;
  status = initiated;
  provider = x.provider;
  provider_reference = none;
  amount = x.amount;
  currency = x.currency;
  refunded_amount = 0;
  customer_msisdn = x.customer_msisdn;
  parent_transaction_id = x.parent_transaction_id;
  merchant_id = x.merchant_id;
  idempotency_key = x.idempotency_key;
  request_fingerprint = x.request_fingerprint;
  version = 1;
  expires_at = x.expires_at;
  created_at = s.env.current_timestamp;
  updated_at = s.env.current_timestamp;
}

-- The primary key and the unique indexes. A null provider_reference collides with nothing.
unfoldable pub collides : Transaction → Transaction → Bool
collides t x =
    x.id == t.id || str_eq x.reference t.reference || str_eq x.idempotency_key t.idempotency_key

-- The foreign key on the parent.
abbrev pub parent_known : Option ℕ → List Transaction → Bool
parent_known none ts = true
parent_known (some i) ts = any (by_id i) ts

-- INSERT INTO "transactions", one row.
unfoldable pub insert_row : Transaction → Sql Transaction
unfolding fn_transactions_before_insert collides record_status
insert_row t = do
  guard (leb t.amount bigint_max) numeric_out_of_range
  fn_transactions_before_insert t
  guard (transaction_checks t) check_violation
  d ← select (λ d. d)
  guard (not (any (collides t) d.transactions)) unique_violation
  guard (any (λ (m : Merchant). m.id == t.merchant_id) d.merchants) foreign_key_violation
  guard (parent_known t.parent_transaction_id d.transactions) foreign_key_violation
  write (λ d. record d { transactions = t ∷ d.transactions })
  record_status none t
  pure t

-- `transaction.create({ data })`
unfoldable pub transaction_create : TransactionData → Sql Transaction
unfolding new_row insert_row
transaction_create x s = insert_row (new_row s x) s

-- What an update sets: the code never sets another column.
pub record TransactionChange : Type 0 where
  pub status : Option TransactionStatus
  pub refunded_amount : Option ℕ

abbrev pub or_else {ℓ} : {A : Type ℓ} → Option A → A → A
or_else none a = a
or_else (some b) a = b

abbrev pub change : TransactionChange → Transaction → Transaction
change c t = record t {
  status = or_else c.status t.status;
  refunded_amount = or_else c.refunded_amount t.refunded_amount;
}

-- The columns that no update may touch are the same.
unfoldable pub same_frozen_fields : Transaction → Transaction → Bool
same_frozen_fields old new =
    new.id == old.id
    && str_eq new.reference old.reference
    && type_eq new.type old.type
    && provider_eq new.provider old.provider
    && new.amount == old.amount
    && str_eq new.currency old.currency
    && str_eq new.customer_msisdn old.customer_msisdn
    && option_eq ◌==◌ new.parent_transaction_id old.parent_transaction_id
    && new.merchant_id == old.merchant_id
    && str_eq new.idempotency_key old.idempotency_key
    && str_eq new.request_fingerprint old.request_fingerprint
    && option_eq ◌==◌ new.expires_at old.expires_at
    && new.created_at == old.created_at

-- fn_transactions_before_update
unfoldable pub fn_transactions_before_update : Transaction → Transaction → Sql Transaction
fn_transactions_before_update old new = do
  guard (same_frozen_fields old new) (ledger_error frozen_field)
  guard
      (not (is_some old.provider_reference)
        || option_eq str_eq new.provider_reference old.provider_reference)
      (ledger_error frozen_field)
  guard (leb old.refunded_amount new.refunded_amount) (ledger_error business_rule)
  guard (status_eq new.status old.status || transition_exists old.status new.status)
      (ledger_error invalid_transition)
  guard (ltb old.version integer_max) numeric_out_of_range
  s ← session
  pure (record new { version = old.version + 1; updated_at = s.env.current_timestamp })

-- The table with one row replaced, by its id.
unfoldable pub replace : Transaction → List Transaction → List Transaction
replace t [] = []
replace t (x ∷ xs) = (if x.id == t.id then t else x) ∷ replace t xs

-- The rest of an UPDATE once the trigger has let the row through.
unfoldable pub save_row : Transaction → Transaction → Sql Transaction
unfolding replace record_status
save_row old new = do
  guard (transaction_checks new) check_violation
  write (λ d. record d { transactions = replace new d.transactions })
  when (not (status_eq old.status new.status)) (record_status (some old.status) new)
  pure new

-- UPDATE "transactions", one row that has been read.
unfoldable pub row_update : TransactionChange → Transaction → Sql Transaction
unfolding fn_transactions_before_update save_row
row_update c old = do new ← fn_transactions_before_update old (change c old); save_row old new

-- `transaction.update({ where: { id }, data })`
unfoldable pub transaction_update : ℕ → TransactionChange → Sql Transaction
unfolding row_update
transaction_update i c = do
  d ← select (λ d. d)
  old ← or_throw (find (by_id i) d.transactions) record_not_found
  row_update c old
