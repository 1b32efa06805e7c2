-- ===== src/Database/Others.antt =====
-- Rows of the other tables: merchants, ledger accounts and reconciliation exceptions (migrations
-- init_ledger, merchants, reconciliation_exceptions and reconciliation_exception_kinds).
pub mod Inserts
use ledger_ops_api.Common.{
  ℕ, String, Option, none, some, Bool, true, not, ◌&&◌, ◌||◌, ◌∷◌, any, List, [], false, ◌==◌, leb,
  str_eq, is_some, if◌then◌else◌, foreign_key_violation, unique_violation, check_violation,
  value_too_long,
}
use ledger_ops_api.Database.Tables.{
  Merchant, LedgerAccount, ReconciliationException, ReconciliationExceptionKind, kind_eq,
  late_acknowledgment, missing_locally, TransactionStatus, AccountType,
}
use ledger_ops_api.Database.Sql.{Sql, Table, pure, ◌>>=◌, ◌>>◌, guard, select, session, write}
use ledger_ops_api.Database.Checks.{varchar, varchar_or_null, currency_iso, is_digit, codes}
use ledger_ops_api.Database.Rows.{by_id}

-- INSERT INTO "merchants". PostgreSQL refuses a text that its column has no room for before it checks anything else.
unfoldable pub merchant_create : String → String → Sql Merchant
merchant_create code name = do
  s ← session
  d ← select (λ d. d)
  let m : Merchant = record {
    id = s.env.uuid Table.merchants;
    code = code;
    name = name;
    is_active = true;
    created_at = s.env.current_timestamp;
  }
  guard (varchar 50 code && varchar 200 name) value_too_long
  guard (not (any (λ (x : Merchant). x.id == m.id || str_eq x.code code) d.merchants))
      unique_violation
  write (λ d. record d { merchants = m ∷ d.merchants })
  pure m

is_code_char : ℕ → Bool
unfolding is_digit
is_code_char c = (leb b'a' c && leb c b'z') || is_digit c || c == b'_'

-- The rest of the code, in a segment that has begun or not.
code_segments : Bool → List ℕ → Bool
unfolding is_code_char
code_segments begun [] = begun
code_segments begun (c ∷ cs) =
    (is_code_char c || (c == b':' && begun)) && code_segments (is_code_char c) cs

-- ^[a-z0-9_]+(:[a-z0-9_]+)*$
unfoldable pub account_code_format : String → Bool
unfolding code_segments
account_code_format s = code_segments false (codes s)

-- INSERT INTO "ledger_accounts"
unfoldable pub ledger_account_create : String → String → AccountType → String → Sql LedgerAccount
ledger_account_create code name type currency = do
  s ← session
  d ← select (λ d. d)
  let a : LedgerAccount = record {
    id = s.env.uuid Table.ledger_accounts;
    code = code;
    name = name;
    type = type;
    currency = currency;
    is_active = true;
  }
  guard (varchar 100 code && varchar 200 name) value_too_long
  guard (currency_iso currency && account_code_format code) check_violation
  guard (not (any (λ (x : LedgerAccount). x.id == a.id || str_eq x.code code) d.accounts))
      unique_violation
  write (λ d. record d { accounts = a ∷ d.accounts })
  pure a

pub record ExceptionData : Type 0 where
  pub kind : ReconciliationExceptionKind
  pub transaction_id : Option ℕ
  pub reported_status : Option TransactionStatus
  pub provider_reference : Option String
  pub detail : Option String

-- reconciliation_exceptions_transaction_id_kind_chk and _reported_status_kind_chk
unfoldable pub exception_kind_checks : ExceptionData → Bool
exception_kind_checks x =
    (if kind_eq x.kind missing_locally
      then not (is_some x.transaction_id)
      else is_some x.transaction_id)
    && (if kind_eq x.kind late_acknowledgment
        then is_some x.reported_status
        else not (is_some x.reported_status))

-- INSERT INTO "reconciliation_exceptions": a new exception is unresolved.
unfoldable pub exception_create : ExceptionData → Sql ReconciliationException
unfolding exception_kind_checks
exception_create x = do
  s ← session
  d ← select (λ d. d)
  let e : ReconciliationException = record {
    id = s.env.uuid Table.reconciliation_exceptions;
    kind = x.kind;
    transaction_id = x.transaction_id;
    reported_status = x.reported_status;
    provider_reference = x.provider_reference;
    detail = x.detail;
    detected_at = s.env.current_timestamp;
    resolved_at = none;
    resolved_by = none;
    resolution = none;
  }
  guard (varchar_or_null 100 x.provider_reference && varchar_or_null 500 x.detail) value_too_long
  guard (exception_kind_checks x) check_violation
  guard (not (any (λ (y : ReconciliationException). y.id == e.id) d.exceptions)) unique_violation
  guard (elim x.transaction_id [ none ↦ true | some i ↦ any (by_id i) d.transactions ])
      foreign_key_violation
  write (λ d. record d { exceptions = e ∷ d.exceptions })
  pure e
