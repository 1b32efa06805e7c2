-- ===== src/Api/Controllers.antt =====
-- The controllers behind ApiKeyGuard and RolesGuard (transactions/transactions.controller.ts, payments/payments.controller.ts,
-- reconciliation/reconciliation.controller.ts, stats/stats.controller.ts, merchants/merchants.controller.ts,
-- auth/api-keys.controller.ts).
use ledger_ops_api.Payments.Service
use ledger_ops_api.Reconciliation
use ledger_ops_api.Transactions.Listing
use ledger_ops_api.Common.{
  String, Result, List, ℕ, Option, err, if◌then◌else◌, none, bad_request, plain_error, ok, ◌∷◌,
  some, ◌&&◌, str_eq, map, not, ◌||◌, [], option_eq, ◌==◌, ltb, not_found,
}
use ledger_ops_api.Auth.Guards.{AuthContext, api_key_guard, roles_guard}
use ledger_ops_api.Transactions.Listing.{ListTransactionsQuery, Page, history}
use ledger_ops_api.Transactions.Idempotency.{IdempotentCreateResult}
use ledger_ops_api.Payments.Service.{Platform, create_refund}
use ledger_ops_api.Database.Tables.{
  ApiRole, Transaction, role_eq, TransactionStatusHistory, operator, analyst, merchant, admin,
}
use ledger_ops_api.Database.Commit.{Call, ◌>>>◌, return}
use ledger_ops_api.Transactions.Service.{
  TransitionStatusDto, find_by_reference_or_throw, transition,
}
use ledger_ops_api.Transactions.Presenter.{TransactionResponse, to_transaction_response}
use ledger_ops_api.Payments.Util.{
  CreatePaymentDto, CreateRefundDto, require_idempotency_key, payment_dto_valid, refund_dto_valid,
}
use ledger_ops_api.Transactions.Audit.{TransactionAudit, build}
use ledger_ops_api.Stats.{StatsResponse, compute}
use ledger_ops_api.Reconciliation.{
  ReconciliationExceptionResponse, find_by_id_or_throw, resolve, to_response,
}

module _ (hash_api_key : String → String) where
  -- A route: both guards, then the handler.
  abbrev pub authorized : {A : Type 0} → Result (Unit {0}) → Call A → Call A
  authorized (err e) handler env d = (err e, d)
  authorized (ok u) handler env d = handler env d

  abbrev pub authenticated_route :
      {A : Type 0} → List ApiRole → (AuthContext → Call A) → Result AuthContext → Call A
  authenticated_route required handler (err e) env d = (err e, d)
  authenticated_route required handler (ok auth) env d =
      authorized (roles_guard required auth) (handler auth) env d

  unfoldable pub route :
      {A : Type 0} → List ApiRole → (AuthContext → Call A) → Option String → Call A
  route required handler header env d =
      authenticated_route required handler (api_key_guard hash_api_key header d) env d

abbrev pub lift : {A : Type 0} → Result A → Call A
lift r env d = (r, d)

-- Another merchant's transaction looks like one that does not exist.
unfoldable pub assert_ownership : AuthContext → Transaction → Call Transaction
assert_ownership auth t env d =
    if role_eq auth.role merchant && not (option_eq ◌==◌ (some t.merchant_id) auth.merchant_id)
    then (err not_found, d)
    else (ok t, d)

-- `number` is what Number(text) gives where that is a natural number, and `none` where it is not.
unfoldable pub parse_if_match : (number : String → Option ℕ) → Option String → Result ℕ
parse_if_match number none = err bad_request
parse_if_match number (some text) = elim (number text) [
  | none ↦ err bad_request
  | some v ↦ if str_eq text "" || ltb v 1 then err bad_request else ok v
]

-- The merchant of the key bounds what a MERCHANT sees.
unfoldable pub merchant_scope : AuthContext → Option ℕ
merchant_scope auth = if role_eq auth.role merchant then auth.merchant_id else none

unfoldable pub owned : AuthContext → String → Call Transaction
owned auth reference = find_by_reference_or_throw reference >>> assert_ownership auth

unfoldable pub list : ListTransactionsQuery → AuthContext → Call Page
list q auth env d = (ok (Listing.list q (merchant_scope auth) d), d)

unfoldable pub get_one : String → AuthContext → Call TransactionResponse
get_one reference auth = owned auth reference >>> λ t. return (to_transaction_response t)

unfoldable pub get_history : String → AuthContext → Call (List TransactionStatusHistory)
get_history reference auth = owned auth reference >>> λ t. history reference

unfoldable pub get_audit : String → AuthContext → Call TransactionAudit
get_audit reference auth =
    owned auth reference >>> λ t env d. (ok (build t (not (role_eq auth.role merchant)) d), d)

-- @Roles(ApiRole.OPERATOR, ApiRole.ADMIN)
abbrev pub operator_or_admin : List ApiRole
operator_or_admin = operator ∷ admin ∷ []

unfoldable pub patch_status :
    (number : String → Option ℕ)
    → String
    → TransitionStatusDto
    → Option String
    → AuthContext
    → Call TransactionResponse
patch_status number reference dto if_match auth =
    lift (parse_if_match number if_match) >>> (λ version. transition reference dto version) >>> λ t.
    return (to_transaction_response t)

-- What POST answers: 201, or 200 with the header Idempotent-Replayed.
pub record Created : Type 0 where
  pub status : ℕ
  pub body : TransactionResponse

abbrev pub created_answer : IdempotentCreateResult → Created
created_answer r = record {
  status = if r.replayed then 200 else 201;
  body = to_transaction_response r.transaction;
}

-- The merchant of the key; the table has one for every key of the role MERCHANT.
abbrev pub own_merchant : AuthContext → Result ℕ
own_merchant auth = elim auth.merchant_id [ none ↦ err plain_error | some m ↦ ok m ]

unfoldable pub post_payment :
    Platform → CreatePaymentDto → Option String → AuthContext → Call Created
post_payment p dto header auth =
    lift (if payment_dto_valid dto then require_idempotency_key header else err bad_request)
    >>> (λ key. lift (own_merchant auth) >>> λ m. Service.create p dto key m)
    >>> λ r. return (created_answer r)

unfoldable pub post_refund :
    Platform → String → CreateRefundDto → Option String → AuthContext → Call Created
post_refund p reference dto header auth =
    lift (if refund_dto_valid dto then require_idempotency_key header else err bad_request)
    >>> (λ key. lift (own_merchant auth) >>> λ m. create_refund p reference dto key m)
    >>> λ r. return (created_answer r)

unfoldable pub get_stats : (started_at loaded_at : Option ℕ) → AuthContext → Call StatsResponse
get_stats started_at loaded_at auth env d =
    (ok (compute started_at loaded_at (merchant_scope auth) d), d)

-- @Roles(ApiRole.ANALYST, ApiRole.ADMIN)
abbrev pub analyst_or_admin : List ApiRole
analyst_or_admin = analyst ∷ admin ∷ []

module _ (parse_uuid : String → Option ℕ) (text_of_id : ℕ → String) where
  unfoldable pub list_exceptions :
      Option String → AuthContext → Call (List ReconciliationExceptionResponse)
  list_exceptions only_unresolved auth env d = (
    ok (
        map (to_response parse_uuid d)
          (Reconciliation.list (option_eq str_eq only_unresolved (some "true")) d)),
    d,
  )

  unfoldable pub get_exception : ℕ → AuthContext → Call ReconciliationExceptionResponse
  get_exception i auth = find_by_id_or_throw i >>> λ e env d. (ok (to_response parse_uuid d e), d)

  unfoldable pub patch_resolve : ℕ → String → AuthContext → Call ReconciliationExceptionResponse
  patch_resolve i resolution auth = resolve i resolution (text_of_id auth.api_key_id) >>> λ e env d.
      (ok (to_response parse_uuid d e), d)
