-- ===== src/Examples/AccessRuns.antt =====
-- Guards, keys, reading and counting at concrete inputs.
use ledger_ops_api.Config
use ledger_ops_api.Common.{
  String, ◌≡◌, ◌==◌, length, false, some, ◌+◌, true, none, [], ◌≤◌, ◌∷◌, ok, refl, All, ◌&&◌,
  str_eq, Bool, ledger_error, frozen_field, leb,
}
use ledger_ops_api.Database.Tables.{
  ApiKey, Database, merchant, analyst, succeeded, Transaction, pending, orange_money,
}
use ledger_ops_api.Auth.Guards.{
  AuthContext, context_of, api_key_guard, bearer_key, strip, authenticated, roles_guard,
}
use ledger_ops_api.Api.Controllers.{get_one, get_audit, route, owned, assert_ownership}
use ledger_ops_api.Transactions.Audit.{build}
use ledger_ops_api.Auth.Keys.{
  revoke, validate, revoked, key_update, fn_api_keys_before_update, same_key, key_checks,
  replace_key,
}
use ledger_ops_api.Transactions.Listing.{ListTransactionsQuery, default_limit, list}
use ledger_ops_api.Stats.Counts.{
  counted, scoped, scoped_payments, sum_counts, compute-totals, reconciliation-settled,
}
use ledger_ops_api.Stats.{reconciliation, compute, count, settled, has_open_exception, all_statuses}
use ledger_ops_api.Examples.Data.{demo_database, demo_payment, demo_env, demo_refund}
use ledger_ops_api.Api.Ownership.{get_one-merchant, get_audit-merchant}
use ledger_ops_api.Database.Commit.{Call, autocommit}
use ledger_ops_api.Api.Access.{Admitted, route_admits}
use ledger_ops_api.Transactions.Service.{find_by_reference_or_throw, find_by_reference}
use ledger_ops_api.Transactions.Presenter.{TransactionResponse, to_transaction_response}
use ledger_ops_api.Auth.Revocation.{revoke-validate}
use ledger_ops_api.Database.Rows.{or_else}
use ledger_ops_api.Database.Sql.{◌>>=◌}
use ledger_ops_api.Database.Ledger.{commit_checks, check_entries}
use ledger_ops_api.Transactions.Listing.Pages.{Fits, list-rows}
use ledger_ops_api.Config.{EnvironmentVariables, expiry_ranges, expiry_config}
use ledger_ops_api.Payments.Util.{resolve_expiry_minutes}
use ledger_ops_api.Config.Expiry.{resolve_expiry_minutes-bounds}
use ledger_ops_api.Api.Problem.{to_problem}
use ledger_ops_api.Api.Details.{to_problem-has_detail}

-- A stand-in for the hash: it keeps the text.
abbrev same_text : String → String
same_text s = s

abbrev merchant_key : ApiKey
merchant_key = record {
  id = 21;
  label = "demo";
  role = merchant;
  hashed_key = "secret";
  merchant_id = some 1;
  is_active = true;
  revoked_at = none;
  created_at = 0;
}

abbrev other_key : ApiKey
other_key = record {
  id = 22;
  label = "analyst";
  role = analyst;
  hashed_key = "other";
  merchant_id = none;
  is_active = true;
  revoked_at = none;
  created_at = 0;
}

abbrev with_keys : Database
with_keys = record (demo_database (demo_payment succeeded 0 ∷ demo_refund pending ∷ [])) {
  api_keys = merchant_key ∷ other_key ∷ [];
}

abbrev caller : AuthContext
caller = context_of merchant_key

got :
    get_one "TXN-20260922-8F3K2Q" caller demo_env with_keys
    ≡ (ok (to_transaction_response (demo_payment succeeded 0)), with_keys)
unfolding get_one owned find_by_reference_or_throw find_by_reference autocommit ◌>>=◌
    assert_ownership str_eq commit_checks check_entries
got = refl

get_one-merchant_example : (to_transaction_response (demo_payment succeeded 0)).merchant_id ≡ 1
get_one-merchant_example =
    get_one-merchant caller "TXN-20260922-8F3K2Q" demo_env with_keys refl refl got

audited :
    get_audit "TXN-20260922-8F3K2Q" caller demo_env with_keys
    ≡ (ok (build (demo_payment succeeded 0) false with_keys), with_keys)
unfolding get_audit owned find_by_reference_or_throw find_by_reference autocommit ◌>>=◌
    assert_ownership str_eq commit_checks check_entries
audited = refl

get_audit-merchant_example :
    ((build (demo_payment succeeded 0) false with_keys).transaction.merchant_id ≡ 1)
    × ((build (demo_payment succeeded 0) false with_keys).entries ≡ none)
get_audit-merchant_example =
    get_audit-merchant caller "TXN-20260922-8F3K2Q" demo_env with_keys refl refl audited

abbrev handler : AuthContext → Call TransactionResponse
handler = get_one "TXN-20260922-8F3K2Q"

routed :
    route same_text (analyst ∷ merchant ∷ []) handler (some "Bearer secret") demo_env with_keys
    ≡ (ok (to_transaction_response (demo_payment succeeded 0)), with_keys)
unfolding route api_key_guard bearer_key strip authenticated validate roles_guard get_one owned
    find_by_reference_or_throw find_by_reference autocommit ◌>>=◌ assert_ownership str_eq
    commit_checks check_entries
routed = refl

route_admits_example :
    (auth : AuthContext) × Admitted same_text
      (analyst ∷ merchant ∷ [])
      (some "Bearer secret")
      auth
      with_keys
    × (handler auth demo_env with_keys
        ≡ (ok (to_transaction_response (demo_payment succeeded 0)), with_keys))
route_admits_example =
    route_admits same_text (analyst ∷ merchant ∷ []) handler (some "Bearer secret") demo_env
      with_keys routed

revoked_run : revoke 21 demo_env with_keys ≡ (ok tt, (revoke 21 demo_env with_keys).1)
unfolding revoke revoked autocommit key_update fn_api_keys_before_update same_key key_checks
    replace_key ◌>>=◌ str_eq commit_checks check_entries
revoked_run = refl

found_other : validate same_text "other" (revoke 21 demo_env with_keys).1 ≡ some other_key
unfolding validate revoke revoked autocommit key_update fn_api_keys_before_update same_key
    key_checks replace_key ◌>>=◌ str_eq commit_checks check_entries
found_other = refl

revoke-validate_example : (other_key.id == 21) ≡ false
revoke-validate_example =
    revoke-validate same_text 21 demo_env with_keys revoked_run "other" found_other

abbrev everything : ListTransactionsQuery
everything = record {
  status = some succeeded;
  provider = none;
  date_from = none;
  date_to = none;
  cursor = none;
  limit = some 1;
}

list-rows_example :
    (length (list everything (some 1) with_keys).rows ≤ or_else everything.limit default_limit)
    × All (Fits everything (some 1)) (list everything (some 1) with_keys).rows
list-rows_example = list-rows everything (some 1) with_keys

compute-totals_example :
    ((compute (some 0) (some 5) none with_keys).by_status
      ≡ counted (scoped none with_keys) all_statuses)
    × ((compute (some 0) (some 5) none with_keys).total_transactions
        ≡ length (scoped none with_keys))
    × ((compute (some 0) (some 5) none with_keys).payments.by_status
        ≡ counted (scoped_payments none with_keys) all_statuses)
    × ((compute (some 0) (some 5) none with_keys).payments.total
        ≡ length (scoped_payments none with_keys))
    × (sum_counts (compute (some 0) (some 5) none with_keys).by_status
        ≡ (compute (some 0) (some 5) none with_keys).total_transactions)
    × (sum_counts (compute (some 0) (some 5) none with_keys).payments.by_status
        ≡ (compute (some 0) (some 5) none with_keys).payments.total)
compute-totals_example = compute-totals (some 0) (some 5) none with_keys

reconciliation-settled_example :
    (reconciliation 0 5 with_keys).reconciled_transactions
      + count
          (λ (t : Transaction). settled 0 5 t && has_open_exception with_keys.exceptions t)
          with_keys.transactions
    ≡ (reconciliation 0 5 with_keys).settled_transactions
reconciliation-settled_example = reconciliation-settled 0 5 with_keys

-- A stand-in for the syntax of URLs.
abbrev any_url : String → Bool
any_url s = true

abbrev environment : EnvironmentVariables
environment = record {
  database_url = none;
  app_database_url = some "postgresql://app@localhost/ledger";
  database_pool_max = some 5;
  redis_url = none;
  port = some 3000;
  payment_expiry_minutes_default = some 30;
  payment_expiry_minutes = λ p. none;
  provider_simulator_enabled = none;
  provider_simulator_failure_rate = none;
  expiration_cron_enabled = none;
  demo_merchant_api_key = none;
  demo_analyst_api_key = none;
}

environment_valid : Config.validate any_url any_url environment ≡ true
unfolding Config.validate expiry_ranges
environment_valid = refl

resolve_expiry_minutes-bounds_example :
    (1 ≤ resolve_expiry_minutes (expiry_config environment) orange_money)
    × (resolve_expiry_minutes (expiry_config environment) orange_money ≤ 1440)
resolve_expiry_minutes-bounds_example =
    resolve_expiry_minutes-bounds any_url any_url environment orange_money environment_valid

to_problem-has_detail_example :
    (((to_problem (ledger_error frozen_field) "/v1/api-keys").has_detail
        && leb 500 (to_problem (ledger_error frozen_field) "/v1/api-keys").status)
      ≡ false)
    × (400 ≤ (to_problem (ledger_error frozen_field) "/v1/api-keys").status)
    × ((to_problem (ledger_error frozen_field) "/v1/api-keys").status ≤ 500)
to_problem-has_detail_example = to_problem-has_detail (ledger_error frozen_field) "/v1/api-keys"
