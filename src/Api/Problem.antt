-- ===== src/Api/Problem.antt =====
-- ProblemDetailsFilter (common/filters/problem-details.filter.ts) on the failures of the calls, and the codes of database/ledger-errors.ts. An
-- answer keeps its status, its code, its path, and whether it has a detail; Filter has the texts.
use ledger_ops_api.Common.{
  LedgerErrorCode, ℕ, String, Failure, Bool, not, true, false, ledger_error, append_only, Option,
  leb, none, reconciliation_required, unbalanced_entry, some, currency_mismatch, bad_request,
  sealed_entry, unauthorized, invalid_transition, forbidden, frozen_field, not_found, missing_actor,
  conflict, invalid_reversal, precondition_failed, inactive_account, unprocessable_entity,
  business_rule, unique_violation, check_violation, foreign_key_violation, numeric_out_of_range,
  value_too_long, record_not_found, plain_error,
}

abbrev pub code_text : LedgerErrorCode → String
code_text append_only = "LX001"
code_text unbalanced_entry = "LX002"
code_text currency_mismatch = "LX003"
code_text sealed_entry = "LX004"
code_text invalid_transition = "LX005"
code_text frozen_field = "LX006"
code_text missing_actor = "LX007"
code_text invalid_reversal = "LX008"
code_text inactive_account = "LX009"
code_text business_rule = "LX010"

-- LX_ERROR_MAP
unfoldable pub ledger_status : LedgerErrorCode → ℕ
ledger_status append_only = 500
ledger_status unbalanced_entry = 500
ledger_status currency_mismatch = 500
ledger_status sealed_entry = 500
ledger_status invalid_transition = 409
ledger_status frozen_field = 500
ledger_status missing_actor = 500
ledger_status invalid_reversal = 500
ledger_status inactive_account = 409
ledger_status business_rule = 409

pub record Problem : Type 0 where
  pub status : ℕ
  pub has_detail : Bool
  pub instance_path : String
  pub code : Option String

unfoldable pub from_ledger_error : LedgerErrorCode → String → Problem
from_ledger_error c path = record {
  status = ledger_status c;
  has_detail = not (leb 500 (ledger_status c));
  instance_path = path;
  code = some (code_text c);
}

unfoldable pub from_http_exception : ℕ → String → Problem
from_http_exception status path = record {
  status = status;
  has_detail = true;
  instance_path = path;
  code = none;
}

unfoldable pub internal_error : String → Problem
internal_error path = record { status = 500; has_detail = false; instance_path = path; code = none }

-- toProblem
unfoldable pub to_problem : Failure → String → Problem
to_problem (ledger_error c) path = from_ledger_error c path
to_problem bad_request path = from_http_exception 400 path
to_problem unauthorized path = from_http_exception 401 path
to_problem forbidden path = from_http_exception 403 path
to_problem not_found path = from_http_exception 404 path
to_problem conflict path = from_http_exception 409 path
to_problem precondition_failed path = from_http_exception 412 path
to_problem unprocessable_entity path = from_http_exception 422 path
to_problem (reconciliation_required i) path = from_http_exception 409 path
to_problem unique_violation path = internal_error path
to_problem check_violation path = internal_error path
to_problem foreign_key_violation path = internal_error path
to_problem numeric_out_of_range path = internal_error path
to_problem value_too_long path = internal_error path
to_problem record_not_found path = internal_error path
to_problem plain_error path = internal_error path
