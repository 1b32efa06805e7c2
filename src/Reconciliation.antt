-- ===== src/Reconciliation.antt =====
-- ReconciliationService (reconciliation/reconciliation.service.ts, reconciliation.presenter.ts) and the trigger of its
-- table (migration reconciliation_exception_kinds).
pub mod Resolution
use ledger_ops_api.Database.Tables.{
  ReconciliationExceptionKind, ReconciliationException, Database, kind_eq, missing_locally,
  TransactionStatus, status_eq, Transaction, ApiKey,
}
use ledger_ops_api.Common.{
  ℕ, String, List, Bool, Option, ◌==◌, some, if◌then◌else◌, ◌∷◌, filter, none, ◌&&◌, is_some, ltb,
  not, [], option_eq, err, ◌||◌, ledger_error, conflict, bad_request, str_eq, frozen_field, find,
  not_found, true, check_violation, map_option, all, leb, sort_by,
}
use ledger_ops_api.Database.Others.{ExceptionData, exception_create}
use ledger_ops_api.Database.Commit.{Call, autocommit, ◌>>>◌}
use ledger_ops_api.Database.Sql.{Sql, ◌>>◌, ◌>>=◌, guard, select, or_throw, write, pure}
use ledger_ops_api.Database.Checks.{codes}
use ledger_ops_api.Database.Rows.{by_id}

pub record ReportDiscrepancyInput : Type 0 where
  pub kind : ReconciliationExceptionKind
  pub transaction_id : Option ℕ
  pub provider_reference : Option String
  pub detail : String

-- The columns of the exception that an update may not touch.
unfoldable pub same_exception : ReconciliationException → ReconciliationException → Bool
same_exception old new =
    new.id == old.id
    && option_eq ◌==◌ new.transaction_id old.transaction_id
    && kind_eq new.kind old.kind
    && option_eq status_eq new.reported_status old.reported_status
    && option_eq str_eq new.provider_reference old.provider_reference
    && option_eq str_eq new.detail old.detail
    && new.detected_at == old.detected_at

unfoldable pub fn_reconciliation_exceptions_before_update :
    ReconciliationException → ReconciliationException → Sql (Unit {0})
fn_reconciliation_exceptions_before_update old new = do
  guard (same_exception old new) (ledger_error frozen_field)
  guard
      (not (is_some old.resolved_at)
        || (option_eq ◌==◌ new.resolved_at old.resolved_at
            && option_eq str_eq new.resolved_by old.resolved_by
            && option_eq str_eq new.resolution old.resolution))
      (ledger_error frozen_field)

unfoldable pub replace_exception :
    ReconciliationException → List ReconciliationException → List ReconciliationException
replace_exception e [] = []
replace_exception e (x ∷ xs) = (if x.id == e.id then e else x) ∷ replace_exception e xs

is_space : ℕ → Bool
is_space c = c == b' '

-- reconciliation_exceptions_resolution_together_chk and _not_blank_chk
unfoldable pub resolution_checks : ReconciliationException → Bool
unfolding is_space
resolution_checks e =
    (if is_some e.resolved_at
      then is_some e.resolved_by && is_some e.resolution
      else not (is_some e.resolved_by) && not (is_some e.resolution))
    && (elim e.resolution [ none ↦ true | some r ↦ not (all is_space (codes r)) ])

unfoldable pub exception_update :
    ReconciliationException → ReconciliationException → Sql ReconciliationException
exception_update old new = do
  fn_reconciliation_exceptions_before_update old new
  guard (resolution_checks new) check_violation
  write (λ d. record d { exceptions = replace_exception new d.exceptions })
  pure new

abbrev pub exception_by_id : ℕ → ReconciliationException → Bool
exception_by_id i e = e.id == i

abbrev pub find_exception : ℕ → Sql ReconciliationException
find_exception i = do
  es ← select (λ d. d.exceptions)
  or_throw (find (exception_by_id i) es) not_found

unfoldable pub find_by_id_or_throw : ℕ → Call ReconciliationException
find_by_id_or_throw i = autocommit (find_exception i)

unfoldable pub resolved_row :
    ℕ → String → String → ReconciliationException → ReconciliationException
resolved_row now resolution resolved_by e = record e {
  resolved_at = some now;
  resolved_by = some resolved_by;
  resolution = some resolution;
}

unfoldable pub resolve_row :
    String → String → ReconciliationException → Call ReconciliationException
resolve_row resolution resolved_by e env d =
    if is_some e.resolved_at
    then (err conflict, d)
    else autocommit (exception_update e (resolved_row env.clock_now resolution resolved_by e)) env d

unfoldable pub resolve : ℕ → String → String → Call ReconciliationException
resolve i resolution resolved_by = find_by_id_or_throw i >>> resolve_row resolution resolved_by

-- orderBy: { detectedAt: "desc" }
abbrev later : ReconciliationException → ReconciliationException → Bool
later e x = leb x.detected_at e.detected_at

unfoldable pub latest_first : List ReconciliationException → List ReconciliationException
latest_first es = sort_by later es

unfoldable pub list : Bool → Database → List ReconciliationException
list only_unresolved d = latest_first (
    filter (λ (e : ReconciliationException). not only_unresolved || not (is_some e.resolved_at))
      d.exceptions)

abbrev pub late_kind : ReportDiscrepancyInput → ExceptionData
late_kind input = record {
  kind = input.kind;
  transaction_id = input.transaction_id;
  reported_status = none;
  provider_reference = input.provider_reference;
  detail = some input.detail;
}

-- `reportDiscrepancy`; the kind late_acknowledgment is excluded by its type.
unfoldable pub report_discrepancy : ReportDiscrepancyInput → Call ReconciliationException
report_discrepancy input env d =
    let missing = kind_eq input.kind missing_locally in
    if missing && is_some input.transaction_id
    then (err bad_request, d)
    else if not missing && not (is_some input.transaction_id)
    then (err bad_request, d)
    else autocommit (exception_create (late_kind input)) env d

pub record ReconciliationExceptionResponse : Type 0 where
  pub id : ℕ
  pub kind : ReconciliationExceptionKind
  pub transaction_reference : Option String
  pub reported_status : Option TransactionStatus
  pub provider_reference : Option String
  pub detail : Option String
  pub detected_at : ℕ
  pub resolved_at : Option ℕ
  pub resolved_by : Option String
  pub resolved_by_label : Option String
  pub resolution : Option String

abbrev reference_of : Database → Option ℕ → Option String
reference_of d none = none
reference_of d (some i) =
    map_option (λ (t : Transaction). t.reference) (find (by_id i) d.transactions)

-- resolverLabels: `parse_uuid` is UUID_PATTERN with the value of the text that it matches.
unfoldable pub label_of : (String → Option ℕ) → Database → String → Option String
label_of parse_uuid d who = elim (parse_uuid who) [
  | none ↦ none
  | some i ↦ map_option (λ (k : ApiKey). k.label) (find (λ (k : ApiKey). k.id == i) d.api_keys)
]

abbrev resolver_label : (String → Option ℕ) → Database → Option String → Option String
resolver_label parse_uuid d none = none
resolver_label parse_uuid d (some who) = label_of parse_uuid d who

-- toReconciliationExceptionResponse, with the labels of resolverLabels.
unfoldable pub to_response :
    (String → Option ℕ) → Database → ReconciliationException → ReconciliationExceptionResponse
to_response parse_uuid d e = record {
  id = e.id;
  kind = e.kind;
  transaction_reference = reference_of d e.transaction_id;
  reported_status = e.reported_status;
  provider_reference = e.provider_reference;
  detail = e.detail;
  detected_at = e.detected_at;
  resolved_at = e.resolved_at;
  resolved_by = e.resolved_by;
  resolved_by_label = resolver_label parse_uuid d e.resolved_by;
  resolution = e.resolution;
}
