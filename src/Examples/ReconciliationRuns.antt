-- ===== src/Examples/ReconciliationRuns.antt =====
-- The resolution of an exception at a concrete input.
use ledger_ops_api.Database.Tables.{ReconciliationException, Database, missing_locally}
use ledger_ops_api.Reconciliation.{
  resolve, resolved_row, find_by_id_or_throw, resolve_row, exception_update,
  fn_reconciliation_exceptions_before_update, same_exception, resolution_checks, replace_exception,
}
use ledger_ops_api.Examples.Data.{demo_database, demo_env}
use ledger_ops_api.Common.{none, [], ◌≢◌, some, ◌∷◌, ok, str_eq, ◌≡◌, refl}
use ledger_ops_api.Database.Commit.{autocommit}
use ledger_ops_api.Database.Sql.{◌>>=◌}
use ledger_ops_api.Reconciliation.Resolution.{resolve-resolve}
use ledger_ops_api.Database.Ledger.{commit_checks, check_entries}

abbrev missing : ReconciliationException
missing = record {
  id = 31;
  kind = missing_locally;
  transaction_id = none;
  reported_status = none;
  provider_reference = none;
  detail = some "écart";
  detected_at = 0;
  resolved_at = none;
  resolved_by = none;
  resolution = none;
}

abbrev open_exception : Database
open_exception = record (demo_database []) { exceptions = missing ∷ [] }

abbrev closed : ReconciliationException
closed = resolved_row 1000 "vu" "analyst" missing

resolved_run :
    resolve 31 "vu" "analyst" demo_env open_exception
    ≡ (ok closed, (resolve 31 "vu" "analyst" demo_env open_exception).1)
unfolding resolve find_by_id_or_throw autocommit ◌>>=◌ resolve_row resolved_row exception_update
    fn_reconciliation_exceptions_before_update same_exception resolution_checks replace_exception
    str_eq commit_checks check_entries
resolved_run = refl

resolve-resolve_example :
    resolve 31 "encore" "admin" demo_env (resolve 31 "vu" "analyst" demo_env open_exception).1
    ≢ (ok closed, open_exception)
resolve-resolve_example =
    resolve-resolve 31 "vu" "analyst" demo_env open_exception resolved_run "encore" "admin" demo_env
      closed open_exception
