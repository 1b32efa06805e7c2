-- ===== src/Database/Others/Inserts.antt =====
-- What the inserts into the other tables write.
use ledger_ops_api.Common.{◌≡◌, ok, none, ◌∷◌, arith}
use ledger_ops_api.Database.Sql.{Session, ◌>>=◌, Table}
use ledger_ops_api.Database.Others.{exception_create, ExceptionData}
use ledger_ops_api.Database.Tables.{ReconciliationException, Database}

-- The row of a new exception.
abbrev pub new_exception : Session → ExceptionData → ReconciliationException
new_exception s x = record {
  id = s.env.uuid Table.reconciliation_exceptions;
  kind = x.kind;
  transaction_id = x.transaction_id;
  reported_status = x.reported_status;
  provider_reference = x.provider_reference;
  detail = x.detail;
  detected_at = s.env.current_timestamp;
  resolved_at = none;
  resolved_by = none;
  resolution = none;
}

pub exception_create-writes :
    (x : ExceptionData) (s : Session) (d : Database) {e : ReconciliationException} {d' : Database}
    → exception_create x s d ≡ ok (e, d')
    → (e ≡ new_exception s x) × (d' ≡ record d { exceptions = new_exception s x ∷ d.exceptions })
unfolding exception_create ◌>>=◌
exception_create-writes x s d {e} {d'} h = ground arith
