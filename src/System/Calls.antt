-- ===== src/System/Calls.antt =====
-- The calls of the services keep a property of the database that their writes keep.
use ledger_ops_api.Common.{
  Bool, Failure, String, Option, ℕ, none, find, is_some, some, Result, if◌then◌else◌, true, err,
  false, ◌&&◌, bad_request, not, refl,
}
use ledger_ops_api.Database.Tables.{
  Database, ApiKey, AccountType, ReconciliationException, kind_eq, missing_locally,
}
use ledger_ops_api.Database.Sql.{Sql, ◌>>=◌, pure, guard, write}
use ledger_ops_api.System.Preservation.{
  Preserves, >>=-Preserves, pure-Preserves, write-Preserves, guard-Preserves, session-Preserves,
  CallPreserves, sql_transaction-Preserves, ok-Preserves, >>>-CallPreserves, or_throw-Preserves,
  select-Preserves,
}
use ledger_ops_api.Database.Others.{
  merchant_create, ledger_account_create, exception_create, ExceptionData,
}
use ledger_ops_api.Auth.Keys.{
  key_insert, key_update, fn_api_keys_before_update, revoke, revoke_found, key_by_id, revoked,
  CreateApiKeyDto, role_matches,
}
use ledger_ops_api.Reconciliation.{
  exception_update, fn_reconciliation_exceptions_before_update, resolve_row, resolve,
  report_discrepancy, find_by_id_or_throw, ReportDiscrepancyInput, late_kind,
}
use ledger_ops_api.Database.Commit.{autocommit}
use ledger_ops_api.Merchants.{CreateMerchantDto}
use ledger_ops_api.System.Kept.{Kept, SameLedger}
use ledger_ops_api.System.Statements.{exception_create-SameLedger}

module _ (P : Database → Type 0) (kept : Kept P) where
  -- A body is preserved part by part.
  pub step :
      {A B : Type 0} (m : Sql A) (f : A → Sql B)
      → Preserves P m
      → ((a : A) → Preserves P (f a))
      → Preserves P (m >>= f)
  step m f = >>=-Preserves P m f

  test : (b : Bool) (e : Failure) → Preserves P (guard b e)
  test = guard-Preserves P

  result : {A : Type 0} (a : A) → Preserves P (pure a)
  result = pure-Preserves P

  -- A write to another table than those of the transactions and the ledger.
  other : (f : Database → Database) → ((d : Database) → SameLedger d (f d)) → Preserves P (write f)
  other f h = write-Preserves P f (λ d p. kept.others d (f d) (h d) p)

  exception_create-Preserves : (x : ExceptionData) → Preserves P (exception_create x)
  exception_create-Preserves x =
      ok-Preserves P (exception_create x)
        λ s d e d' h p. kept.others d d' (exception_create-SameLedger x s d h) p

  merchant_create-Preserves : (code name : String) → Preserves P (merchant_create code name)
  unfolding merchant_create
  merchant_create-Preserves code name = step _ _ (session-Preserves P) λ s.
      step _ _ (select-Preserves P (λ d. d)) λ d. step _ _ (test _ _) λ _. step _ _ (test _ _) λ _.
        step _ _
          (other _
            (λ d. record { transactions = refl; history = refl; entries = refl; postings = refl }))
          λ _. result _

  account_create-Preserves :
      (code name : String) (type : AccountType) (currency : String)
      → Preserves P (ledger_account_create code name type currency)
  unfolding ledger_account_create
  account_create-Preserves code name type currency = step _ _ (session-Preserves P) λ s.
      step _ _ (select-Preserves P (λ d. d)) λ d. step _ _ (test _ _) λ _. step _ _ (test _ _) λ _.
        step _ _ (test _ _) λ _.
          step _ _
            (other _ (λ d. record {
              transactions = refl;
              history = refl;
              entries = refl;
              postings = refl;
            }))
            λ _. result _

  key_insert-Preserves : (k : ApiKey) → Preserves P (key_insert k)
  unfolding key_insert
  key_insert-Preserves k = step _ _ (test _ _) λ _. step _ _ (select-Preserves P (λ d. d)) λ d.
      step _ _ (test _ _) λ _. step _ _ (test _ _) λ _.
        step _ _
          (other _
            (λ d. record { transactions = refl; history = refl; entries = refl; postings = refl }))
          λ _. result k

  key_update-Preserves : (old new : ApiKey) → Preserves P (key_update old new)
  unfolding key_update fn_api_keys_before_update
  key_update-Preserves old new = step _ _ (step _ _ (test _ _) λ _. test _ _) λ _.
      step _ _ (test _ _) λ _.
        other _
          (λ d. record { transactions = refl; history = refl; entries = refl; postings = refl })

  exception_update-Preserves :
      (old new : ReconciliationException) → Preserves P (exception_update old new)
  unfolding exception_update fn_reconciliation_exceptions_before_update
  exception_update-Preserves old new = step _ _ (step _ _ (test _ _) λ _. test _ _) λ _.
      step _ _ (test _ _) λ _.
        step _ _
          (other _
            (λ d. record { transactions = refl; history = refl; entries = refl; postings = refl }))
          λ _. result new

  pub autocommit-Preserves :
      {A : Type 0} (body : Sql A) → Preserves P body → CallPreserves P (autocommit body)
  unfolding autocommit
  autocommit-Preserves body h = sql_transaction-Preserves P none body h

  pub if-Keeps :
      {A : Type 0} (b : Bool) (x y : Result A × Database) → P x.1 → P y.1 → P (if b then x else y).1
  if-Keeps true x y g h = g
  if-Keeps false x y g h = h

  -- The calls, each from its own definition.
  pub merchants_create-Keeps :
      (dto : CreateMerchantDto) → CallPreserves P (ledger_ops_api.Merchants.create dto)
  unfolding ledger_ops_api.Merchants.create
  merchants_create-Keeps dto = sql_transaction-Preserves P none _ (
      step _ _ (merchant_create-Preserves _ _)
        λ m. step _ _ (account_create-Preserves _ _ _ _) λ a. result m)

  pub keys_create-Keeps :
      (hash_api_key : String → String) (dto : CreateApiKeyDto) (raw_key : String)
      → CallPreserves P (ledger_ops_api.Auth.Keys.create hash_api_key dto raw_key)
  unfolding ledger_ops_api.Auth.Keys.create CallPreserves
  keys_create-Keeps hash_api_key dto raw_key env d g =
      if-Keeps (role_matches hash_api_key dto) _ _
        (autocommit-Preserves _
          (step _ _ (session-Preserves P) λ s. step _ _ (key_insert-Preserves _) λ k. result _) env
          d g)
        g

  revoke_found-Keeps : (o : Option ApiKey) → CallPreserves P (revoke_found o)
  unfolding CallPreserves
  revoke_found-Keeps none env d g = g
  revoke_found-Keeps (some k) env d g =
      autocommit-Preserves _ (key_update-Preserves k (revoked env.clock_now k)) env d g

  pub revoke-Keeps : (i : ℕ) → CallPreserves P (revoke i)
  unfolding revoke CallPreserves
  revoke-Keeps i env d g = revoke_found-Keeps (find (key_by_id i) d.api_keys) env d g

  resolve_row-Keeps :
      (resolution who : String) (e : ReconciliationException)
      → CallPreserves P (resolve_row resolution who e)
  unfolding resolve_row CallPreserves
  resolve_row-Keeps resolution who e env d g =
      if-Keeps (is_some e.resolved_at) _ _ g
        (autocommit-Preserves _ (exception_update-Preserves e _) env d g)

  pub resolve-Keeps : (i : ℕ) (resolution who : String) → CallPreserves P (resolve i resolution who)
  unfolding resolve find_by_id_or_throw
  resolve-Keeps i resolution who =
      >>>-CallPreserves P _ _
        (autocommit-Preserves _
          (step _ _ (select-Preserves P (λ d. d.exceptions)) λ es. or_throw-Preserves P _ _))
        (resolve_row-Keeps resolution who)

  pub report_discrepancy-Keeps :
      (input : ReportDiscrepancyInput) → CallPreserves P (report_discrepancy input)
  unfolding report_discrepancy CallPreserves
  report_discrepancy-Keeps input env d g =
      let missing = kind_eq input.kind missing_locally in
      let reported = exception_create (late_kind input) in
      if-Keeps {A = ReconciliationException} (missing && is_some input.transaction_id)
        (err bad_request, d) _ g
        (if-Keeps (not missing && not (is_some input.transaction_id)) (err bad_request, d)
          (autocommit reported env d) g
          (autocommit-Preserves reported (exception_create-Preserves (late_kind input)) env d g))
