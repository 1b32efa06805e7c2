-- ===== src/System/Steps.antt =====
-- The runs of the service: calls one after another, in any order and with any input.
use ledger_ops_api.Database.Tables.{Database}
use ledger_ops_api.Payments.Service.{Platform, create_refund}
use ledger_ops_api.Payments.Util.{CreatePaymentDto, CreateRefundDto}
use ledger_ops_api.Common.{String, ℕ, Option, Bool}
use ledger_ops_api.Database.Sql.{Env}
use ledger_ops_api.Transactions.Service.{TransitionStatusDto, transition}
use ledger_ops_api.Simulator.{Job, process}
use ledger_ops_api.Transactions.Expiration.{expire_one_batch}
use ledger_ops_api.Merchants.{CreateMerchantDto}
use ledger_ops_api.Auth.Keys.{CreateApiKeyDto, revoke}
use ledger_ops_api.Reconciliation.{ReportDiscrepancyInput, report_discrepancy, resolve}

-- One call, and the database that it leaves, committed or not. What other requests do between two statements of the call is a
-- run itself. Random keys, hashes and references come from outside: any value is a step.

mutual
  pub data Step : Database → Database → Type 0 where
    payment_created :
        {s : Database} (p : Platform) (dto : CreatePaymentDto) (key : String) (merchant_id : ℕ)
        (env : Env)
        → ((x : Database) → Reach x (p.meanwhile x))
        → Step s (ledger_ops_api.Payments.Service.create p dto key merchant_id env s).1
    refund_created :
        {s : Database} (p : Platform) (parent_reference : String) (dto : CreateRefundDto)
        (key : String) (merchant_id : ℕ) (env : Env)
        → ((x : Database) → Reach x (p.meanwhile x))
        → ((x : Database) → Reach x (p.before_insert x))
        → Step s (create_refund p parent_reference dto key merchant_id env s).1
    transitioned :
        {s : Database} (reference : String) (dto : TransitionStatusDto) (version : ℕ) (env : Env)
        → Step s (transition reference dto version env s).1
    simulated_job :
        {s : Database} (between : Database → Database) (failure_rate : Option ℕ) (draw : ℕ)
        (job : Job) (reference : String) (env : Env)
        → ((x : Database) → Reach x (between x))
        → Step s (process between failure_rate draw job reference env s).1
    batch_expired :
        {s : Database} (locked : ℕ → Bool) (env : Env) → Step s (expire_one_batch locked env s).1
    merchant_created :
        {s : Database} (dto : CreateMerchantDto) (env : Env)
        → Step s (ledger_ops_api.Merchants.create dto env s).1
    key_created :
        {s : Database} (hash_api_key : String → String) (dto : CreateApiKeyDto) (raw_key : String)
        (env : Env)
        → Step s (ledger_ops_api.Auth.Keys.create hash_api_key dto raw_key env s).1
    key_revoked : {s : Database} (id : ℕ) (env : Env) → Step s (revoke id env s).1
    discrepancy_reported :
        {s : Database} (input : ReportDiscrepancyInput) (env : Env)
        → Step s (report_discrepancy input env s).1
    exception_resolved :
        {s : Database} (id : ℕ) (resolution resolved_by : String) (env : Env)
        → Step s (resolve id resolution resolved_by env s).1

  pub data Reach : Database → Database → Type 0 where
    here : {s : Database} → Reach s s
    next : {s t u : Database} → Reach s t → Step t u → Reach s u

pub Reach-trans : {s t u : Database} → Reach s t → Reach t u → Reach s u
Reach-trans r here = r
Reach-trans r (next q st) = next (Reach-trans r q) st
