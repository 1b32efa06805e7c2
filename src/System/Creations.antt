-- ===== src/System/Creations.antt =====
-- The creations of payments and refunds and the simulator keep a property of the database that their writes keep.
use ledger_ops_api.Common.{
  Failure, String, Option, ℕ, none, find, some, Result, str_eq, ◌==◌, ok, err,
}
use ledger_ops_api.Database.Tables.{Database, Transaction, TransactionStatus, status_eq}
use ledger_ops_api.Database.Sql.{Env}
use ledger_ops_api.System.Preservation.{
  CallPreserves, sql_transaction-Preserves, >>>-CallPreserves, or_throw-Preserves, select-Preserves,
}
use ledger_ops_api.Database.Rows.{TransactionData, transaction_create}
use ledger_ops_api.Database.Commit.{with_actor}
use ledger_ops_api.Transactions.Service.{find_by_reference_or_throw, find_by_reference}
use ledger_ops_api.Transactions.Idempotency.{
  recover_with, create_transaction_idempotently, answer, by_key,
}
use ledger_ops_api.Payments.Service.{Platform, refund_of, create_refund}
use ledger_ops_api.Simulator.{transition_if_still_at, process, swallow, act_on, Job, simulated}
use ledger_ops_api.Payments.Util.{CreatePaymentDto, CreateRefundDto}
use ledger_ops_api.System.Kept.{Kept}
use ledger_ops_api.System.Calls.{if-Keeps, autocommit-Preserves, step}

module _ (P : Database → Type 0) (kept : Kept P) where
  -- What other requests do between two statements of a call preserves the invariant too.
  abbrev pub Undisturbed : (Database → Database) → Type 0
  Undisturbed f = (x : Database) → P x → P (f x)

  recover_with-Keeps :
      (o : Option Transaction) (fingerprint : String) (e : Failure) (d : Database)
      → P d
      → P (recover_with o fingerprint e d).1
  recover_with-Keeps none fingerprint e d g = g
  recover_with-Keeps (some t) fingerprint e d g =
      if-Keeps P kept (str_eq t.request_fingerprint fingerprint) _ _ g g

  answer-Keeps :
      (meanwhile : Database → Database) (key fingerprint : String) (env : Env)
      (r : Result Transaction × Database)
      → Undisturbed meanwhile
      → P r.1
      → P (answer meanwhile key fingerprint env r).1
  answer-Keeps meanwhile key fingerprint env (ok t, d) m g = g
  answer-Keeps meanwhile key fingerprint env (err e, d) m g =
      recover_with-Keeps (find (by_key key) (meanwhile d).transactions) fingerprint e (meanwhile d)
        (m d g)

  idempotent-Keeps :
      (meanwhile : Database → Database) (actor_id key fingerprint : String) (x : TransactionData)
      → Undisturbed meanwhile
      → CallPreserves P (
          create_transaction_idempotently meanwhile actor_id key fingerprint (transaction_create x))
  unfolding create_transaction_idempotently with_actor CallPreserves
  idempotent-Keeps meanwhile actor_id key fingerprint x m env d g =
      answer-Keeps meanwhile key fingerprint env _ m
        (sql_transaction-Preserves P _ _ (kept.creations x) env d g)

  pub create-Keeps :
      (p : Platform) (dto : CreatePaymentDto) (key : String) (m : ℕ)
      → Undisturbed p.meanwhile
      → CallPreserves P (ledger_ops_api.Payments.Service.create p dto key m)
  unfolding ledger_ops_api.Payments.Service.create CallPreserves
  create-Keeps p dto key m quiet env d g = idempotent-Keeps p.meanwhile _ key _ _ quiet env d g

  refund_of-Keeps :
      (p : Platform) (reference : String) (dto : CreateRefundDto) (key : String) (m : ℕ)
      (parent : Transaction)
      → Undisturbed p.meanwhile
      → Undisturbed p.before_insert
      → CallPreserves P (refund_of p reference dto key m parent)
  unfolding refund_of CallPreserves
  refund_of-Keeps p reference dto key m parent quiet before env d g =
      if-Keeps P kept (parent.merchant_id == m) _ _
        (idempotent-Keeps p.meanwhile _ key _ _ quiet env (p.before_insert d) (before d g)) g

  find-Keeps : (reference : String) → CallPreserves P (find_by_reference_or_throw reference)
  unfolding find_by_reference_or_throw find_by_reference
  find-Keeps reference =
      autocommit-Preserves P kept _
        (step P kept _ _ (select-Preserves P (λ d. d.transactions)) λ ts. or_throw-Preserves P _ _)

  pub create_refund-Keeps :
      (p : Platform) (reference : String) (dto : CreateRefundDto) (key : String) (m : ℕ)
      → Undisturbed p.meanwhile
      → Undisturbed p.before_insert
      → CallPreserves P (create_refund p reference dto key m)
  unfolding create_refund
  create_refund-Keeps p reference dto key m quiet before =
      >>>-CallPreserves P _ _ (find-Keeps reference)
        (λ parent. refund_of-Keeps p reference dto key m parent quiet before)

  swallow-Keeps : {A : Type 0} (r : Result A × Database) → P r.1 → P (swallow r).1
  swallow-Keeps (ok a, d) g = g
  swallow-Keeps (err e, d) g = g

  transition_if_still_at-Keeps :
      (between : Database → Database) (reference : String) (from to : TransactionStatus)
      → Undisturbed between
      → CallPreserves P (transition_if_still_at between reference from to)
  unfolding transition_if_still_at act_on CallPreserves
  transition_if_still_at-Keeps between reference from to quiet =
      >>>-CallPreserves P _ (act_on between from to) (find-Keeps reference) λ current env d g.
        if-Keeps P kept (status_eq current.status from) _ _
          (swallow-Keeps _ (
            kept.transitions current.reference (simulated to) current.version env (between d)
              (quiet d g)))
          g

  pub process-Keeps :
      (between : Database → Database) (failure_rate : Option ℕ) (draw : ℕ) (job : Job)
      (reference : String)
      → Undisturbed between
      → CallPreserves P (process between failure_rate draw job reference)
  unfolding process CallPreserves
  process-Keeps between failure_rate draw ledger_ops_api.Simulator.acknowledge reference quiet env d
        g =
      transition_if_still_at-Keeps between reference _ _ quiet env d g
  process-Keeps between failure_rate draw ledger_ops_api.Simulator.settle reference quiet env d g =
      transition_if_still_at-Keeps between reference _ _ quiet env d g
  process-Keeps between failure_rate draw ledger_ops_api.Simulator.other reference quiet env d g = g
