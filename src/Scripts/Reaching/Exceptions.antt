-- ===== src/Scripts/Reaching/Exceptions.antt =====
-- The exceptions of seed-demo.ts, as calls of the services.
use ledger_ops_api.System.Steps.{transitioned, discrepancy_reported, exception_resolved}
use ledger_ops_api.Scripts.{World}
use ledger_ops_api.Scripts.Reaching.{
  Served, Reaches, step, attempt-Reaches, reading, call-Reaches, or_fail-Reaches,
  find_transaction-Reaches, result, one, fail-Reaches,
}
use ledger_ops_api.Common.{
  ◌∷◌, Option, Failure, List, ℕ, String, some, reconciliation_required, none, [],
}
use ledger_ops_api.Scripts.Exceptions.{
  report_discrepancy_if_missing, acknowledge_late, seed_late_acknowledgment, resolve_first,
  seed_discrepancies, seed_reconciliation_exceptions, report_unless, expect_refusal,
  acknowledge_unless, resolve_unless, discrepancy_targets, missing_in_statement_input,
  resolution_text, missing_locally_input, amount_mismatch_input,
}
use ledger_ops_api.Database.Tables.{ReconciliationException, Transaction}
use ledger_ops_api.Reconciliation.{ReportDiscrepancyInput}
use ledger_ops_api.Scripts.Payments.{SeededTransaction}

module _ (w : World) (served : Served w) where
  report_unless-Reaches :
      (o : Option ReconciliationException) (input : ReportDiscrepancyInput)
      → Reaches w served (report_unless o input)
  report_unless-Reaches (some e) input = result w served tt
  report_unless-Reaches none input =
      step w served _ _
        (call-Reaches w served _ λ n d. one w served (discrepancy_reported input (w.env n)))
        λ e. result w served tt

  report_if_missing-Reaches :
      (input : ReportDiscrepancyInput) → Reaches w served (report_discrepancy_if_missing input)
  unfolding report_discrepancy_if_missing
  report_if_missing-Reaches input =
      step w served _ _ (reading w served _) λ o. report_unless-Reaches o input

  expect_refusal-Reaches : (e : Failure) → Reaches w served (expect_refusal e)
  expect_refusal-Reaches (reconciliation_required i) = result w served tt
  expect_refusal-Reaches e = fail-Reaches w served _ e

  acknowledge_late-Reaches : (t : Transaction) → Reaches w served (acknowledge_late t)
  unfolding acknowledge_late
  acknowledge_late-Reaches t =
      attempt-Reaches w served _ _
        (step w served _ _
          (call-Reaches w served _
            λ n d. one w served (transitioned t.reference _ t.version (w.env n)))
          λ moved. fail-Reaches w served _ _)
        expect_refusal-Reaches

  acknowledge_unless-Reaches :
      (o : Option ReconciliationException) (t : Transaction)
      → Reaches w served (acknowledge_unless o t)
  acknowledge_unless-Reaches (some e) t = result w served tt
  acknowledge_unless-Reaches none t = acknowledge_late-Reaches t

  late_acknowledgment-Reaches :
      (xs : List SeededTransaction) → Reaches w served (seed_late_acknowledgment xs)
  unfolding seed_late_acknowledgment
  late_acknowledgment-Reaches xs = step w served _ _ (or_fail-Reaches w served _ _) λ target.
      step w served _ _ (find_transaction-Reaches w served _)
        λ t. step w served _ _ (reading w served _) λ o. acknowledge_unless-Reaches o t

  resolve_unless-Reaches :
      (at : Option ℕ) (e : ReconciliationException) (who : String)
      → Reaches w served (resolve_unless at e who)
  resolve_unless-Reaches (some at) e who = result w served tt
  resolve_unless-Reaches none e who =
      step w served _ _
        (call-Reaches w served _
          λ n d. one w served (exception_resolved e.id resolution_text who (w.env n)))
        λ x. result w served tt

  resolve_first-Reaches : (i : ℕ) (who : String) → Reaches w served (resolve_first i who)
  unfolding resolve_first
  resolve_first-Reaches i who = step w served _ _ (reading w served _) λ found.
      step w served _ _ (or_fail-Reaches w served _ _)
        λ e. resolve_unless-Reaches e.resolved_at e who

  discrepancies-Reaches :
      (fourth fifth : SeededTransaction) (who : String)
      → Reaches w served (seed_discrepancies fourth fifth who)
  unfolding seed_discrepancies
  discrepancies-Reaches fourth fifth who =
      step w served _ _ (find_transaction-Reaches w served fourth.reference) λ t.
        step w served _ _ (report_if_missing-Reaches (missing_in_statement_input t.id)) λ _.
          step w served _ _ (resolve_first-Reaches t.id who) λ _.
            step w served _ _ (report_if_missing-Reaches missing_locally_input) λ _.
              step w served _ _ (find_transaction-Reaches w served fifth.reference)
                λ u. report_if_missing-Reaches (amount_mismatch_input u)

  targets-Reaches :
      (xs : List SeededTransaction) (who : String) → Reaches w served (discrepancy_targets xs who)
  targets-Reaches (a ∷ b ∷ c ∷ fourth ∷ fifth ∷ rest) who = discrepancies-Reaches fourth fifth who
  targets-Reaches [] who = fail-Reaches w served _ _
  targets-Reaches (a ∷ []) who = fail-Reaches w served _ _
  targets-Reaches (a ∷ b ∷ []) who = fail-Reaches w served _ _
  targets-Reaches (a ∷ b ∷ c ∷ []) who = fail-Reaches w served _ _
  targets-Reaches (a ∷ b ∷ c ∷ e ∷ []) who = fail-Reaches w served _ _

  pub seed_reconciliation_exceptions-Reaches :
      (xs : List SeededTransaction) (who : String)
      → Reaches w served (seed_reconciliation_exceptions xs who)
  unfolding seed_reconciliation_exceptions
  seed_reconciliation_exceptions-Reaches xs who =
      step w served _ _ (late_acknowledgment-Reaches xs) λ _. targets-Reaches xs who
