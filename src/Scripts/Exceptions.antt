-- ===== src/Scripts/Exceptions.antt =====
-- The exceptions of seed-demo.ts, and its last check of the ledger.
use ledger_ops_api.Database.Tables.{
  succeeded, expired, ReconciliationExceptionKind, Transaction, missing_locally,
  missing_in_statement, amount_mismatch, ReconciliationException, kind_eq, status_eq,
  late_acknowledgment,
}
use ledger_ops_api.Reconciliation.{ReportDiscrepancyInput, report_discrepancy, resolve}
use ledger_ops_api.Common.{
  ◌∷◌, Failure, List, String, ℕ, Option, none, some, reconciliation_required, Bool, find, ◌&&◌,
  record_not_found, ◌+◌, option_eq, plain_error, ◌==◌,
}
use ledger_ops_api.Scripts.Payments.{SeededTransaction}
use ledger_ops_api.Scripts.{Script, attempt, ◌>>=◌, look, done, call, or_fail, fail, ◌>>◌}
use ledger_ops_api.Transactions.Booking.Accounts.{◌⧺◌}
use ledger_ops_api.Scripts.Refunds.{read_transaction}
use ledger_ops_api.Transactions.Service.{transition}
use ledger_ops_api.Scripts.Payments.Texts.{decimal}

abbrev pub same_target : ReconciliationExceptionKind → Option ℕ → ReconciliationException → Bool
same_target kind transaction_id e =
    kind_eq e.kind kind && option_eq ◌==◌ e.transaction_id transaction_id

abbrev pub report_unless :
    Option ReconciliationException → ReportDiscrepancyInput → Script (Unit {0})
report_unless (some e) input = done tt
report_unless none input = do e ← call (λ w n. report_discrepancy input); done tt

unfoldable pub report_discrepancy_if_missing : ReportDiscrepancyInput → Script (Unit {0})
report_discrepancy_if_missing input = do
  existing ← look (λ w d. find (same_target input.kind input.transaction_id) d.exceptions)
  report_unless existing input

-- The refusal of the late acknowledgment is what the script expects; a transition that returns is an error of the script.
abbrev pub expect_refusal : Failure → Script (Unit {0})
expect_refusal (reconciliation_required i) = done tt
expect_refusal e = fail e

unfoldable pub acknowledge_late : Transaction → Script (Unit {0})
acknowledge_late t =
    attempt
      (call (λ w n.
          transition t.reference
            (record {
              status = succeeded;
              reason = none;
              provider_reference = some "SEED-LATE-ACK-0001";
            })
            t.version)
        >>= λ moved. fail plain_error)
      expect_refusal

abbrev pub acknowledge_unless : Option ReconciliationException → Transaction → Script (Unit {0})
acknowledge_unless (some e) t = done tt
acknowledge_unless none t = acknowledge_late t

unfoldable pub seed_late_acknowledgment : List SeededTransaction → Script (Unit {0})
unfolding acknowledge_late
seed_late_acknowledgment seeded = do
  target ← or_fail (find (λ (s : SeededTransaction). status_eq s.status expired) seeded) plain_error
  t ← read_transaction target.reference
  reported ← look (λ w d. find (same_target late_acknowledgment (some t.id)) d.exceptions)
  acknowledge_unless reported t

abbrev pub resolution_text : String
resolution_text =
    "Relevé complémentaire reçu d'Orange Money : la transaction y figure avec un jour de décalage de valeur, montant identique. Pointage manuel effectué, aucune écriture corrective nécessaire."

abbrev pub resolve_unless : Option ℕ → ReconciliationException → String → Script (Unit {0})
resolve_unless (some at) e who = done tt
resolve_unless none e who = do x ← call (λ w n. resolve e.id resolution_text who); done tt

-- Resolved once: `who` is the text of the id of the analyst's key.
unfoldable pub resolve_first : ℕ → String → Script (Unit {0})
resolve_first transaction_id who = do
  found ← look (λ w d. find (same_target missing_in_statement (some transaction_id)) d.exceptions)
  e ← or_fail found record_not_found
  resolve_unless e.resolved_at e who

abbrev pub missing_locally_input : ReportDiscrepancyInput
missing_locally_input = record {
  kind = missing_locally;
  transaction_id = none;
  provider_reference = some "OM-FANTOME-0001";
  detail =
      "Le relevé Orange Money mentionne cette référence opérateur ; aucune transaction correspondante en base.";
}

abbrev pub missing_in_statement_input : ℕ → ReportDiscrepancyInput
missing_in_statement_input i = record {
  kind = missing_in_statement;
  transaction_id = some i;
  provider_reference = none;
  detail = "Transaction présente dans notre grand livre, absente du relevé Orange Money du jour.";
}

abbrev pub amount_mismatch_input : Transaction → ReportDiscrepancyInput
amount_mismatch_input t = record {
  kind = amount_mismatch;
  transaction_id = some t.id;
  provider_reference = none;
  detail =
      "Relevé opérateur : "
      ⧺ decimal (t.amount + 500)
      ⧺ " XOF — grand livre : "
      ⧺ decimal t.amount
      ⧺ " XOF.";
}

-- The discrepancies with the statement, on the fourth and the fifth payment.
unfoldable pub seed_discrepancies :
    SeededTransaction → SeededTransaction → String → Script (Unit {0})
unfolding report_discrepancy_if_missing resolve_first
seed_discrepancies fourth fifth who = do
  t ← read_transaction fourth.reference
  report_discrepancy_if_missing (missing_in_statement_input t.id)
  resolve_first t.id who
  report_discrepancy_if_missing missing_locally_input
  u ← read_transaction fifth.reference
  report_discrepancy_if_missing (amount_mismatch_input u)

abbrev pub discrepancy_targets : List SeededTransaction → String → Script (Unit {0})
discrepancy_targets (a ∷ b ∷ c ∷ fourth ∷ fifth ∷ rest) who = seed_discrepancies fourth fifth who
discrepancy_targets too_few who = fail plain_error

unfoldable pub seed_reconciliation_exceptions : List SeededTransaction → String → Script (Unit {0})
unfolding seed_late_acknowledgment seed_discrepancies
seed_reconciliation_exceptions seeded who =
    seed_late_acknowledgment seeded >> discrepancy_targets seeded who
