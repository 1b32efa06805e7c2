-- ===== src/Scripts/Reaching/Payments.antt =====
-- The payments, refunds and the dispute of seed-demo.ts, as calls of the services.
use ledger_ops_api.System.Steps.{payment_created, refund_created}
use ledger_ops_api.Scripts.{World}
use ledger_ops_api.Scripts.Reaching.{
  Served, Reaches, call-Reaches, one, or_fail-Reaches, find_transaction-Reaches, fail-Reaches,
  if-Reaches, transition-Reaches, result, step,
}
use ledger_ops_api.Database.Tables.{
  Merchant, TransactionStatus, Transaction, initiated, disputed, reversed,
}
use ledger_ops_api.Common.{List, String, ◌∷◌, ℕ, []}
use ledger_ops_api.Scripts.Payments.{
  settle_payment, seed_one_payment, seed_payments, TransactionScenario, SeededTransaction,
  ScenarioOutcome, push,
}
use ledger_ops_api.Scripts.Refunds.{
  move_from, seed_refund, seed_lost_dispute, seed_refunds_and_dispute, drive_to_succeeded,
}

module _ (w : World) (served : Served w) where
  settle_payment-Reaches :
      (scenario : TransactionScenario) (o : ScenarioOutcome) (t : Transaction)
      → Reaches w served (settle_payment scenario o t)
  unfolding settle_payment
  settle_payment-Reaches scenario ScenarioOutcome.pending t = result w served t
  settle_payment-Reaches scenario ScenarioOutcome.expired t = result w served t
  settle_payment-Reaches scenario ScenarioOutcome.succeeded t = transition-Reaches w served t _
  settle_payment-Reaches scenario ScenarioOutcome.failed t = transition-Reaches w served t _

  seed_one_payment-Reaches :
      (m : Merchant) (scenario : TransactionScenario)
      → Reaches w served (seed_one_payment m scenario)
  unfolding seed_one_payment
  seed_one_payment-Reaches m scenario =
      step w served _ _
        (call-Reaches w served _
          λ n d. one w served (payment_created (w.platform n) _ _ m.id (w.env n) (served n).0))
        λ created. if-Reaches w served created.replayed _ _ (result w served _) (
          step w served _ _ (transition-Reaches w served created.transaction push) λ current.
            step w served _ _ (settle_payment-Reaches scenario scenario.outcome current)
              λ settled. result w served _)

  pub seed_payments-Reaches :
      (ms : List Merchant) (xs : List TransactionScenario) → Reaches w served (seed_payments ms xs)
  unfolding seed_payments
  seed_payments-Reaches ms [] = result w served []
  seed_payments-Reaches ms (x ∷ xs) = step w served _ _ (or_fail-Reaches w served _ _) λ m.
      step w served _ _ (seed_one_payment-Reaches m x) λ first.
        step w served _ _ (seed_payments-Reaches ms xs) λ rest. result w served (first ∷ rest)

  move_from-Reaches :
      (from to : TransactionStatus) (reason : String) (t : Transaction)
      → Reaches w served (move_from from to reason t)
  unfolding move_from
  move_from-Reaches from to reason t =
      if-Reaches w served _ _ _ (transition-Reaches w served t _) (result w served t)

  seed_refund-Reaches :
      (parent key reason : String) (amount_of : ℕ → ℕ)
      → Reaches w served (seed_refund parent key reason amount_of)
  unfolding seed_refund drive_to_succeeded
  seed_refund-Reaches parent key reason amount_of =
      step w served _ _ (find_transaction-Reaches w served parent) λ p.
        step w served _ _
          (call-Reaches w served _ λ n d. one w served (
            refund_created (w.platform n) parent _ key p.merchant_id (w.env n) (served n).0
              (served n).1))
          λ created.
            step w served _ _
              (step w served _ _ (find_transaction-Reaches w served _) λ t.
                step w served _ _
                  (move_from-Reaches initiated TransactionStatus.pending
                    "Traitement du remboursement" t)
                  λ sent.
                    step w served _ _
                      (move_from-Reaches TransactionStatus.pending TransactionStatus.succeeded
                        "Remboursement confirmé par l'opérateur" sent)
                      λ c. result w served tt)
              λ _. result w served _

  seed_lost_dispute-Reaches : (reference : String) → Reaches w served (seed_lost_dispute reference)
  unfolding seed_lost_dispute
  seed_lost_dispute-Reaches reference =
      step w served _ _ (find_transaction-Reaches w served reference) λ t.
        step w served _ _
          (move_from-Reaches TransactionStatus.succeeded disputed
            "Litige ouvert par le client (produit non reçu)" t)
          λ u.
            step w served _ _
              (move_from-Reaches disputed reversed "Litige perdu — fonds repris par l'opérateur" u)
              λ v. result w served tt

  pub seed_refunds_and_dispute-Reaches :
      (xs : List SeededTransaction) → Reaches w served (seed_refunds_and_dispute xs)
  unfolding seed_refunds_and_dispute
  seed_refunds_and_dispute-Reaches (a ∷ b ∷ c ∷ rest) =
      step w served _ _ (seed_refund-Reaches a.reference _ _ _) λ p.
        step w served _ _ (seed_refund-Reaches b.reference _ _ _)
          λ t. seed_lost_dispute-Reaches c.reference
  seed_refunds_and_dispute-Reaches [] = fail-Reaches w served _ _
  seed_refunds_and_dispute-Reaches (a ∷ []) = fail-Reaches w served _ _
  seed_refunds_and_dispute-Reaches (a ∷ b ∷ []) = fail-Reaches w served _ _
