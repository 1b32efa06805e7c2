-- ===== src/Scripts/Refunds.antt =====
-- The refunds and the lost dispute of seed-demo.ts: each goes on from the status that the transaction has.
use ledger_ops_api.Common.{◌∷◌, String, List, ℕ, if◌then◌else◌, some, none, ◌/◌, plain_error}
use ledger_ops_api.Database.Tables.{
  pending, succeeded, TransactionStatus, Transaction, status_eq, initiated, disputed, reversed,
}
use ledger_ops_api.Scripts.{Script, call, ◌>>=◌, done, ◌>>◌, fail}
use ledger_ops_api.Scripts.Payments.{SeededTransaction, move_to}
use ledger_ops_api.Transactions.Service.{find_by_reference_or_throw}
use ledger_ops_api.Payments.Service.{create_refund}
use ledger_ops_api.Scripts.Payments.Texts.{decimal}

abbrev pub read_transaction : String → Script Transaction
read_transaction reference = call (λ w n. find_by_reference_or_throw reference)

-- `if (current.status === from) current = await transactions.transition(...)`
unfoldable pub move_from :
    TransactionStatus → TransactionStatus → String → Transaction → Script Transaction
move_from from to reason current =
    if status_eq current.status from
    then move_to current (record { status = to; reason = some reason; provider_reference = none })
    else done current

unfoldable pub drive_to_succeeded : String → Script (Unit {0})
unfolding move_from
drive_to_succeeded reference = do
  current ← read_transaction reference
  sent ← move_from initiated pending "Traitement du remboursement" current
  confirmed ← move_from pending succeeded "Remboursement confirmé par l'opérateur" sent
  done tt

unfoldable pub seed_refund : String → String → String → (ℕ → ℕ) → Script String
unfolding drive_to_succeeded
seed_refund parent_reference key reason amount_of = do
  parent ← read_transaction parent_reference
  created ← call (λ w n.
      create_refund (w.platform n) parent_reference
        (record { amount = decimal (amount_of parent.amount); reason = some reason }) key
        parent.merchant_id)
  drive_to_succeeded created.transaction.reference
  done created.transaction.reference

unfoldable pub seed_lost_dispute : String → Script (Unit {0})
unfolding move_from
seed_lost_dispute reference = do
  current ← read_transaction reference
  disputed_row ←
      move_from succeeded disputed "Litige ouvert par le client (produit non reçu)" current
  reversed_row ←
      move_from disputed reversed "Litige perdu — fonds repris par l'opérateur" disputed_row
  done tt

-- The first three payments, by their position.
unfoldable pub seed_refunds_and_dispute : List SeededTransaction → Script (Unit {0})
unfolding seed_refund seed_lost_dispute
seed_refunds_and_dispute (partial_target ∷ total_target ∷ dispute_target ∷ rest) = do
  partial_ref ←
      seed_refund partial_target.reference "seed-demo-refund-partial"
        "Article manquant dans la commande" (λ amount. amount / 2)
  total_ref ←
      seed_refund total_target.reference "seed-demo-refund-total" "Commande annulée"
        (λ amount. amount)
  seed_lost_dispute dispute_target.reference
seed_refunds_and_dispute too_few = fail plain_error
