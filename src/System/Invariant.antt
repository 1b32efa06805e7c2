-- ===== src/System/Invariant.antt =====
-- The invariant of the database, and that every write of the service keeps it.
use ledger_ops_api.Common.{List, String, ℕ, Bool, inl, sym, inr, ap}
use ledger_ops_api.Database.Tables.{Database, Transaction, TransactionStatusHistory, LedgerPosting}
use ledger_ops_api.Database.Rows.{TransactionData, transaction_create}
use ledger_ops_api.System.Preservation.{CallPreserves, Preserves, ok-Preserves}
use ledger_ops_api.System.Kept.{Kept, SameLedger, Written}
use ledger_ops_api.Transactions.Service.{TransitionStatusDto, transition}
use ledger_ops_api.Transactions.Expiration.{expire_one_batch}
use ledger_ops_api.System.Trail.{WellFormed}
use ledger_ops_api.Database.Rows.Inserts.{transaction_create-Inserted}
use ledger_ops_api.Database.Ledger.Balance.{TrialBalance, Offsets-TrialBalance}
use ledger_ops_api.Transactions.Expiration.Rounds.{expire_one_batch_cases}
use mathlib.Core.Path.{subst}
use ledger_ops_api.Transactions.Service.Books.{transition-Offsets}
use ledger_ops_api.System.Bookings.{transition-Preserves}
use ledger_ops_api.System.Batches.{expire_one_batch-Keeps}
use ledger_ops_api.System.Rows.{RowsWellFormed, RowsWellFormed-Written}
use ledger_ops_api.System.Statements.{transaction_create-Preserves}

-- What every database of the service has: well-formed rows with their histories, and a balanced ledger.

pub record Invariant (ts : List Transaction) (hs : List TransactionStatusHistory)
    (ps : List LedgerPosting) : Type 0 where
  pub rows : WellFormed ts hs
  pub balanced : TrialBalance ps

abbrev pub Good : Database → Type 0
Good d = Invariant d.transactions d.history d.postings

-- The laws of the statements are laws of the calls.
pub Written-Kept : (P : Database → Type 0) → Written P → Kept P
Written-Kept P w = record {
  creations = transaction_create-Preserves P w;
  transitions = transition-Preserves P w;
  batches = expire_one_batch-Keeps P w;
  others = w.others;
}

transaction_create-Good : (x : TransactionData) → Preserves Good (transaction_create x)
transaction_create-Good x = ok-Preserves Good (transaction_create x) λ s d t d' e g.
    let i = transaction_create-Inserted x s d e in
    record {
      rows = RowsWellFormed-Written.insertion s x d t d' i g.rows;
      balanced = subst TrialBalance (sym (ap (λ (y : Database). y.postings) i.writes)) g.balanced;
    }

transition-Good :
    (reference : String) (dto : TransitionStatusDto) (v : ℕ)
    → CallPreserves Good (transition reference dto v)
unfolding CallPreserves
transition-Good reference dto v env d g = record {
  rows = transition-Preserves RowsWellFormed RowsWellFormed-Written reference dto v env d g.rows;
  balanced =
      Offsets-TrialBalance d.postings _ (transition-Offsets reference dto v env d) g.balanced;
}

expire_one_batch-Good : (locked : ℕ → Bool) → CallPreserves Good (expire_one_batch locked)
unfolding CallPreserves
expire_one_batch-Good locked env d g = record {
  rows = expire_one_batch-Keeps RowsWellFormed RowsWellFormed-Written locked env d g.rows;
  balanced = elim (expire_one_batch_cases locked env d) [
    | inl (e, w) ↦ rw w g.balanced
    | inr (d', w, x) ↦
        rw w (subst TrialBalance (sym (ap (λ (y : Database). y.postings) x)) g.balanced)
  ];
}

others-Good : (d d' : Database) → SameLedger d d' → Good d → Good d'
others-Good d d' same g = rw (same.transactions, same.history, same.postings) g

pub Good-Kept : Kept Good
Good-Kept = record {
  creations = transaction_create-Good;
  transitions = transition-Good;
  batches = expire_one_batch-Good;
  others = others-Good;
}
