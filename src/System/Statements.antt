-- ===== src/System/Statements.antt =====
-- The statements keep a property of the database that their writes keep.
use ledger_ops_api.Database.Tables.{Database, LedgerPosting, ReconciliationException}
use ledger_ops_api.System.Kept.{Written, SameLedger}
use ledger_ops_api.Database.Rows.{
  TransactionData, TransactionChange, transaction_create, transaction_update, by_id,
}
use ledger_ops_api.Common.{ℕ, List, ap, sym, ◌≡◌, ok}
use ledger_ops_api.Database.Others.{ExceptionData, exception_create}
use ledger_ops_api.Database.Ledger.{JournalEntryData, journal_entry_create, posting_create_many}
use ledger_ops_api.System.Preservation.{Preserves, ok-Preserves}
use ledger_ops_api.Database.Rows.Inserts.{transaction_create-Inserted}
use ledger_ops_api.Database.Rows.Updates.{transaction_update-Updated}
use ledger_ops_api.Database.Others.Inserts.{exception_create-writes}
use mathlib.Core.Path.{subst}
use ledger_ops_api.Database.Rows.Keys.{find-by_id}
use ledger_ops_api.Database.Ledger.Statements.{
  journal_entry_create-writes, posting_create_many-writes,
}
use ledger_ops_api.Database.Sql.{Session}

-- A new exception is beside the ledger.
pub exception_create-SameLedger :
    (x : ExceptionData) (s : Session) (d : Database) {e : ReconciliationException} {d' : Database}
    → exception_create x s d ≡ ok (e, d')
    → SameLedger d d'
exception_create-SameLedger x s d h =
    let written = (exception_create-writes x s d h).1 in
    record {
      transactions = ap (λ (y : Database). y.transactions) written;
      history = ap (λ (y : Database). y.history) written;
      entries = ap (λ (y : Database). y.entries) written;
      postings = ap (λ (y : Database). y.postings) written;
    }

module _ (P : Database → Type 0) (w : Written P) where
  pub transaction_create-Preserves : (x : TransactionData) → Preserves P (transaction_create x)
  transaction_create-Preserves x =
      ok-Preserves P (transaction_create x)
        λ s d t d' e p. w.insertion s x d t d' (transaction_create-Inserted x s d e) p

  pub transaction_update-Preserves :
      (i : ℕ) (c : TransactionChange) → Preserves P (transaction_update i c)
  transaction_update-Preserves i c = ok-Preserves P (transaction_update i c) λ s d t d' e p.
      let (old, found, u) = transaction_update-Updated i c s d e in
      w.update s c old d t d' (find-by_id (by_id i) d.transactions old (w.keyed d p) found) u p

  pub exception_create-Preserves : (x : ExceptionData) → Preserves P (exception_create x)
  exception_create-Preserves x =
      ok-Preserves P (exception_create x)
        λ s d e d' h p. w.others d d' (exception_create-SameLedger x s d h) p

  pub journal_entry_create-Preserves : (x : JournalEntryData) → Preserves P (journal_entry_create x)
  journal_entry_create-Preserves x =
      ok-Preserves P (journal_entry_create x)
        λ s d e d' h p. subst P (sym (journal_entry_create-writes x s d h).0) (w.entry e d p)

  pub posting_create_many-Preserves :
      (ps : List LedgerPosting) → Preserves P (posting_create_many ps)
  posting_create_many-Preserves ps =
      ok-Preserves P (posting_create_many ps)
        λ s d e d' h p. subst P (sym (posting_create_many-writes ps s d h)) (w.posted ps d p)
