-- ===== src/System/Kept.antt =====
-- What a property of the database has to be kept by, for the calls of the service to keep it.
use ledger_ops_api.Database.Tables.{Database, Transaction, JournalEntry, LedgerPosting}
use ledger_ops_api.Common.{◌≡◌, String, ℕ, ◌∷◌, Bool, List}
use ledger_ops_api.Database.Rows.Keys.{Keyed, Stored}
use ledger_ops_api.Database.Rows.{TransactionData, transaction_create, TransactionChange}
use ledger_ops_api.Database.Sql.{Session}
use ledger_ops_api.System.Preservation.{Preserves, CallPreserves}
use ledger_ops_api.Database.Rows.Inserts.{Inserted}
use ledger_ops_api.Transactions.Service.{TransitionStatusDto, transition}
use ledger_ops_api.Database.Rows.Updates.{Updated}
use ledger_ops_api.Transactions.Expiration.{expire_one_batch}
use ledger_ops_api.Database.Ledger.Statements.{push_all}

-- A database with the same transactions, history and ledger.

pub record SameLedger (d d' : Database) : Type 0 where
  pub transactions : d'.transactions ≡ d.transactions
  pub history : d'.history ≡ d.history
  pub entries : d'.entries ≡ d.entries
  pub postings : d'.postings ≡ d.postings

-- The writes of the statements. The rows that are updated have been read.
pub record Written (P : Database → Type 0) : Type 0 where
  pub keyed : (d : Database) → P d → Keyed d.transactions
  pub insertion :
      (s : Session) (x : TransactionData) (d : Database) (t : Transaction) (d' : Database)
      → Inserted s x d t d'
      → P d
      → P d'
  pub update :
      (s : Session) (c : TransactionChange) (old : Transaction) (d : Database) (t : Transaction)
      (d' : Database)
      → Stored d.transactions old
      → Updated s c old d t d'
      → P d
      → P d'
  pub entry : (e : JournalEntry) (d : Database) → P d → P (record d { entries = e ∷ d.entries })
  pub posted :
      (ps : List LedgerPosting) (d : Database)
      → P d
      → P (record d { postings = push_all ps d.postings })
  pub others : (d d' : Database) → SameLedger d d' → P d → P d'

-- The writes of the calls: of new transactions, of transitions, of batches, and of other tables.
pub record Kept (P : Database → Type 0) : Type 0 where
  pub creations : (x : TransactionData) → Preserves P (transaction_create x)
  pub transitions :
      (reference : String) (dto : TransitionStatusDto) (v : ℕ)
      → CallPreserves P (transition reference dto v)
  pub batches : (locked : ℕ → Bool) → CallPreserves P (expire_one_batch locked)
  pub others : (d d' : Database) → SameLedger d d' → P d → P d'
