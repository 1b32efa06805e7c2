-- ===== src/Database/Ledger.antt =====
-- The double-entry ledger as PostgreSQL keeps it: journal entries, postings, and the check of each
-- new entry at COMMIT (migration init_ledger, 2.4 and 2.5).
pub mod Statements
pub mod Balance
use ledger_ops_api.Common.{
  ℕ, ◌+◌, String, Option, none, some, Bool, true, false, not, ◌&&◌, List, [], ◌∷◌, map, find,
  filter, any, length, ltb, leb, ◌==◌, str_eq, if◌then◌else◌, foreign_key_violation,
  unique_violation, check_violation, ledger_error, unbalanced_entry, currency_mismatch,
  sealed_entry, invalid_reversal, inactive_account,
}
use ledger_ops_api.Database.Tables.{
  LedgerAccount, JournalEntry, LedgerPosting, Transaction, EntryDirection, debit, credit,
  direction_eq,
}
use ledger_ops_api.Database.Sql.{
  Sql, Table, pure, throw, ◌>>=◌, ◌>>◌, guard, select, session, write,
}
use ledger_ops_api.Database.Checks.{currency_iso}

-- coalesce(sum("amount") FILTER (WHERE "direction" = side), 0)
unfoldable pub total : EntryDirection → List LedgerPosting → ℕ
total side [] = 0
total side (p ∷ ps) = (if direction_eq p.direction side then p.amount else 0) + total side ps

-- The postings of one entry.
unfoldable pub postings_of : ℕ → List LedgerPosting → List LedgerPosting
postings_of entry_id = filter (λ (p : LedgerPosting). p.entry_id == entry_id)

-- The postings in one currency.
unfoldable pub in_currency : String → List LedgerPosting → List LedgerPosting
in_currency currency = filter (λ (p : LedgerPosting). str_eq p.currency currency)

-- count(DISTINCT "currency")
unfoldable pub distinct_currencies : List LedgerPosting → ℕ
distinct_currencies [] = 0
distinct_currencies (p ∷ ps) =
    (if any (λ (q : LedgerPosting). str_eq q.currency p.currency) ps then 0 else 1)
    + distinct_currencies ps

pub record JournalEntryData : Type 0 where
  pub description : String
  pub transaction_id : Option ℕ
  pub reverses_entry_id : Option ℕ

transaction_exists : Option ℕ → List Transaction → Bool
transaction_exists none ts = true
transaction_exists (some i) ts = any (λ (t : Transaction). t.id == i) ts

-- INSERT INTO "journal_entries": the trigger stamps the SQL transaction and the time.
unfoldable pub journal_entry_create : JournalEntryData → Sql JournalEntry
unfolding transaction_exists
journal_entry_create e = do
  s ← session
  d ← select (λ d. d)
  let entry : JournalEntry = record {
    id = s.env.uuid Table.journal_entries;
    description = e.description;
    transaction_id = e.transaction_id;
    reverses_entry_id = e.reverses_entry_id;
    created_tx_id = s.env.txid_current;
    created_at = s.env.current_timestamp;
  }
  guard (not (any (λ (x : JournalEntry). x.id == entry.id) d.entries)) unique_violation
  guard (transaction_exists e.transaction_id d.transactions) foreign_key_violation
  write (λ d. record d { entries = entry ∷ d.entries })
  pure entry

-- An unknown account raises nothing here, since a comparison with NULL is not true: the foreign key
-- refuses the row.
account_checks : Option LedgerAccount → String → Sql (Unit {0})
account_checks none currency = throw foreign_key_violation
account_checks (some a) currency = do
  guard a.is_active (ledger_error inactive_account)
  guard (str_eq a.currency currency) (ledger_error currency_mismatch)

seal_check : Option JournalEntry → ℕ → Sql (Unit {0})
seal_check none txid = throw (ledger_error sealed_entry)
seal_check (some e) txid = guard (e.created_tx_id == txid) (ledger_error sealed_entry)

-- INSERT INTO "ledger_postings", one row: fn_ledger_postings_before_insert and the constraints.
unfoldable pub posting_insert : LedgerPosting → Sql (Unit {0})
unfolding account_checks seal_check
posting_insert p = do
  s ← session
  d ← select (λ d. d)
  account_checks (find (λ (a : LedgerAccount). a.id == p.account_id) d.accounts) p.currency
  seal_check (find (λ (e : JournalEntry). e.id == p.entry_id) d.entries) s.env.txid_current
  guard (ltb 0 p.amount) check_violation
  guard (currency_iso p.currency) check_violation
  write (λ d. record d { postings = p ∷ d.postings })

-- `ledgerPosting.createMany`
unfoldable pub posting_create_many : List LedgerPosting → Sql (Unit {0})
posting_create_many [] = pure tt
posting_create_many (p ∷ ps) = posting_insert p >> posting_create_many ps

abbrev pub flip_direction : EntryDirection → EntryDirection
flip_direction debit = credit
flip_direction credit = debit

flip : LedgerPosting → LedgerPosting
flip p = record p { direction = flip_direction p.direction }

same_line : LedgerPosting → LedgerPosting → Bool
same_line p q =
    p.account_id == q.account_id && direction_eq p.direction q.direction && p.amount == q.amount

remove_line : LedgerPosting → List LedgerPosting → List LedgerPosting
unfolding same_line
remove_line p [] = []
remove_line p (q ∷ qs) = if same_line p q then qs else q ∷ remove_line p qs

-- EXCEPT ALL
except_all : List LedgerPosting → List LedgerPosting → List LedgerPosting
unfolding remove_line
except_all ps [] = ps
except_all ps (q ∷ qs) = except_all (remove_line q ps) qs

is_empty : List LedgerPosting → Bool
is_empty [] = true
is_empty (p ∷ ps) = false

-- Whether the lines of an entry mirror those of the entry that it reverses.
mirrors : List LedgerPosting → List LedgerPosting → Bool
unfolding except_all is_empty flip
mirrors ps original =
    is_empty (except_all (map flip original) ps) && is_empty (except_all ps (map flip original))

reversal_check : Option JournalEntry → ℕ → List LedgerPosting → Bool
unfolding mirrors postings_of
reversal_check none entry_id ps = true
reversal_check (some e) entry_id ps = elim e.reverses_entry_id [
  | none ↦ true
  | some r ↦ mirrors (postings_of entry_id ps) (postings_of r ps)
]

-- fn_assert_entry_valid
unfoldable pub fn_assert_entry_valid : ℕ → Sql (Unit {0})
unfolding total postings_of distinct_currencies reversal_check
fn_assert_entry_valid entry_id = do
  d ← select (λ d. d)
  let lines = postings_of entry_id d.postings
  guard (leb 2 (length lines)) (ledger_error unbalanced_entry)
  guard (distinct_currencies lines == 1) (ledger_error currency_mismatch)
  guard (total debit lines == total credit lines) (ledger_error unbalanced_entry)
  guard
      (reversal_check (find (λ (e : JournalEntry). e.id == entry_id) d.entries) entry_id d.postings)
      (ledger_error invalid_reversal)

-- The deferred constraint triggers: every entry that this SQL transaction created is checked.
unfoldable pub check_entries : List JournalEntry → Sql (Unit {0})
unfolding fn_assert_entry_valid
check_entries [] = pure tt
check_entries (e ∷ es) = do
  s ← session
  (if e.created_tx_id == s.env.txid_current then fn_assert_entry_valid e.id else pure tt)
  check_entries es

unfoldable pub commit_checks : Sql (Unit {0})
unfolding check_entries
commit_checks = do d ← select (λ d. d); check_entries d.entries
