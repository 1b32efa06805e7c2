-- ===== src/Transactions/Audit.antt =====
-- TransactionAuditService (transactions/transaction-audit.service.ts, dto/transaction-audit-response.dto.ts).
use ledger_ops_api.Common.{
  String, Option, ℕ, List, Bool, ◌∷◌, filter, map, some, if◌then◌else◌, option_eq, any, map_option,
  find, none, ltb, ◌==◌, false, ◌++◌, not, length, ◌&&◌, sort_by,
}
use ledger_ops_api.Transactions.Presenter.{
  TransactionResponse, HistoryResponse, to_transaction_response, to_history_response,
}
use ledger_ops_api.Database.Tables.{
  Database, EntryDirection, Transaction, TransactionStatus, TransactionType,
  TransactionStatusHistory, LedgerPosting, JournalEntry, direction_eq, LedgerAccount, debit, credit,
}
use ledger_ops_api.Database.Ledger.{postings_of, total}
use ledger_ops_api.Database.Rows.{by_id}
use ledger_ops_api.Transactions.Listing.{history_rows}

pub record AuditRefund : Type 0 where
  pub reference : String
  pub status : TransactionStatus
  pub amount : ℕ
  pub currency : String
  pub created_at : ℕ

pub record AuditTimelineEvent : Type 0 where
  pub transaction_reference : Option String
  pub transaction_type : Option TransactionType
  pub change : HistoryResponse

pub record AuditPosting : Type 0 where
  pub account_code : Option String
  pub account_name : Option String
  pub direction : EntryDirection
  pub amount : ℕ
  pub currency : String

pub record AuditJournalEntry : Type 0 where
  pub id : ℕ
  pub description : String
  pub transaction_reference : Option String
  pub created_at : ℕ
  pub postings : List AuditPosting
  pub total_debit : ℕ
  pub total_credit : ℕ
  pub balanced : Bool

pub record TransactionAudit : Type 0 where
  pub transaction : TransactionResponse
  pub parent_reference : Option String
  pub refunds : List AuditRefund
  pub timeline : List AuditTimelineEvent
  pub entries : Option (List AuditJournalEntry)

-- orderBy: { createdAt: "asc" }, on a table whose newest row comes first.
abbrev earlier : {A : Type 0} → (A → ℕ) → A → A → Bool
earlier at x y = ltb (at x) (at y)

unfoldable pub refunds_of : ℕ → Database → List Transaction
refunds_of i d =
    sort_by (earlier (λ (t : Transaction). t.created_at))
      (filter (λ (t : Transaction). option_eq ◌==◌ t.parent_transaction_id (some i)) d.transactions)

abbrev concerned_by : List Transaction → ℕ → Bool
concerned_by ts i = any (by_id i) ts

abbrev event_of : List Transaction → TransactionStatusHistory → AuditTimelineEvent
event_of ts h = record {
  transaction_reference =
      map_option (λ (t : Transaction). t.reference) (find (by_id h.transaction_id) ts);
  transaction_type = map_option (λ (t : Transaction). t.type) (find (by_id h.transaction_id) ts);
  change = to_history_response h;
}

abbrev posting_view : Database → LedgerPosting → AuditPosting
posting_view d p =
    let account = find (λ (a : LedgerAccount). a.id == p.account_id) d.accounts in
    record {
      account_code = map_option (λ (a : LedgerAccount). a.code) account;
      account_name = map_option (λ (a : LedgerAccount). a.name) account;
      direction = p.direction;
      amount = p.amount;
      currency = p.currency;
    }

abbrev by_direction : EntryDirection → LedgerPosting → Bool
by_direction x p = direction_eq p.direction x

-- An entry with its postings, the debits first, and the totals that the database adds up.
unfoldable pub entry_view : Database → List Transaction → JournalEntry → AuditJournalEntry
entry_view d ts e =
    let ps = postings_of e.id d.postings in
    record {
      id = e.id;
      description = e.description;
      transaction_reference =
          map_option (λ (t : Transaction). t.reference)
            (find (λ (t : Transaction). option_eq ◌==◌ e.transaction_id (some t.id)) ts);
      created_at = e.created_at;
      postings =
          map (posting_view d) (filter (by_direction debit) ps ++ filter (by_direction credit) ps);
      total_debit = total debit ps;
      total_credit = total credit ps;
      balanced = not (length ps == 0) && total debit ps == total credit ps;
    }

abbrev of_transactions : List Transaction → JournalEntry → Bool
of_transactions ts e = elim e.transaction_id [ none ↦ false | some i ↦ concerned_by ts i ]

unfoldable pub entries : List Transaction → Database → List AuditJournalEntry
entries ts d =
    map (entry_view d ts) (
      sort_by (earlier (λ (e : JournalEntry). e.created_at))
        (filter (of_transactions ts) d.entries))

abbrev parent_reference_of : Database → Option ℕ → Option String
parent_reference_of d none = none
parent_reference_of d (some i) =
    map_option (λ (t : Transaction). t.reference) (find (by_id i) d.transactions)

abbrev refund_view : Transaction → AuditRefund
refund_view r = record {
  reference = r.reference;
  status = r.status;
  amount = r.amount;
  currency = r.currency;
  created_at = r.created_at;
}

-- `build`
unfoldable pub build : Transaction → Bool → Database → TransactionAudit
build t include_entries d =
    let refunds = refunds_of t.id d in
    let concerned = t ∷ refunds in
    record {
      transaction = to_transaction_response t;
      parent_reference = parent_reference_of d t.parent_transaction_id;
      refunds = map refund_view refunds;
      timeline = map (event_of concerned) (history_rows (concerned_by concerned) d);
      entries = if include_entries then some (entries concerned d) else none;
    }
