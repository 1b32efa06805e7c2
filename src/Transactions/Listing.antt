-- ===== src/Transactions/Listing.antt =====
-- The list of the transactions and their history (transactions.service.ts, list and history; dto/list-transactions.query.dto.ts;
-- cursor.util.ts). A cursor is the pair that its text encodes; Cursors has the texts.
pub mod Pages
pub mod Paging
pub mod Crawl
pub mod Cursors
pub mod Following
use ledger_ops_api.Common.{
  ℕ, Option, List, String, Bool, ◌∷◌, none, if◌then◌else◌, true, ltb, ◌==◌, some, filter, [], ◌||◌,
  ◌&&◌, length, take, ◌+◌, ok, leb, map_option, sort_by, last,
}
use ledger_ops_api.Database.Tables.{
  Transaction, TransactionStatusHistory, TransactionStatus, Database, Provider, status_eq,
  provider_eq,
}
use ledger_ops_api.Database.Commit.{Call, ◌>>>◌}
use ledger_ops_api.Database.Rows.{or_else}
use ledger_ops_api.Transactions.Service.{find_by_reference_or_throw}

pub record TransactionCursor : Type 0 where
  pub created_at : ℕ
  pub id : ℕ

pub record ListTransactionsQuery : Type 0 where
  pub status : Option TransactionStatus
  pub provider : Option Provider
  pub date_from : Option ℕ
  pub date_to : Option ℕ
  pub cursor : Option TransactionCursor
  pub limit : Option ℕ

pub record Page : Type 0 where
  pub rows : List Transaction
  pub next_cursor : Option TransactionCursor

abbrev pub default_limit : ℕ
default_limit = 20

-- A filter that is not given lets every row through.
abbrev pub given {ℓ} : {A : Type ℓ} → Option A → (A → Bool) → Bool
given none p = true
given (some a) p = p a

-- Strictly after the cursor in the order of the pages: created_at, then id, the greatest first.
unfoldable pub after_cursor : TransactionCursor → Transaction → Bool
after_cursor c t = ltb t.created_at c.created_at || (t.created_at == c.created_at && ltb t.id c.id)

-- The `where` of the query.
unfoldable pub matches : ListTransactionsQuery → Option ℕ → Transaction → Bool
matches q merchant_id t =
    given merchant_id (λ m. t.merchant_id == m)
    && given q.status (status_eq t.status)
    && given q.provider (provider_eq t.provider)
    && given q.date_from (λ n. leb n t.created_at)
    && given q.date_to (λ n. leb t.created_at n)
    && given q.cursor (λ c. after_cursor c t)

abbrev pub cursor_of : Transaction → TransactionCursor
cursor_of t = record { created_at = t.created_at; id = t.id }

-- orderBy: [{ createdAt: "desc" }, { id: "desc" }]
unfoldable pub newer : Transaction → Transaction → Bool
unfolding after_cursor
newer t x = after_cursor (cursor_of t) x

unfoldable pub newest_first : List Transaction → List Transaction
newest_first ts = sort_by newer ts

-- One row more than the page is read: it tells that there is a next page.
unfoldable pub page_of : ℕ → List Transaction → Page
page_of limit rows =
    let page = if ltb limit (length rows) then take limit rows else rows in
    record {
      rows = page;
      next_cursor = if ltb limit (length rows) then map_option cursor_of (last page) else none;
    }

unfoldable pub list : ListTransactionsQuery → Option ℕ → Database → Page
list q merchant_id d =
    let limit = or_else q.limit default_limit in
    page_of limit (take (limit + 1) (newest_first (filter (matches q merchant_id) d.transactions)))

-- orderBy: { createdAt: "asc" }. The rows of the table are the newest first; equal times keep the order of
-- the insertions.
abbrev older : TransactionStatusHistory → TransactionStatusHistory → Bool
older h x = ltb h.created_at x.created_at

unfoldable pub oldest_first : List TransactionStatusHistory → List TransactionStatusHistory
oldest_first hs = sort_by older hs

unfoldable pub history_rows : (ℕ → Bool) → Database → List TransactionStatusHistory
history_rows concerned d =
    oldest_first (filter (λ (h : TransactionStatusHistory). concerned h.transaction_id) d.history)

unfoldable pub history : String → Call (List TransactionStatusHistory)
history reference =
    find_by_reference_or_throw reference >>> λ t env d. (ok (history_rows (λ i. i == t.id) d), d)
