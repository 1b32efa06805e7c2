-- ===== src/Transactions/Listing/Following.antt =====
-- A client that follows the texts of the cursors (transactions/cursor.util.ts) from page to page.
use ledger_ops_api.Common.{
  ℕ, ◌≡◌, ◌<◌, ◌≤◌, ◌++◌, Option, some, none, List, [], zero, suc, Result, ok, err, All, refl, ap,
  ◌∙◌, inl, inr, All-map, Option-cases, take, length, sym, All-sort_by, All-last, All-filter,
  All-take,
}
use ledger_ops_api.Database.Tables.{Database, Transaction}
use ledger_ops_api.Database.Rows.Keys.{Keyed}
use ledger_ops_api.Transactions.Listing.{
  ListTransactionsQuery, TransactionCursor, Page, list, matches, newest_first, newer,
}
use ledger_ops_api.Transactions.Listing.Paging.{limit_of, matching}
use ledger_ops_api.Transactions.Listing.Crawl.{crawl, crawl-matching, last_of_page, list-take}
use ledger_ops_api.Transactions.Listing.Cursors.{
  NodeTexts, Inverse, last_date, list_by_text, next_cursor_text, list_by_text-next_cursor_text,
}

-- Every row has a date of JavaScript.
abbrev pub Dated : List Transaction → Type 0
Dated = All (λ (t : Transaction). t.created_at ≤ last_date)

matching-Dated :
    (q : ListTransactionsQuery) (merchant_id : Option ℕ) (d : Database)
    → Dated d.transactions
    → Dated (matching q merchant_id d)
unfolding newest_first
matching-Dated q merchant_id d h = All-sort_by newer _ _ (
    All-map _ (λ (t : Transaction). t.created_at ≤ last_date) (λ t k. k.0) _
      (All-filter _ (matches q merchant_id) d.transactions h))

next_cursor-date :
    (q : ListTransactionsQuery) (merchant_id : Option ℕ) (d : Database) {c : TransactionCursor}
    → Dated d.transactions
    → (list q merchant_id d).next_cursor ≡ some c
    → c.created_at ≤ last_date
next_cursor-date q merchant_id d h e =
    let (z, more, l, is) =
      last_of_page (limit_of q) (matching q merchant_id d)
        (sym (list-take q merchant_id d).1 ∙ e) in
    rw (← is) (
      All-last (λ (t : Transaction). t.created_at ≤ last_date)
        (take (limit_of q) (matching q merchant_id d))
        (All-take _ (limit_of q) _ (matching-Dated q merchant_id d h)) l)

-- The rows of a page, in front of those of the pages that follow.
abbrev pub with_rows : List Transaction → Result (List Transaction) → Result (List Transaction)
with_rows rows (ok more) = ok (rows ++ more)
with_rows rows (err e) = err e

module _ {JsonText Raw : Type 0} (node : NodeTexts JsonText Raw) where
  abbrev follow : Result Page → (Raw → Result (List Transaction)) → Result (List Transaction)
  follow (err e) next = err e
  follow (ok p) next =
      with_rows p.rows
        (elim p.next_cursor [ none ↦ ok [] | some c ↦ next (next_cursor_text node c) ])

  -- The rows of at most so many pages, each asked for with the text of the cursor that the one before gave.
  pub crawl_texts :
      ℕ → ListTransactionsQuery → Option Raw → Option ℕ → Database → Result (List Transaction)
  crawl_texts zero q raw merchant_id d = ok []
  crawl_texts (suc pages) q raw merchant_id d =
      follow (list_by_text node q raw merchant_id d)
        λ text. crawl_texts pages q (some text) merchant_id d

  crawl_texts-crawl :
      (pages : ℕ) (q : ListTransactionsQuery) (raw : Option Raw) (c : Option TransactionCursor)
      (merchant_id : Option ℕ) (d : Database)
      → Inverse node
      → Dated d.transactions
      → list_by_text node q raw merchant_id d ≡ ok (list (record q { cursor = c }) merchant_id d)
      → crawl_texts pages q raw merchant_id d
        ≡ ok (crawl pages (record q { cursor = c }) merchant_id d)
  unfolding crawl crawl_texts
  crawl_texts-crawl zero q raw c merchant_id d laws dated h = refl
  crawl_texts-crawl (suc pages) q raw c merchant_id d laws dated h =
      elim (Option-cases (list (record q { cursor = c }) merchant_id d).next_cursor) [
        | inl e ↦ rw (h, e) refl
        | inr (x, e) ↦
            let date = next_cursor-date (record q { cursor = c }) merchant_id d dated e in
            let rest =
              crawl_texts-crawl pages q (some (next_cursor_text node x)) (some x) merchant_id d laws
                dated (list_by_text-next_cursor_text node q x merchant_id d laws date) in
            rw (h, e, rest) refl
      ]

  -- Where the functions of Node.js read back the texts that they wrote, a client that asks for the first page and then sends the text of each
  -- `nextCursor` until there is none gets no error and reads every row that its query matches, once and the newest first, as long
  -- as ids are unique, dates are dates of JavaScript, and a page has room for a row. One page more than there are rows is enough.
  pub crawl_texts-matching :
      (pages : ℕ) (q : ListTransactionsQuery) (merchant_id : Option ℕ) (d : Database)
      → Inverse node
      → Keyed d.transactions
      → Dated d.transactions
      → 0 < limit_of q
      → length (matching (record q { cursor = none }) merchant_id d) < pages
      → crawl_texts pages q none merchant_id d
        ≡ ok (matching (record q { cursor = none }) merchant_id d)
  unfolding list_by_text
  crawl_texts-matching pages q merchant_id d laws keyed dated room enough =
      crawl_texts-crawl pages q none none merchant_id d laws dated refl
      ∙ ap ok (crawl-matching pages (record q { cursor = none }) merchant_id d keyed room enough)
