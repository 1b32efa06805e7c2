-- ===== src/Transactions/Listing/Crawl.antt =====
-- A client that follows the cursors from page to page.
use ledger_ops_api.Transactions.Listing.{
  ListTransactionsQuery, matches, newest_first, TransactionCursor, newer, cursor_of, list,
}
use ledger_ops_api.Common.{
  ℕ, Option, some, List, ◌≡◌, [], take, true, ◌<◌, suc, ◌++◌, ◌&&◌, length, arith, drop,
  if◌then◌else◌, none, ltb, zero, map_option, last, ◌+◌, Option-cases, refl, filter, inl, sym, inr,
  ◌∙◌, All-last, All-take, All-sort_by, ap, filter-filter, sort_by-filter, sort_by-IsSorted, ◌≤◌,
  take_all, ◌∷◌, length-drop, take-append-drop,
}
use ledger_ops_api.Database.Tables.{Database, Transaction}
use ledger_ops_api.Database.Rows.Keys.{Keyed, filter-Keyed}
use ledger_ops_api.Transactions.Listing.Paging.{
  limit_of, matching, page_of-take, Keyed-AllComparable, newer_chain, filter-newer,
}
use ledger_ops_api.Transactions.Listing.Pages.{All-matching}

-- The query of the page that follows.
abbrev pub from_cursor : ListTransactionsQuery → TransactionCursor → ListTransactionsQuery
from_cursor q c = record q { cursor = some c }

-- The rows of at most so many pages, each asked for with the cursor of the one before.
unfoldable pub crawl : ℕ → ListTransactionsQuery → Option ℕ → Database → List Transaction
crawl zero q merchant_id d = []
crawl (suc pages) q merchant_id d =
    (list q merchant_id d).rows ++ (elim (list q merchant_id d).next_cursor [
      | none ↦ []
      | some c ↦ crawl pages (from_cursor q c) merchant_id d
    ])

pub list-take :
    (q : ListTransactionsQuery) (merchant_id : Option ℕ) (d : Database)
    → ((list q merchant_id d).rows ≡ take (limit_of q) (matching q merchant_id d))
      × ((list q merchant_id d).next_cursor ≡ (
          if ltb (limit_of q) (length (matching q merchant_id d))
          then map_option cursor_of (last (take (limit_of q) (matching q merchant_id d)))
          else none))
unfolding list
list-take q merchant_id d =
    let e : limit_of q + 1 ≡ suc (limit_of q) = omega arith in
    rw e (page_of-take (limit_of q) (matching q merchant_id d))

-- A later cursor narrows the query that an earlier one began.
matches-from_cursor :
    (q : ListTransactionsQuery) (merchant_id : Option ℕ) (z x : Transaction)
    → matches q merchant_id z ≡ true
    → matches (from_cursor q (cursor_of z)) merchant_id x ≡ matches q merchant_id x && newer z x
unfolding matches newer
matches-from_cursor q merchant_id z x h = ground arith

-- There is a next page where rows are left, and its cursor is the last row of this one.
pub last_of_page :
    (n : ℕ) (ts : List Transaction) {c : TransactionCursor}
    → (if ltb n (length ts) then map_option cursor_of (last (take n ts)) else none) ≡ some c
    → (z : Transaction) × (n < length ts) × (last (take n ts) ≡ some z) × (cursor_of z ≡ c)
last_of_page n ts {c} h = elim (Option-cases (last (take n ts))) [
  | inl e ↦ let k : (if ltb n (length ts) then none else none) ≡ some c = rw e at h in ground arith
  | inr (z, e) ↦
      let k : (if ltb n (length ts) then some (cursor_of z) else none) ≡ some c = rw e at h in
      (z, ground arith, e, ground arith)
]

last-limit :
    (n : ℕ) (ts : List Transaction) {z : Transaction}
    → last (take n ts) ≡ some z
    → (k : ℕ) × (n ≡ suc k)
last-limit zero ts h = cc
last-limit (suc k) ts h = (k, refl)

next_page :
    (q : ListTransactionsQuery) (merchant_id : Option ℕ) (d : Database) {c : TransactionCursor}
    → Keyed d.transactions
    → (list q merchant_id d).next_cursor ≡ some c
    → (0 < limit_of q)
      × (limit_of q < length (matching q merchant_id d))
      × (matching (from_cursor q c) merchant_id d ≡ drop (limit_of q) (matching q merchant_id d))
unfolding newest_first
next_page q merchant_id d {c} keyed h =
    let rows = filter (matches q merchant_id) d.transactions in
    let here : (if ltb (limit_of q) (length (matching q merchant_id d))
          then map_option cursor_of (last (take (limit_of q) (matching q merchant_id d)))
          else none)
        ≡ some c =
      sym (list-take q merchant_id d).1 ∙ h in
    let (z, more, l, e) = last_of_page (limit_of q) (matching q merchant_id d) here in
    let comparable =
      Keyed-AllComparable rows (filter-Keyed (matches q merchant_id) d.transactions keyed) in
    let m =
      All-last (λ (t : Transaction). matches q merchant_id t ≡ true)
        (take (limit_of q) (matching q merchant_id d))
        (All-take _ (limit_of q) _
          (All-sort_by newer _ _ (All-matching (matches q merchant_id) d.transactions)))
        l in
    let (k, s) = last-limit (limit_of q) (matching q merchant_id d) l in
    (
      omega arith,
      more,
      rw (← e) (
          ap newest_first (
            sym (
              filter-filter (matches q merchant_id) (newer z)
                (matches (from_cursor q (cursor_of z)) merchant_id)
                (λ x. matches-from_cursor q merchant_id z x m) d.transactions))
          ∙ sort_by-filter newer newer_chain (newer z) rows comparable
          ∙ rw s (
              filter-newer k (matching q merchant_id d)
                (sort_by-IsSorted newer newer_chain rows comparable) (rw s at l))),
    )

last-none : (k : ℕ) (ts : List Transaction) → last (take (suc k) ts) ≡ none → length ts ≡ 0
last-none k [] h = refl
last-none zero (t ∷ ts) h = cc
last-none (suc k) (t ∷ []) h = cc
last-none (suc k) (t ∷ u ∷ ts) h = let e = last-none k (u ∷ ts) h in absurd (omega arith)

-- Without a next page, the page has all that is left.
last_page :
    (n : ℕ) (ts : List Transaction)
    → 0 < n
    → (if ltb n (length ts) then map_option cursor_of (last (take n ts)) else none) ≡ none
    → length ts ≤ n
last_page zero ts p h = absurd (omega arith)
last_page (suc k) ts p h = elim (Option-cases (last (take (suc k) ts))) [
  | inl e ↦ omega (arith, last-none k ts e)
  | inr (z, e) ↦
      let w : (if ltb (suc k) (length ts) then some (cursor_of z) else none) ≡ none = rw e at h in
      ground arith
]

crawl_step :
    (pages : ℕ) (q : ListTransactionsQuery) (merchant_id : Option ℕ) (d : Database)
    (o : Option TransactionCursor)
    → (list q merchant_id d).next_cursor ≡ o
    → crawl (suc pages) q merchant_id d
      ≡ take (limit_of q) (matching q merchant_id d)
        ++ (elim o [ none ↦ [] | some c ↦ crawl pages (from_cursor q c) merchant_id d ])
unfolding crawl
crawl_step pages q merchant_id d o h = rw ((list-take q merchant_id d).0, h) refl

append_nil : (ts : List Transaction) → ts ++ [] ≡ ts
append_nil [] = refl
append_nil (t ∷ ts) = ap (λ (us : List Transaction). t ∷ us) (append_nil ts)

-- A client that asks for the first page and then follows each `nextCursor` until there is none reads every row that its query
-- matches, once and the newest first, however small the pages are, as long as a page has room for a row. One page more than
-- there are rows is enough.
pub crawl-matching :
    (pages : ℕ) (q : ListTransactionsQuery) (merchant_id : Option ℕ) (d : Database)
    → Keyed d.transactions
    → 0 < limit_of q
    → length (matching q merchant_id d) < pages
    → crawl pages q merchant_id d ≡ matching q merchant_id d
crawl-matching zero q merchant_id d keyed room enough = absurd (omega arith)
crawl-matching (suc pages) q merchant_id d keyed room enough =
    elim (Option-cases (list q merchant_id d).next_cursor) [
      | inl e ↦
          let fits =
            last_page (limit_of q) (matching q merchant_id d) room
              (sym (list-take q merchant_id d).1 ∙ e) in
          crawl_step pages q merchant_id d none e
          ∙ append_nil _
          ∙ take_all (limit_of q) (matching q merchant_id d) fits
      | inr (c, e) ↦
          let (_, more, rest) = next_page q merchant_id d keyed e in
          let left : length (drop (limit_of q) (matching q merchant_id d)) < pages =
            omega (arith, length-drop (limit_of q) (matching q merchant_id d)) in
          crawl_step pages q merchant_id d (some c) e
          ∙ ap (λ (ts : List Transaction). take (limit_of q) (matching q merchant_id d) ++ ts)
              (crawl-matching pages (from_cursor q c) merchant_id d keyed room (rw rest left)
                ∙ rest)
          ∙ take-append-drop (limit_of q) (matching q merchant_id d)
    ]
