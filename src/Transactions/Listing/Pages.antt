-- ===== src/Transactions/Listing/Pages.antt =====
-- The rows of one page.
use ledger_ops_api.Database.Tables.{
  Transaction, Database, TransactionStatus, Provider, status_eq, provider_eq,
}
use ledger_ops_api.Database.Rows.Updates.{status_eq→≡}
use ledger_ops_api.Transactions.Listing.{
  given, TransactionCursor, after_cursor, newest_first, page_of, ListTransactionsQuery,
  default_limit, matches, newer,
}
use ledger_ops_api.Common.{
  ℕ, Bool, List, All, length, Option, ◌≡◌, ◌≤◌, true, Bool-cases, arith, filter, ltb, inl, ◌+◌, inr,
  some, none, ◌<◌, ◌⊎◌, ◌==◌, leb, All-map, length-take, All-take, All-filter, All-sort_by, All-of,
}
use ledger_ops_api.Transactions.Listing.{list}
use ledger_ops_api.Database.Rows.{or_else}

pub All-matching :
    (p : Transaction → Bool) (ts : List Transaction)
    → All (λ (t : Transaction). p t ≡ true) (filter p ts)
All-matching p ts =
    All-map (λ (t : Transaction). Unit {0} × (p t ≡ true)) (λ (t : Transaction). p t ≡ true)
      (λ t h. h.1) (filter p ts)
      (All-filter (λ (t : Transaction). Unit {0}) p ts
        (All-of (λ (t : Transaction). Unit {0}) (λ t. tt) ts))

page_of-rows :
    (P : Transaction → Type 0) (limit : ℕ) (rows : List Transaction)
    → All P rows
    → (length (page_of limit rows).rows ≤ limit) × All P (page_of limit rows).rows
unfolding page_of
page_of-rows P limit rows hs = elim (Bool-cases (ltb limit (length rows))) [
  | inl y ↦ rw y (length-take limit rows, All-take P limit rows hs)
  | inr n ↦ rw n (ground arith, hs)
]

-- What is asked of a value that may be given.
abbrev pub Given {ℓ} : {A : Type ℓ} → Option A → (A → Type 0) → Type 0
Given none P = Unit
Given (some a) P = P a

-- A row that a client may expect of the query: of the merchant and with the status and the provider that are given, created in the
-- given dates, and older than the cursor or as old with a smaller id.
pub record Fits (q : ListTransactionsQuery) (merchant_id : Option ℕ) (t : Transaction)
    : Type 0 where
  pub own : Given merchant_id (λ m. t.merchant_id ≡ m)
  pub status : Given q.status (λ s. t.status ≡ s)
  pub provider : Given q.provider (λ p. t.provider ≡ p)
  pub since : Given q.date_from (λ n. n ≤ t.created_at)
  pub until : Given q.date_to (λ n. t.created_at ≤ n)
  pub after :
      Given q.cursor
        (λ c. (t.created_at < c.created_at) ⊎ ((t.created_at ≡ c.created_at) × (t.id < c.id)))

provider_eq→≡ : (a b : Provider) → provider_eq a b ≡ true → a ≡ b
provider_eq→≡ a b h = ground arith

module _ (t : Transaction) where
  given-merchant :
      (o : Option ℕ) → given o (λ m. t.merchant_id == m) ≡ true → Given o (λ m. t.merchant_id ≡ m)
  given-merchant none h = tt
  given-merchant (some m) h = ground arith

  given-status :
      (o : Option TransactionStatus)
      → given o (status_eq t.status) ≡ true
      → Given o (λ s. t.status ≡ s)
  given-status none h = tt
  given-status (some s) h = status_eq→≡ t.status s h

  given-provider :
      (o : Option Provider)
      → given o (provider_eq t.provider) ≡ true
      → Given o (λ p. t.provider ≡ p)
  given-provider none h = tt
  given-provider (some p) h = provider_eq→≡ t.provider p h

  given-since :
      (o : Option ℕ) → given o (λ n. leb n t.created_at) ≡ true → Given o (λ n. n ≤ t.created_at)
  given-since none h = tt
  given-since (some n) h = ground arith

  given-until :
      (o : Option ℕ) → given o (λ n. leb t.created_at n) ≡ true → Given o (λ n. t.created_at ≤ n)
  given-until none h = tt
  given-until (some n) h = ground arith

  given-after :
      (o : Option TransactionCursor)
      → given o (λ c. after_cursor c t) ≡ true
      → Given o
          (λ c. (t.created_at < c.created_at) ⊎ ((t.created_at ≡ c.created_at) × (t.id < c.id)))
  unfolding after_cursor
  given-after none h = tt
  given-after (some c) h = elim (Bool-cases (ltb t.created_at c.created_at)) [
    | inl y ↦ inl (ground arith)
    | inr n ↦ inr (ground arith, ground arith)
  ]

matches-Fits :
    (q : ListTransactionsQuery) (merchant_id : Option ℕ) (t : Transaction)
    → matches q merchant_id t ≡ true
    → Fits q merchant_id t
unfolding matches
matches-Fits q merchant_id t h = record {
  own = given-merchant t merchant_id (ground arith);
  status = given-status t q.status (ground arith);
  provider = given-provider t q.provider (ground arith);
  since = given-since t q.date_from (ground arith);
  until = given-until t q.date_to (ground arith);
  after = given-after t q.cursor (ground arith);
}

-- A page has at most `limit` rows, 20 where the query gives none. Each of them is a row of the merchant, where one is given, has the
-- status and the provider that the query gives, was created in its dates, and comes after its cursor: it is older, or as old with a smaller id.
pub list-rows :
    (q : ListTransactionsQuery) (merchant_id : Option ℕ) (d : Database)
    → (length (list q merchant_id d).rows ≤ or_else q.limit default_limit)
      × All (Fits q merchant_id) (list q merchant_id d).rows
unfolding list newest_first
list-rows q merchant_id d = page_of-rows _ (or_else q.limit default_limit) _ (
    All-take _ (or_else q.limit default_limit + 1) _ (
      All-sort_by newer _ _ (
        All-map _ (Fits q merchant_id) (λ t h. matches-Fits q merchant_id t h) _
          (All-matching (matches q merchant_id) d.transactions))))
