-- ===== src/Transactions/Listing/Paging.antt =====
-- The pages as cuts of the list of matching rows.
use ledger_ops_api.Transactions.Listing.{
  ListTransactionsQuery, newer, page_of, default_limit, newest_first, matches, cursor_of,
}
use ledger_ops_api.Database.Tables.{Transaction, Database}
use ledger_ops_api.Common.{
  List, ℕ, Option, ◌≡◌, ◌≢◌, any, Bool, IsSorted, ltb, take, false, true, Comparable, AllComparable,
  All, last, length, suc, arith, filter, some, ◌∷◌, if◌then◌else◌, ap, drop, map_option, [], zero,
  refl, All-last, none, All-take, Bool-cases, inl, take-take-suc, inr,
}
use ledger_ops_api.Database.Rows.{or_else, by_id}
use ledger_ops_api.Database.Rows.Keys.{Keyed}
use mathlib.Core.Path.{subst}

-- All the rows that a query lets through from its cursor on, in the order of the pages.

abbrev pub matching : ListTransactionsQuery → Option ℕ → Database → List Transaction
matching q merchant_id d = newest_first (filter (matches q merchant_id) d.transactions)

abbrev pub limit_of : ListTransactionsQuery → ℕ
limit_of q = or_else q.limit default_limit

pub newer_irrefl : (t : Transaction) → newer t t ≡ false
unfolding newer
newer_irrefl t = ground arith

newer_asymm : (x y : Transaction) → newer x y ≡ true → newer y x ≡ false
unfolding newer
newer_asymm x y h = ground arith

pub newer_chain : (x y z : Transaction) → newer x y ≡ true → newer y z ≡ true → newer x z ≡ true
unfolding newer
newer_chain x y z h k = ground arith

newer-Comparable : (x y : Transaction) → y.id ≢ x.id → Comparable newer newer_chain x y
unfolding newer
newer-Comparable x y h n = ground arith

distinct-Comparable :
    (t : Transaction) (ts : List Transaction)
    → any (by_id t.id) ts ≡ false
    → All (Comparable newer newer_chain t) ts
distinct-Comparable t [] h = tt
distinct-Comparable t (x ∷ ts) h =
    let n : x.id ≢ t.id = ground arith in
    let r : any (by_id t.id) ts ≡ false = ground arith in
    (newer-Comparable t x n, distinct-Comparable t ts r)

pub Keyed-AllComparable : (ts : List Transaction) → Keyed ts → AllComparable newer newer_chain ts
Keyed-AllComparable [] k = tt
Keyed-AllComparable (t ∷ ts) k = (distinct-Comparable t ts k.0, Keyed-AllComparable ts k.1)

filter-All :
    (p : Transaction → Bool) (ts : List Transaction)
    → All (λ (t : Transaction). p t ≡ true) ts
    → filter p ts ≡ ts
filter-All p [] h = refl
filter-All p (t ∷ ts) h = rw (h.0) (ap (λ (us : List Transaction). t ∷ us) (filter-All p ts h.1))

-- What comes after the last row of a page is the rest of the list.
pub filter-newer :
    (k : ℕ) (ts : List Transaction) {z : Transaction}
    → IsSorted newer ts
    → last (take (suc k) ts) ≡ some z
    → filter (newer z) ts ≡ drop (suc k) ts
filter-newer k [] s h = cc
filter-newer zero (t ∷ ts) {z} s h =
    let e : t ≡ z = cc in
    subst (λ (x : Transaction). filter (newer x) (t ∷ ts) ≡ ts) e
      (rw (newer_irrefl t) (filter-All (newer t) ts s.0))
filter-newer (suc k) (t ∷ []) {z} s h =
    let e : t ≡ z = cc in
    subst (λ (x : Transaction). filter (newer x) (t ∷ []) ≡ []) e (rw (newer_irrefl t) refl)
filter-newer (suc k) (t ∷ u ∷ ts) {z} s h =
    let a =
      All-last (λ (x : Transaction). newer t x ≡ true) (take (suc k) (u ∷ ts))
        (All-take (λ (x : Transaction). newer t x ≡ true) (suc k) (u ∷ ts) s.0) h in
    rw (newer_asymm t z a) (filter-newer k (u ∷ ts) s.1 h)

more-take : (n : ℕ) (ts : List Transaction) → ltb n (length (take (suc n) ts)) ≡ ltb n (length ts)
more-take n [] = refl
more-take zero (t ∷ ts) = ground arith
more-take (suc n) (t ∷ ts) = ground (arith, more-take n ts)

take-suc : (n : ℕ) (ts : List Transaction) → ltb n (length ts) ≡ false → take (suc n) ts ≡ take n ts
take-suc zero [] h = refl
take-suc zero (t ∷ ts) h = ground arith
take-suc (suc n) [] h = refl
take-suc (suc n) (t ∷ ts) h = ap (λ (us : List Transaction). t ∷ us) (take-suc n ts (ground arith))

pub page_of-take :
    (n : ℕ) (ts : List Transaction)
    → ((page_of n (take (suc n) ts)).rows ≡ take n ts)
      × ((page_of n (take (suc n) ts)).next_cursor
          ≡ (if ltb n (length ts) then map_option cursor_of (last (take n ts)) else none))
unfolding page_of
page_of-take n ts = elim (Bool-cases (ltb n (length ts))) [
  | inl y ↦ rw (more-take n ts, y, take-take-suc n ts) (refl, refl)
  | inr f ↦ rw (more-take n ts, f) (take-suc n ts f, refl)
]
