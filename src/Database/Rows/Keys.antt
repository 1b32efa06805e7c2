-- ===== src/Database/Rows/Keys.antt =====
-- The primary key: no two transactions have one id.
use ledger_ops_api.Common.{
  ℕ, ◌≡◌, List, Bool, any, find, ◌≢◌, ◌∷◌, some, arith, false, true, Bool-cases, inl, [], inr, refl,
  filter, ◌==◌,
}
use ledger_ops_api.Database.Tables.{Transaction}
use ledger_ops_api.Database.Rows.{replace, by_id}
use mathlib.Core.Option.{some-injective}

abbrev pub Keyed : List Transaction → Type 0
Keyed [] = Unit {0}
Keyed (t ∷ ts) = (any (by_id t.id) ts ≡ false) × Keyed ts

-- A row that is in the table is found by its id.
pub any_of_find :
    (p : Transaction → Bool) (ts : List Transaction) (t : Transaction)
    → find p ts ≡ some t
    → any (by_id t.id) ts ≡ true
any_of_find p [] t h = cc
any_of_find p (x ∷ ts) t h = ground (arith, any_of_find p ts t)

pub find-by_id :
    (p : Transaction → Bool) (ts : List Transaction) (t : Transaction)
    → Keyed ts
    → find p ts ≡ some t
    → find (by_id t.id) ts ≡ some t
find-by_id p [] t k h = cc
find-by_id p (x ∷ ts) t k h = elim (Bool-cases (p x)) [
  | inl y ↦ let e : some x ≡ some t = rw y at h in ground (arith, some-injective e)
  | inr n ↦
      let h' : find p ts ≡ some t = rw n at h in
      let a = any_of_find p ts t h' in ground (arith, find-by_id p ts t k.1 h')
]

pub any-replace :
    (i : ℕ) (t : Transaction) (ts : List Transaction)
    → any (by_id i) (replace t ts) ≡ any (by_id i) ts
unfolding replace
any-replace i t [] = refl
any-replace i t (x ∷ ts) = ground (arith, any-replace i t ts)

pub replace-Keyed : (t : Transaction) (ts : List Transaction) → Keyed ts → Keyed (replace t ts)
unfolding replace
replace-Keyed t [] k = tt
replace-Keyed t (x ∷ ts) k =
    ground (arith, any-replace x.id t ts, any-replace t.id t ts, replace-Keyed t ts k.1)

pub find-replace_self :
    (t : Transaction) (ts : List Transaction) {old : Transaction}
    → find (by_id t.id) ts ≡ some old
    → find (by_id t.id) (replace t ts) ≡ some t
unfolding replace
find-replace_self t [] h = cc
find-replace_self t (x ∷ ts) {old} h = ground (arith, find-replace_self t ts {old = old})

pub find-replace_ne :
    (i : ℕ) (t : Transaction) (ts : List Transaction)
    → i ≢ t.id
    → find (by_id i) (replace t ts) ≡ find (by_id i) ts
unfolding replace
find-replace_ne i t [] h = refl
find-replace_ne i t (x ∷ ts) h = ground (arith, find-replace_ne i t ts h)

any-filter :
    (i : ℕ) (p : Transaction → Bool) (ts : List Transaction)
    → any (by_id i) ts ≡ false
    → any (by_id i) (filter p ts) ≡ false
any-filter i p [] h = refl
any-filter i p (t ∷ ts) h = ground (arith, any-filter i p ts)

pub filter-Keyed : (p : Transaction → Bool) (ts : List Transaction) → Keyed ts → Keyed (filter p ts)
filter-Keyed p [] k = tt
filter-Keyed p (t ∷ ts) k = ground (arith, any-filter t.id p ts k.0, filter-Keyed p ts k.1)

-- A row that the table has.
abbrev pub Stored : List Transaction → Transaction → Type 0
Stored ts r = find (by_id r.id) ts ≡ some r

-- A stored row that has the id of the first one is the first one.
pub Stored-head :
    (t r : Transaction) (ts : List Transaction) → (t.id == r.id) ≡ true → Stored (t ∷ ts) r → t ≡ r
Stored-head t r ts y h = let f : find (by_id r.id) (t ∷ ts) ≡ some t = ground arith in cc

pub replace_absent :
    (t : Transaction) (ts : List Transaction) → any (by_id t.id) ts ≡ false → replace t ts ≡ ts
unfolding replace
replace_absent t [] h = refl
replace_absent t (x ∷ ts) h = ground (arith, replace_absent t ts)

pub Stored-tail :
    (t r : Transaction) (ts : List Transaction)
    → (t.id == r.id) ≡ false
    → Stored (t ∷ ts) r
    → Stored ts r
Stored-tail t r ts n h = ground arith
