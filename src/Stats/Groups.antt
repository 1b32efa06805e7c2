-- ===== src/Stats/Groups.antt =====
-- The groups by type and status, and what the loop over them adds up.
use ledger_ops_api.Common.{
  List, Bool, ℕ, ◌≡◌, ◌&&◌, ◌∷◌, ◌+◌, ◌∙◌, arith, [], refl, true, if◌then◌else◌, Bool-cases, inl,
  inr,
}
use ledger_ops_api.Database.Rows.{or_else}
use ledger_ops_api.Database.Rows.Updates.{status_eq→≡}
use ledger_ops_api.Stats.{
  Group, Totals, Tally, add_to, add_row, group_by, add_group, add_groups, count,
}
use ledger_ops_api.Database.Tables.{
  TransactionStatus, Transaction, status_eq, TransactionType, type_eq, payment,
}

type_eq→≡ : (a b : TransactionType) → type_eq a b ≡ true → a ≡ b
type_eq→≡ a b h = ground arith

-- A choice of groups, by their type and status, and the rows that are counted in them.
module _ (p : TransactionType → TransactionStatus → Bool) where
  abbrev pub counts_of : List Group → ℕ
  counts_of [] = 0
  counts_of (g ∷ gs) = (if p g.type g.status then g.count else 0) + counts_of gs

  counts_of-add_row :
      (t : Transaction) (gs : List Group)
      → counts_of (add_row t gs) ≡ (if p t.type t.status then 1 else 0) + counts_of gs
  unfolding add_row
  counts_of-add_row t [] = refl
  counts_of-add_row t (g ∷ gs) =
      elim (Bool-cases (type_eq g.type t.type && status_eq g.status t.status)) [
        | inl y ↦
            let k = type_eq→≡ g.type t.type (ground arith) in
            let s = status_eq→≡ g.status t.status (ground arith) in rw y (rw (k, s) (ground arith))
        | inr n ↦ let h = counts_of-add_row t gs in rw n (omega arith)
      ]

  pub counts_of-group_by :
      (ts : List Transaction)
      → counts_of (group_by ts) ≡ count (λ (t : Transaction). p t.type t.status) ts
  unfolding group_by count
  counts_of-group_by [] = refl
  counts_of-group_by (t ∷ ts) =
      counts_of-add_row t (group_by ts) ∙ ground (arith, counts_of-group_by ts)

abbrev pub any_type : TransactionStatus → TransactionType → TransactionStatus → Bool
any_type s type status = status_eq status s

abbrev pub payment_type : TransactionStatus → TransactionType → TransactionStatus → Bool
payment_type s type status = type_eq type payment && status_eq status s

add_to-or_else :
    (status : TransactionStatus) (n : ℕ) (counts : Tally) (s : TransactionStatus)
    → or_else (add_to status n counts s) 0
      ≡ or_else (counts s) 0 + (if status_eq status s then n else 0)
add_to-or_else status n counts s = elim (Bool-cases (status_eq status s)) [
  | inl y ↦ let e = status_eq→≡ status s y in rw y (rw e refl)
  | inr k ↦ rw k (omega arith)
]

add_group-payments :
    (acc : Totals) (g : Group) (s : TransactionStatus)
    → or_else ((add_group acc g).payments s) 0
      ≡ or_else (acc.payments s) 0 + (if payment_type s g.type g.status then g.count else 0)
unfolding add_group
add_group-payments acc g s = elim (Bool-cases (type_eq g.type payment)) [
  | inl y ↦ rw y (add_to-or_else g.status g.count acc.payments s)
  | inr n ↦ rw n (omega arith)
]

-- What the loop has added up.
pub add_groups-all :
    (s : TransactionStatus) (acc : Totals) (gs : List Group)
    → or_else ((add_groups acc gs).all s) 0 ≡ or_else (acc.all s) 0 + counts_of (any_type s) gs
unfolding add_groups add_group
add_groups-all s acc [] = omega arith
add_groups-all s acc (g ∷ gs) =
    let h = add_groups-all s (add_group acc g) gs in
    let k = add_to-or_else g.status g.count acc.all s in omega arith

pub add_groups-payments :
    (s : TransactionStatus) (acc : Totals) (gs : List Group)
    → or_else ((add_groups acc gs).payments s) 0
      ≡ or_else (acc.payments s) 0 + counts_of (payment_type s) gs
unfolding add_groups
add_groups-payments s acc [] = omega arith
add_groups-payments s acc (g ∷ gs) =
    let h = add_groups-payments s (add_group acc g) gs in
    let k = add_group-payments acc g s in omega arith

pub add_groups-total_transactions :
    (acc : Totals) (gs : List Group)
    → (add_groups acc gs).total_transactions ≡ acc.total_transactions + counts_of (λ k s. true) gs
unfolding add_groups add_group
add_groups-total_transactions acc [] = omega arith
add_groups-total_transactions acc (g ∷ gs) =
    let h = add_groups-total_transactions (add_group acc g) gs in omega arith

pub add_groups-total_payments :
    (acc : Totals) (gs : List Group)
    → (add_groups acc gs).total_payments
      ≡ acc.total_payments + counts_of (λ k s. type_eq k payment) gs
unfolding add_groups add_group
add_groups-total_payments acc [] = omega arith
add_groups-total_payments acc (g ∷ gs) =
    let h = add_groups-total_payments (add_group acc g) gs in ground arith
