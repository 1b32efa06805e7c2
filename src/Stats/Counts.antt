-- ===== src/Stats/Counts.antt =====
-- The sums over the groups against the counts on the table, and the subtraction of the window.
use ledger_ops_api.Stats.Groups.{
  counts_of-group_by, any_type, payment_type, add_groups-all, add_groups-payments,
  add_groups-total_transactions, add_groups-total_payments,
}
use ledger_ops_api.Common.{
  List, Bool, ℕ, ◌≡◌, ◌&&◌, ◌∷◌, length, ◌≤◌, ◌+◌, suc, ◌∙◌, arith, ap, [], refl, filter, Option,
  true, sym,
}
use ledger_ops_api.Database.Rows.{or_else}
use ledger_ops_api.Stats.{
  Tally, group_by, add_groups, no_totals, to_status_counts, count, StatusCount, all_statuses,
  compute, reconciliation, in_scope, settled, has_open_exception,
}
use ledger_ops_api.Database.Tables.{
  TransactionStatus, Transaction, initiated, pending, succeeded, failed, expired,
  partially_refunded, refunded, disputed, reversed, Database, status_eq, type_eq, payment,
}

abbrev pub sum_counts : List StatusCount → ℕ
sum_counts [] = 0
sum_counts (c ∷ cs) = c.count + sum_counts cs

-- The rows of each status, counted on the table.
abbrev pub counted : List Transaction → List TransactionStatus → List StatusCount
counted ts [] = []
counted ts (s ∷ ss) =
    record { status = s; count = count (λ (t : Transaction). status_eq t.status s) ts }
    ∷ counted ts ss

one_status :
    (s : TransactionStatus) (t : Transaction) (ts : List Transaction)
    → t.status ≡ s
    → sum_counts (counted (t ∷ ts) all_statuses) ≡ suc (sum_counts (counted ts all_statuses))
unfolding count
one_status initiated t ts h = ground arith
one_status pending t ts h = ground arith
one_status succeeded t ts h = ground arith
one_status failed t ts h = ground arith
one_status expired t ts h = ground arith
one_status partially_refunded t ts h = ground arith
one_status refunded t ts h = ground arith
one_status disputed t ts h = ground arith
one_status reversed t ts h = ground arith

sum_counts-counted : (ts : List Transaction) → sum_counts (counted ts all_statuses) ≡ length ts
unfolding count
sum_counts-counted [] = refl
sum_counts-counted (t ∷ ts) = one_status t.status t ts refl ∙ ap suc (sum_counts-counted ts)

count-filter :
    {A : Type 0} (p q : A → Bool) (xs : List A)
    → count q (filter p xs) ≡ count (λ (x : A). p x && q x) xs
unfolding count
count-filter p q [] = refl
count-filter p q (x ∷ xs) = ground (arith, count-filter p q xs)

count-true : {A : Type 0} (xs : List A) → count (λ (x : A). true) xs ≡ length xs
unfolding count
count-true [] = refl
count-true (x ∷ xs) = ap suc (count-true xs)

to_status_counts-counted :
    (counts : Tally) (ts : List Transaction) (ss : List TransactionStatus)
    → ((s : TransactionStatus)
        → or_else (counts s) 0 ≡ count (λ (t : Transaction). status_eq t.status s) ts)
    → to_status_counts counts ss ≡ counted ts ss
unfolding to_status_counts
to_status_counts-counted counts ts [] h = refl
to_status_counts-counted counts ts (s ∷ ss) h =
    let here = count (λ (t : Transaction). status_eq t.status s) ts in
    rw (h s) (
      ap (λ (cs : List StatusCount). record { status = s; count = here } ∷ cs)
        (to_status_counts-counted counts ts ss h))

zero_plus : (n : ℕ) → 0 + n ≡ n
zero_plus n = omega arith

-- The rows that the answer is about.
abbrev pub scoped : Option ℕ → Database → List Transaction
scoped merchant_id d = filter (in_scope merchant_id) d.transactions

abbrev pub scoped_payments : Option ℕ → Database → List Transaction
scoped_payments merchant_id d =
    filter (λ (t : Transaction). type_eq t.type payment) (scoped merchant_id d)

-- What is added up over the groups is what is counted on the table: the answer has, for each status, the transactions and the payments
-- in scope with that status, their totals are the numbers of the transactions and of the payments in scope, and each breakdown adds up to its total.
pub compute-totals :
    (started_at loaded_at merchant_id : Option ℕ) (d : Database)
    → ((compute started_at loaded_at merchant_id d).by_status
        ≡ counted (scoped merchant_id d) all_statuses)
      × ((compute started_at loaded_at merchant_id d).total_transactions
          ≡ length (scoped merchant_id d))
      × ((compute started_at loaded_at merchant_id d).payments.by_status
          ≡ counted (scoped_payments merchant_id d) all_statuses)
      × ((compute started_at loaded_at merchant_id d).payments.total
          ≡ length (scoped_payments merchant_id d))
      × (sum_counts (compute started_at loaded_at merchant_id d).by_status
          ≡ (compute started_at loaded_at merchant_id d).total_transactions)
      × (sum_counts (compute started_at loaded_at merchant_id d).payments.by_status
          ≡ (compute started_at loaded_at merchant_id d).payments.total)
unfolding compute count
compute-totals started_at loaded_at merchant_id d =
    let rows = scoped merchant_id d in
    let gs = group_by rows in
    let all =
      to_status_counts-counted (add_groups no_totals gs).all rows all_statuses
        (λ s. add_groups-all s no_totals gs ∙ zero_plus _ ∙ counts_of-group_by (any_type s) rows) in
    let paid =
      to_status_counts-counted (add_groups no_totals gs).payments (scoped_payments merchant_id d)
        all_statuses
        (λ s.
          add_groups-payments s no_totals gs
          ∙ zero_plus _
          ∙ counts_of-group_by (payment_type s) rows
          ∙ sym (
              count-filter (λ (t : Transaction). type_eq t.type payment)
                (λ (t : Transaction). status_eq t.status s) rows)) in
    let total : (add_groups no_totals gs).total_transactions ≡ length rows =
      add_groups-total_transactions no_totals gs
      ∙ zero_plus _
      ∙ counts_of-group_by (λ k s. true) rows
      ∙ count-true rows in
    let total_paid : (add_groups no_totals gs).total_payments
        ≡ length (scoped_payments merchant_id d) =
      add_groups-total_payments no_totals gs
      ∙ zero_plus _
      ∙ counts_of-group_by (λ k s. type_eq k payment) rows in
    (
      all,
      total,
      paid,
      total_paid,
      ap sum_counts all ∙ sum_counts-counted rows ∙ sym total,
      ap sum_counts paid ∙ sum_counts-counted (scoped_payments merchant_id d) ∙ sym total_paid,
    )

count_and : {A : Type 0} (p q : A → Bool) (xs : List A) → count (λ x. p x && q x) xs ≤ count p xs
unfolding count
count_and p q [] = omega arith
count_and p q (x ∷ xs) = ground (arith, count_and p q xs)

filter-length : {A : Type 0} (p : A → Bool) (xs : List A) → length (filter p xs) ≤ length xs
filter-length p [] = omega arith
filter-length p (x ∷ xs) = ground (arith, filter-length p xs)

-- The reconciled transactions of a window and those that have an open exception are together the settled ones: the
-- subtraction never stops at 0.
pub reconciliation-settled :
    (start end : ℕ) (d : Database)
    → (reconciliation start end d).reconciled_transactions
        + count
            (λ (t : Transaction). settled start end t && has_open_exception d.exceptions t)
            d.transactions
      ≡ (reconciliation start end d).settled_transactions
unfolding reconciliation
reconciliation-settled start end d =
    let h = count_and (settled start end) (has_open_exception d.exceptions) d.transactions in
    omega arith
