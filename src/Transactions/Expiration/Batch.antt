-- ===== src/Transactions/Expiration/Batch.antt =====
-- What one batch of the expiration takes and leaves.
use ledger_ops_api.Database.Rows.{TransactionChange, replace, by_id}
use ledger_ops_api.Database.Sql.{Session}
use ledger_ops_api.Common.{
  List, insert_by, sort_by, ℕ, some, find, any, Bool, ◌≡◌, ◌∷◌, All, any-sort_by, false, take, true,
  none, arith, ◌∙◌, All-take, ◌+◌, suc, [], any-insert_by, Bool-cases, zero, refl, All-sort_by,
  ◌==◌, inl, All-filter, inr, sym, ◌≢◌, length, if◌then◌else◌, map_option,
}
use ledger_ops_api.Database.Tables.{Transaction, expired, pending, status_eq}
use ledger_ops_api.Transactions.Expiration.{
  overdue_batch, takeable, pending_count, expiration_batch_size, sooner,
}
use ledger_ops_api.Database.Rows.Keys.{
  Keyed, filter-Keyed, replace-Keyed, find-replace_self, find-replace_ne, Stored, Stored-head,
  replace_absent,
}
use ledger_ops_api.Database.Rows.Updates.{updated_row}

abbrev pub expire : TransactionChange
expire = record { status = some expired; refunded_amount = none }

-- The table after the updates of a batch, one after another.
abbrev pub replace_rows : Session → List Transaction → List Transaction → List Transaction
replace_rows s [] ts = ts
replace_rows s (r ∷ rs) ts = replace_rows s rs (replace (updated_row s expire r) ts)

Stored-cons :
    (t : Transaction) (ts us : List Transaction)
    → any (by_id t.id) us ≡ false
    → All (Stored ts) us
    → All (Stored (t ∷ ts)) us
Stored-cons t ts [] n h = tt
Stored-cons t ts (u ∷ us) n h = (ground arith, Stored-cons t ts us (ground arith) h.1)

pub Keyed-Stored : (ts : List Transaction) → Keyed ts → All (Stored ts) ts
Keyed-Stored [] k = tt
Keyed-Stored (t ∷ ts) k = (ground arith, Stored-cons t ts ts k.0 (Keyed-Stored ts k.1))

Keyed-insert_by :
    (before : Transaction → Transaction → Bool) (t : Transaction) (ts : List Transaction)
    → any (by_id t.id) ts ≡ false
    → Keyed ts
    → Keyed (insert_by before t ts)
unfolding insert_by
Keyed-insert_by before t [] n k = (refl, tt)
Keyed-insert_by before t (x ∷ ts) n k =
    ground (arith, any-insert_by before (by_id x.id) t ts, Keyed-insert_by before t ts)

Keyed-sort_by :
    (before : Transaction → Transaction → Bool) (ts : List Transaction)
    → Keyed ts
    → Keyed (sort_by before ts)
unfolding sort_by
Keyed-sort_by before [] k = tt
Keyed-sort_by before (t ∷ ts) k =
    Keyed-insert_by before t (sort_by before ts) (any-sort_by before (by_id t.id) ts ∙ k.0)
      (Keyed-sort_by before ts k.1)

any-take :
    (p : Transaction → Bool) (n : ℕ) (ts : List Transaction)
    → any p ts ≡ false
    → any p (take n ts) ≡ false
any-take p zero ts h = refl
any-take p (suc n) [] h = refl
any-take p (suc n) (t ∷ ts) h = ground (arith, any-take p n ts)

Keyed-take : (n : ℕ) (ts : List Transaction) → Keyed ts → Keyed (take n ts)
Keyed-take zero ts k = tt
Keyed-take (suc n) [] k = tt
Keyed-take (suc n) (t ∷ ts) k = (any-take (by_id t.id) n ts k.0, Keyed-take n ts k.1)

-- The rows of a batch are rows of the table that may be taken, each of them once.
pub overdue_batch-Stored :
    (locked : ℕ → Bool) (now : ℕ) (ts : List Transaction)
    → Keyed ts
    → All
        (λ (r : Transaction). Stored ts r × (takeable locked now r ≡ true))
        (overdue_batch locked now ts)
      × Keyed (overdue_batch locked now ts)
unfolding overdue_batch
overdue_batch-Stored locked now ts k = (
  All-take _ expiration_batch_size _ (
      All-sort_by sooner _ _ (All-filter (Stored ts) (takeable locked now) ts (Keyed-Stored ts k))),
  Keyed-take expiration_batch_size _
      (Keyed-sort_by sooner _ (filter-Keyed (takeable locked now) ts k)),
)

pub takeable-pending :
    (locked : ℕ → Bool) (now : ℕ) (t : Transaction)
    → takeable locked now t ≡ true
    → t.status ≡ pending
unfolding takeable
takeable-pending locked now t h = ground arith

pending_count-replace :
    (s : Session) (r : Transaction) (ts : List Transaction)
    → r.status ≡ pending
    → Keyed ts
    → Stored ts r
    → pending_count (replace (updated_row s expire r) ts) + 1 ≡ pending_count ts
unfolding pending_count replace
pending_count-replace s r [] p k h = cc
pending_count-replace s r (t ∷ ts) p k h = elim (Bool-cases (t.id == r.id)) [
  | inl y ↦
      let e = Stored-head t r ts y h in
      let absent : any (by_id r.id) ts ≡ false = ground arith in
      let same = replace_absent (updated_row s expire r) ts absent in
      let q : status_eq t.status pending ≡ true = ground arith in rw (y, q, same) (omega arith)
  | inr n ↦
      let f : find (by_id r.id) ts ≡ some r = ground arith in
      let rest = pending_count-replace s r ts p k.1 f in
      rw n (elim (Bool-cases (status_eq t.status pending)) [
        | inl y ↦ rw y (ground arith)
        | inr m ↦ rw m (ground arith)
      ])
]

-- The rows that a batch has yet to take are left alone.
pub others-Stored :
    (P : Transaction → Type 0) (s : Session) (r : Transaction) (ts rs : List Transaction)
    → any (by_id r.id) rs ≡ false
    → All (λ (x : Transaction). Stored ts x × P x) rs
    → All (λ (x : Transaction). Stored (replace (updated_row s expire r) ts) x × P x) rs
others-Stored P s r ts [] n h = tt
others-Stored P s r ts (x ∷ rs) n h =
    let other : x.id ≢ r.id = ground arith in
    (
      (find-replace_ne x.id (updated_row s expire r) ts other ∙ h.0.0, h.0.1),
      others-Stored P s r ts rs (ground arith) h.1,
    )

-- Each row of a batch is pending no more.
pub pending_count-replace_rows :
    (s : Session) (rs ts : List Transaction)
    → All (λ (r : Transaction). Stored ts r × (r.status ≡ pending)) rs
    → Keyed rs
    → Keyed ts
    → pending_count (replace_rows s rs ts) + length rs ≡ pending_count ts
pending_count-replace_rows s [] ts h k kt = omega arith
pending_count-replace_rows s (r ∷ rs) ts h k kt =
    let step = pending_count-replace s r ts h.0.1 kt h.0.0 in
    let rest =
      pending_count-replace_rows s rs (replace (updated_row s expire r) ts)
        (others-Stored _ s r ts rs k.0 h.1) k.1 (replace-Keyed (updated_row s expire r) ts kt) in
    omega arith

pub replace_rows-Keyed :
    (s : Session) (rs ts : List Transaction) → Keyed ts → Keyed (replace_rows s rs ts)
replace_rows-Keyed s [] ts k = k
replace_rows-Keyed s (r ∷ rs) ts k =
    replace_rows-Keyed s rs _ (replace-Keyed (updated_row s expire r) ts k)

-- A row outside the batch is what it was.
pub find-replace_rows :
    (s : Session) (i : ℕ) (rs ts : List Transaction)
    → any (by_id i) rs ≡ false
    → find (by_id i) (replace_rows s rs ts) ≡ find (by_id i) ts
find-replace_rows s i [] ts h = refl
find-replace_rows s i (r ∷ rs) ts h =
    let other : i ≢ r.id = ground arith in
    find-replace_rows s i rs _ (ground arith) ∙ find-replace_ne i (updated_row s expire r) ts other

-- A row of the batch becomes its own expired version, and another row stays.
pub replace_rows-expired :
    (s : Session) (i : ℕ) (P : Transaction → Type 0) (rs ts : List Transaction)
    → All (λ (r : Transaction). Stored ts r × P r) rs
    → Keyed rs
    → find (by_id i) (replace_rows s rs ts) ≡ (
        if any (by_id i) rs
        then map_option (updated_row s expire) (find (by_id i) ts)
        else find (by_id i) ts)
replace_rows-expired s i P [] ts h k = refl
replace_rows-expired s i P (r ∷ rs) ts h k = elim (Bool-cases (r.id == i)) [
  | inl y ↦
      let e : i ≡ r.id = ground arith in
      let absent : any (by_id i) rs ≡ false = rw e k.0 in
      let new : find (by_id i) (replace (updated_row s expire r) ts)
          ≡ some (updated_row s expire r) =
        rw e (find-replace_self (updated_row s expire r) ts h.0.0) in
      let old : find (by_id i) ts ≡ some r = rw e h.0.0 in
      rw (y, old) (find-replace_rows s i rs _ absent ∙ new)
  | inr n ↦
      let other : i ≢ r.id = ground arith in
      rw (n, sym (find-replace_ne i (updated_row s expire r) ts other))
        (replace_rows-expired s i P rs _ (others-Stored P s r ts rs k.0 h.1) k.1)
]
