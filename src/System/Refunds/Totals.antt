-- ===== src/System/Refunds/Totals.antt =====
-- What the confirmed refunds of a payment add up to.
use ledger_ops_api.Common.{
  ℕ, ◌+◌, ◌≡◌, List, [], ◌∷◌, Bool, ◌&&◌, if◌then◌else◌, option_eq, ◌==◌, some, Bool-cases, inl,
  inr, arith, true, false, refl, any, All, none, Option,
}
use ledger_ops_api.Database.Tables.{Transaction, type_eq, refund, status_eq, succeeded, payment}
use ledger_ops_api.Database.Rows.{replace, by_id, parent_known}
use ledger_ops_api.Database.Rows.Keys.{Keyed, Stored, Stored-head, Stored-tail, replace_absent}

-- A refund of this payment that is confirmed.
abbrev pub confirms : ℕ → Transaction → Bool
confirms i t =
    type_eq t.type refund
    && status_eq t.status succeeded
    && option_eq ◌==◌ t.parent_transaction_id (some i)

abbrev pub confirmed_amount : ℕ → Transaction → ℕ
confirmed_amount i t = if confirms i t then t.amount else 0

abbrev pub refunds_total : ℕ → List Transaction → ℕ
refunds_total i [] = 0
refunds_total i (t ∷ ts) = confirmed_amount i t + refunds_total i ts

pub confirmed_amount-payment :
    (i : ℕ) (t : Transaction) → t.type ≡ payment → confirmed_amount i t ≡ 0
confirmed_amount-payment i t h = rw h refl

pub refunds_total-replace :
    (i : ℕ) (u r : Transaction) (ts : List Transaction)
    → u.id ≡ r.id
    → Keyed ts
    → Stored ts r
    → refunds_total i (replace u ts) + confirmed_amount i r
      ≡ refunds_total i ts + confirmed_amount i u
unfolding replace
refunds_total-replace i u r [] k keyed h = cc
refunds_total-replace i u r (t ∷ ts) k keyed h = elim (Bool-cases (t.id == u.id)) [
  | inl y ↦
      let e = Stored-head t r ts (rw k at y) h in
      let same : u.id ≡ t.id = ground arith in
      rw (y, replace_absent u ts (rw same keyed.0), e) (omega arith)
  | inr n ↦
      let f = Stored-tail t r ts (rw k at n) h in
      let rest = refunds_total-replace i u r ts k keyed.1 f in rw n (omega arith)
]

pub parent-other :
    (i : ℕ) (o : Option ℕ) (ts : List Transaction)
    → any (by_id i) ts ≡ false
    → parent_known o ts ≡ true
    → option_eq ◌==◌ o (some i) ≡ false
parent-other i none ts a k = refl
parent-other i (some j) ts a k = elim (Bool-cases (j == i)) [
  | inl y ↦ let e : j ≡ i = ground arith in let k' : any (by_id i) ts ≡ true = rw⁻¹ e k in cc
  | inr n ↦ n
]

-- A row that is not there has no refunds.
pub refunds_total-absent :
    (i : ℕ) (us ts : List Transaction)
    → any (by_id i) us ≡ false
    → All (λ (t : Transaction). parent_known t.parent_transaction_id us ≡ true) ts
    → refunds_total i ts ≡ 0
refunds_total-absent i us [] a k = refl
refunds_total-absent i us (t ∷ ts) a k =
    let o = parent-other i t.parent_transaction_id us a k.0 in
    ground (arith, refunds_total-absent i us ts a k.1)
