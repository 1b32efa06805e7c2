-- ===== src/System/Refunds/Accounts.antt =====
-- The refunded amount of a payment is what its confirmed refunds add up to, while some of it may
-- still be owed.
use ledger_ops_api.Common.{ℕ, ◌+◌, ◌≡◌, ◌≢◌, ◌≤◌, List, All, All-map, All-find, arith, sym}
use ledger_ops_api.Database.Tables.{Transaction, payment, reversed}
use ledger_ops_api.Database.Rows.{replace}
use ledger_ops_api.Database.Rows.Keys.{Keyed, Stored}
use ledger_ops_api.System.Rows.{All-replace}
use ledger_ops_api.System.Refunds.Totals.{refunds_total, confirmed_amount, refunds_total-replace}
use mathlib.Core.Path.{subst}

-- A reversed payment is refunded in whole, without refunds for what was left of it.
abbrev pub Accounted : ℕ → ℕ → Transaction → Type 0
Accounted total owed t =
    t.type ≡ payment
    → (t.status ≢ reversed → t.refunded_amount + owed ≡ total)
      × (t.status ≡ reversed → t.refunded_amount ≡ t.amount)
      × (total ≤ t.refunded_amount + owed)

-- Every row of the table, with what is owed to each id.
abbrev pub Accounts : (ℕ → ℕ) → List Transaction → Type 0
Accounts owed ts = All (λ (t : Transaction). Accounted (refunds_total t.id ts) (owed t.id) t) ts

shifted :
    (x y o p a b : ℕ) (t : Transaction)
    → y + b ≡ x + a
    → o + a ≡ p + b
    → Accounted x o t
    → Accounted y p t
shifted x y o p a b t h k q e =
    let (exact, whole, within) = q e in ((λ n. omega (arith, exact n)), whole, omega (arith))

-- A row that changes, with what is owed because of it.
pub Accounts-replace :
    (owed owed' : ℕ → ℕ) (u r : Transaction) (ts : List Transaction)
    → u.id ≡ r.id
    → Keyed ts
    → Stored ts r
    → ((i : ℕ) → i ≢ u.id → owed i + confirmed_amount i u ≡ owed' i + confirmed_amount i r)
    → ((total : ℕ)
        → total + confirmed_amount r.id r ≡ refunds_total r.id ts + confirmed_amount r.id u
        → Accounted (refunds_total r.id ts) (owed r.id) r
        → Accounted total (owed' r.id) u)
    → Accounts owed ts
    → Accounts owed' (replace u ts)
Accounts-replace owed owed' u r ts same keyed h shift own a =
    let step = λ (i : ℕ). refunds_total-replace i u r ts same keyed h in
    All-replace (λ t. Accounted (refunds_total t.id (replace u ts)) (owed' t.id) t) u ts
      (subst (λ i. Accounted (refunds_total i (replace u ts)) (owed' i) u) (sym same)
        (own (refunds_total r.id (replace u ts)) (step r.id) (All-find _ _ ts a h)))
      (All-map _ _
        (λ t q n.
          shifted (refunds_total t.id ts) (refunds_total t.id (replace u ts)) (owed t.id)
            (owed' t.id) (confirmed_amount t.id u) (confirmed_amount t.id r) t (step t.id)
            (shift t.id n) q)
        ts a)
