-- ===== src/System/Refunds/Confirmation.antt =====
-- A confirmed refund is owed to its parent until it is accumulated; a lost dispute refunds the rest.
use ledger_ops_api.Common.{
  ℕ, ◌+◌, ◌≡◌, ◌≢◌, ◌≤◌, ◌<◌, arith, true, false, refl, some, ap, sym, ◌∙◌, All-find, ◌==◌,
  if◌then◌else◌, List, Bool-cases, inl, inr, [], ◌∷◌,
}
use mathlib.Core.Path.{subst}
use ledger_ops_api.Database.Tables.{
  Database, Transaction, TransactionStatus, reversed, refund, pending, succeeded, disputed,
}
use ledger_ops_api.Database.Sql.{Session}
use ledger_ops_api.Database.Rows.{TransactionChange, replace}
use ledger_ops_api.Database.Rows.Keys.{Stored}
use ledger_ops_api.Database.Rows.Updates.{Updated}
use ledger_ops_api.Database.Checks.{is_plain_status}
use ledger_ops_api.Database.Checks.Meaning.{transaction_checks-Sound}
use ledger_ops_api.Transactions.Booking.Refund.{new_parent_status}
use ledger_ops_api.Transactions.Booking.Returns.{accumulation}
use ledger_ops_api.System.Refunds.Totals.{refunds_total, confirmed_amount}
use ledger_ops_api.System.Refunds.Accounts.{Accounts, Accounts-replace}
use ledger_ops_api.System.Rows.{RowsWellFormed-Written}
use ledger_ops_api.System.Refunds.Owing.{Owing, Updated-Owing, Updated-Parents}
use ledger_ops_api.System.Trail.{Unique-Keyed}

-- What a confirmed refund is to its parent, and to the others.
confirmed_amount-parent :
    (i : ℕ) (t : Transaction)
    → t.type ≡ refund
    → t.status ≡ succeeded
    → t.parent_transaction_id ≡ some i
    → confirmed_amount i t ≡ t.amount
confirmed_amount-parent i t k s p = rw (k, s, p) (ground arith)

confirmed_amount-other :
    (i j : ℕ) (t : Transaction)
    → t.parent_transaction_id ≡ some j
    → i ≢ j
    → confirmed_amount i t ≡ 0
confirmed_amount-other i j t p n = rw p (ground arith)

confirmed_amount-unconfirmed :
    (i : ℕ) (t : Transaction) → t.status ≢ succeeded → confirmed_amount i t ≡ 0
confirmed_amount-unconfirmed i t n = ground arith

pub new_parent_status-returned :
    (total amount : ℕ) → is_plain_status (new_parent_status total amount) ≡ false
unfolding new_parent_status
new_parent_status-returned total amount = ground arith

pub new_parent_status-open : (total amount : ℕ) → new_parent_status total amount ≢ reversed
unfolding new_parent_status
new_parent_status-open total amount e = ground arith

pub plain_by : (a : TransactionStatus) → is_plain_status a ≡ false → (a ≢ succeeded)
plain_by a h e = ground arith

module _ (s : Session) (c : TransactionChange) (old : Transaction) (d : Database) (t : Transaction)
    (d' : Database) (h : Stored d.transactions old) (u : Updated s c old d t d') where
  -- The confirmation of a refund.
  pub Updated-confirmed :
      old.type ≡ refund
      → old.status ≡ pending
      → Owing (λ _. 0) d
      → Owing (λ i. confirmed_amount i t) d'
  Updated-confirmed k p w =
      let type : t.type ≡ refund = ap (λ (y : Transaction). y.type) u.row ∙ k in
      Updated-Owing s c old d t d' h u (λ _. 0) (λ i. confirmed_amount i t)
        (λ i _. omega (arith, confirmed_amount-unconfirmed i old (λ e. cc)))
        (λ total e q x. absurd (cc)) w

-- The parent takes the amount of the refund that it is owed.
pub Updated-accumulated :
    (r : Transaction) (s : Session) (parent : Transaction) (d : Database) (saved : Transaction)
    (d' : Database)
    → Stored d.transactions parent
    → Updated s (accumulation parent r) parent d saved d'
    → r.type ≡ refund
    → r.status ≡ succeeded
    → r.parent_transaction_id ≡ some parent.id
    → 0 < r.amount
    → parent.refunded_amount + r.amount ≤ parent.amount
    → Owing (λ i. confirmed_amount i r) d
    → Owing (λ _. 0) d'
Updated-accumulated r s parent d saved d' h u k st p pos fits w =
    let amount : saved.amount ≡ parent.amount = ap (λ (y : Transaction). y.amount) u.row in
    let id : saved.id ≡ parent.id = ap (λ (y : Transaction). y.id) u.row in
    let type : saved.type ≡ parent.type = ap (λ (y : Transaction). y.type) u.row in
    let taken : saved.refunded_amount ≡ parent.refunded_amount + r.amount =
      ap (λ (y : Transaction). y.refunded_amount) u.row in
    let status : saved.status
        ≡ new_parent_status (parent.refunded_amount + r.amount) parent.amount =
      ap (λ (y : Transaction). y.status) u.row in
    let returned : is_plain_status saved.status ≡ false =
      rw status (new_parent_status-returned _ _) in
    let sound = transaction_checks-Sound saved u.checked in
    let not_refund : parent.type ≢ refund = λ e. let y = sound.refund_status (type ∙ e) in cc in
    let was : (i : ℕ) → confirmed_amount i parent ≡ 0 = λ i. ground arith in
    let now : (i : ℕ) → confirmed_amount i saved ≡ 0 =
      λ i. ground (arith, plain_by saved.status returned) in
    let due = confirmed_amount-parent parent.id r k st p in
    Updated-Owing s (accumulation parent r) parent d saved d' h u (λ i. confirmed_amount i r)
      (λ _. 0)
      (λ i n.
        omega (arith, was i, now i, confirmed_amount-other i parent.id r p (λ e. n (e ∙ sym id))))
      (λ total e q x.
        let (exact, whole, within) = q (sym type ∙ x) in
        let open_parent : parent.status ≢ reversed = λ y. let z = whole y in absurd (omega arith) in
        let is : total ≡ refunds_total parent.id d.transactions =
          omega (arith, e, was parent.id, now parent.id) in
        let before = exact open_parent in
        (
          (λ _. omega arith),
          (λ y. absurd (new_parent_status-open _ _ (sym status ∙ y))),
          omega arith,
        ))
      w

replace-replace :
    (u v : Transaction) (ts : List Transaction)
    → u.id ≡ v.id
    → replace u (replace v ts) ≡ replace u ts
unfolding replace
replace-replace u v [] e = refl
replace-replace u v (t ∷ ts) e = elim (Bool-cases (t.id == v.id)) [
  | inl y ↦
      let z : (t.id == u.id) ≡ true = ground arith in
      let x : (v.id == u.id) ≡ true = ground arith in
      rw (y, x, z) (ap (λ (xs : List Transaction). u ∷ xs) (replace-replace u v ts e))
  | inr n ↦ rw n (
      ap (λ (xs : List Transaction). (if t.id == u.id then u else t) ∷ xs)
        (replace-replace u v ts e))
]

-- A lost dispute: the row is first marked, then refunded in whole.
pub Updated-reversed :
    (s : Session) (c e : TransactionChange) (old : Transaction) (d : Database) (first : Transaction)
    (d₁ : Database) (saved : Transaction) (d' : Database)
    → Stored d.transactions old
    → Stored d₁.transactions first
    → Updated s c old d first d₁
    → Updated s e first d₁ saved d'
    → old.status ≡ disputed
    → saved.status ≡ reversed
    → saved.refunded_amount ≡ saved.amount
    → Owing (λ _. 0) d
    → Owing (λ _. 0) d'
Updated-reversed s c e old d first d₁ saved d' h h₁ u v p q a w =
    let keyed = Unique-Keyed d.transactions w.rows.unique in
    let id : saved.id ≡ first.id = ap (λ (y : Transaction). y.id) v.row in
    let id' : first.id ≡ old.id = ap (λ (y : Transaction). y.id) u.row in
    let type : saved.type ≡ old.type =
      ap (λ (y : Transaction). y.type) v.row ∙ ap (λ (y : Transaction). y.type) u.row in
    let amount : saved.amount ≡ old.amount =
      ap (λ (y : Transaction). y.amount) v.row ∙ ap (λ (y : Transaction). y.amount) u.row in
    let was = λ (i : ℕ). confirmed_amount-unconfirmed i old (λ x. cc) in
    let now = λ (i : ℕ). confirmed_amount-unconfirmed i saved (λ x. cc) in
    let sound = transaction_checks-Sound old (All-find _ _ d.transactions w.rows.checked h) in
    let is : d'.transactions ≡ replace saved d.transactions =
      ap (λ (x : Database). x.transactions) v.writes
      ∙ ap (λ (x : Database). replace saved x.transactions) u.writes
      ∙ replace-replace saved first d.transactions id in
    record {
      rows =
          RowsWellFormed-Written.update s e first d₁ saved d' h₁ v
            (RowsWellFormed-Written.update s c old d first d₁ h u w.rows);
      parents =
          Updated-Parents s e first d₁ saved d' h₁ v
            (Updated-Parents s c old d first d₁ h u w.parents);
      accounts = subst (Accounts (λ _. 0)) (sym is) (
          Accounts-replace (λ _. 0) (λ _. 0) saved old d.transactions (id ∙ id') keyed h
            (λ i n. omega (arith, was i, now i))
            (λ total y k x.
              let (exact, whole, within) = k (sym type ∙ x) in
              let same : total ≡ refunds_total old.id d.transactions =
                omega (arith, y, was old.id, now old.id) in
              let bound = sound.within in ((λ n. absurd (n q)), (λ _. a), omega arith))
            w.accounts);
    }
