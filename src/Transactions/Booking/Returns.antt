-- ===== src/Transactions/Booking/Returns.antt =====
-- What a confirmed refund and a lost dispute write, on the transactions and on the ledger.
use ledger_ops_api.Common.{
  ℕ, ◌≡◌, List, find, some, ◌+◌, ◌≤◌, ==_iff, ok, find_sound, ◌<◌, sym, none, ◌∙◌, ◌-◌, arith,
}
use ledger_ops_api.Database.Sql.{Session}
use ledger_ops_api.Transactions.Booking.Refund.{
  accumulate_refund, new_parent_status, book_refund_success,
}
use ledger_ops_api.Database.Tables.{Transaction, Database}
use ledger_ops_api.Database.Rows.{by_id, TransactionChange}
use ledger_ops_api.Database.Rows.Updates.{Updated, transaction_update-Updated}
use ledger_ops_api.Database.Sql.Inversion.{bind-elim, guard-eq-ok, or_throw-eq-ok}
use ledger_ops_api.Transactions.Booking.Effects.{ReturnBooked, book_return-ReturnBooked}
use ledger_ops_api.Transactions.Booking.Dispute.{book_dispute_reversal}
use mathlib.Core.Path.{subst}

-- The new state of the parent once the refund is added to what it had.
abbrev pub accumulation : Transaction → Transaction → TransactionChange
accumulation parent refund = record {
  status = some (new_parent_status (parent.refunded_amount + refund.amount) parent.amount);
  refunded_amount = some (parent.refunded_amount + refund.amount);
}

-- The parent of the refund takes the refund's amount, within its own; then the entry is written.
pub record RefundBooked (s : Session) (refund : Transaction) (d d' : Database) : Type 0 where
  pub parent_id : ℕ
  pub parent : Transaction
  pub saved : Transaction
  pub middle : Database
  pub has_parent : refund.parent_transaction_id ≡ some parent_id
  pub parent_is : find (by_id parent_id) d.transactions ≡ some parent
  pub within : parent.refunded_amount + refund.amount ≤ parent.amount
  pub accumulated : Updated s (accumulation parent refund) parent d saved middle
  pub returned : ReturnBooked refund refund.amount middle d'

pub find_by_own_id :
    (i : ℕ) (ts : List Transaction) {t : Transaction} → find (by_id i) ts ≡ some t → t.id ≡ i
find_by_own_id i ts {t} h = (==_iff t.id i).0 (find_sound (by_id i) ts h)

-- The update of the parent, in its own right.
pub record Accumulated (s : Session) (parent refund : Transaction) (d : Database) (d' : Database)
    : Type 0 where
  pub saved : Transaction
  pub within : parent.refunded_amount + refund.amount ≤ parent.amount
  pub accumulated : Updated s (accumulation parent refund) parent d saved d'

accumulate_refund-Accumulated :
    (parent refund : Transaction) (s : Session) (d : Database) {u : Unit {0}} {d' : Database}
    → find (by_id parent.id) d.transactions ≡ some parent
    → accumulate_refund parent refund s d ≡ ok (u, d')
    → Accumulated s parent refund d d'
unfolding accumulate_refund
accumulate_refund-Accumulated parent refund s d {u} {d'} known h = bind-elim _ _ s d h λ _ d₁ h₁ r₁.
    bind-elim _ _ s d₁ r₁ λ saved d₂ h₂ r₂.
      let (fits, k₁) = guard-eq-ok _ _ s d h₁ in
      let c = accumulation parent refund in
      let (old, found, up) = transaction_update-Updated parent.id c s d (rw k₁ at h₂) in
      let same : old ≡ parent = cc in
      let k₂ : d₂ ≡ d' = cc in
      record {
        saved = saved;
        within = ground arith;
        accumulated =
            subst (λ (x : Database). Updated s c parent d saved x) k₂
              (subst (λ (o : Transaction). Updated s c o d saved d₂) same up);
      }

pub book_refund_success-RefundBooked :
    (refund : Transaction) (s : Session) (d : Database) {u : Unit {0}} {d' : Database}
    → book_refund_success refund s d ≡ ok (u, d')
    → RefundBooked s refund d d'
unfolding book_refund_success
book_refund_success-RefundBooked refund s d {u} {d'} h = bind-elim _ _ s d h λ i d₁ h₁ r₁.
    bind-elim _ _ s d₁ r₁ λ ts d₂ h₂ r₂. bind-elim _ _ s d₂ r₂ λ parent d₃ h₃ r₃.
      bind-elim _ _ s d₃ r₃ λ _ d₄ h₄ r₄.
        let (has_parent, k₁) = or_throw-eq-ok _ _ s d h₁ in
        let k₂ : d₂ ≡ d = cc in
        let same : ts ≡ d.transactions = cc in
        let (found, k₃) = or_throw-eq-ok _ _ s d₂ h₃ in
        let keep : d₃ ≡ d = k₃ ∙ k₂ in
        let parent_is : find (by_id i) d.transactions ≡ some parent = rw same at found in
        let own = find_by_own_id i d.transactions parent_is in
        let a =
          accumulate_refund-Accumulated parent refund s d
            (subst (λ (k : ℕ). find (by_id k) d.transactions ≡ some parent) (sym own) parent_is)
            (rw keep at h₄) in
        record {
          parent_id = i;
          parent = parent;
          saved = a.saved;
          middle = d₄;
          has_parent = has_parent;
          parent_is = parent_is;
          within = a.within;
          accumulated = a.accumulated;
          returned = book_return-ReturnBooked refund refund.amount _ s d₄ r₄;
        }

-- A lost dispute takes back what was left of the payment.
pub record DisputeBooked (s : Session) (t : Transaction) (d : Database) (saved : Transaction)
    (d' : Database) : Type 0 where
  pub old : Transaction
  pub middle : Database
  pub open_remainder : t.refunded_amount < t.amount
  pub old_is : find (by_id t.id) d.transactions ≡ some old
  pub taken :
      Updated s (record { status = none; refunded_amount = some t.amount }) old d saved middle
  pub returned : ReturnBooked t (t.amount - t.refunded_amount) middle d'

pub book_dispute_reversal-DisputeBooked :
    (t : Transaction) (s : Session) (d : Database) {saved : Transaction} {d' : Database}
    → book_dispute_reversal t s d ≡ ok (saved, d')
    → DisputeBooked s t d saved d'
unfolding book_dispute_reversal
book_dispute_reversal-DisputeBooked t s d {saved} {d'} h = bind-elim _ _ s d h λ _ d₁ h₁ r₁.
    bind-elim _ _ s d₁ r₁ λ up d₂ h₂ r₂. bind-elim _ _ s d₂ r₂ λ _ d₃ h₃ r₃.
      let (left, k₁) = guard-eq-ok _ _ s d h₁ in
      let c : TransactionChange = record { status = none; refunded_amount = some t.amount } in
      let (old, found, taken) = transaction_update-Updated t.id c s d (rw k₁ at h₂) in
      let same : up ≡ saved = cc in
      let last : d₃ ≡ d' = cc in
      record {
        old = old;
        middle = d₂;
        open_remainder = ground arith;
        old_is = found;
        taken = subst (λ (x : Transaction). Updated s c old d x d₂) same taken;
        returned = book_return-ReturnBooked t (t.amount - t.refunded_amount) _ s d₂ (rw last at h₃);
      }
