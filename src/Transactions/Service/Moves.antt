-- ===== src/Transactions/Service/Moves.antt =====
-- What a transition does to the locked row, and what follows the update of the row.
use ledger_ops_api.Common.{◌≡◌, ◌&&◌, true, arith, false, ok, find, some, none, refl, if◌then◌else◌}
use ledger_ops_api.Database.Sql.{Session, when, pure}
use ledger_ops_api.Database.Tables.{
  TransactionStatus, Transaction, status_eq, succeeded, Database, reversed, pending, disputed,
  payment, TransactionType, refund,
}
use ledger_ops_api.Transactions.Service.{book_success, move, Outcome, updated}
use ledger_ops_api.Transactions.Booking.Effects.{PaymentBooked, book_payment_success-PaymentBooked}
use ledger_ops_api.Database.Rows.Updates.{status_eq→≡, transaction_update-Updated, Updated}
use ledger_ops_api.Database.Sql.Inversion.{bind-elim, when-elim, if-elim}
use ledger_ops_api.Database.Rows.{by_id}
use ledger_ops_api.Transactions.Booking.Returns.{
  RefundBooked, book_refund_success-RefundBooked, DisputeBooked,
  book_dispute_reversal-DisputeBooked,
}
use ledger_ops_api.Transactions.Booking.Dispute.{book_dispute_reversal}
use mathlib.Core.Path.{subst}

-- The bookings that follow the update, by the statuses of the move.
pub data Aftermath (s : Session) (row : Transaction) (status : TransactionStatus)
    (first : Transaction) (middle : Database) (t : Transaction) (d' : Database) : Type 0 where
  paid :
      status ≡ succeeded
      → row.status ≡ pending
      → row.type ≡ payment
      → t ≡ first
      → PaymentBooked first middle d'
      → Aftermath s row status first middle t d'
  paid_back :
      status ≡ succeeded
      → row.status ≡ pending
      → row.type ≡ refund
      → t ≡ first
      → RefundBooked s first middle d'
      → Aftermath s row status first middle t d'
  taken_back :
      status ≡ reversed
      → row.status ≡ disputed
      → DisputeBooked s first middle t d'
      → Aftermath s row status first middle t d'
  only_moved :
      (status_eq status succeeded && status_eq row.status pending) ≡ false
      → (status_eq status reversed && status_eq row.status disputed) ≡ false
      → t ≡ first
      → d' ≡ middle
      → Aftermath s row status first middle t d'

pub record Moved (s : Session) (row : Transaction) (status : TransactionStatus) (d : Database)
    (out : Outcome) (d' : Database) : Type 0 where
  pub result : Transaction
  pub old : Transaction
  pub first : Transaction
  pub middle : Database
  pub outcome : out ≡ updated result
  pub old_is : find (by_id row.id) d.transactions ≡ some old
  pub first_update :
      Updated s (record { status = some status; refunded_amount = none }) old d first middle
  pub aftermath : Aftermath s row status first middle result d'

both : (a b x y : TransactionStatus) → (status_eq a x && status_eq b y) ≡ true → (a ≡ x) × (b ≡ y)
both a b x y h =
    let p : status_eq a x ≡ true = ground arith in
    let q : status_eq b y ≡ true = ground arith in (status_eq→≡ a x p, status_eq→≡ b y q)

not-both :
    (row status : TransactionStatus)
    → status ≡ succeeded
    → (status_eq status reversed && status_eq row disputed) ≡ false
not-both row status e = ground arith

-- The first booking, for a payment or a refund that is confirmed.
after_success :
    (row : Transaction) (status : TransactionStatus) (first : Transaction) (s : Session)
    (middle : Database) {u : Unit {0}} {d' : Database}
    → status ≡ succeeded
    → row.status ≡ pending
    → book_success row.type first s middle ≡ ok (u, d')
    → Aftermath s row status first middle first d'
unfolding book_success
after_success row status first s middle {u} {d'} e p h = go row.type refl h
  where
    go :
        (k : TransactionType)
        → row.type ≡ k
        → book_success k first s middle ≡ ok (u, d')
        → Aftermath s row status first middle first d'
    go payment q r = paid e p q refl (book_payment_success-PaymentBooked first s middle r)
    go refund q r = paid_back e p q refl (book_refund_success-RefundBooked first s middle r)

finish_move :
    (row : Transaction) (status : TransactionStatus) (first : Transaction) (s : Session)
    (d₁ : Database) {u : Unit {0}} {last : Transaction} {d₂ d₃ d' : Database}
    → when
        (status_eq status succeeded && status_eq row.status pending)
        (book_success row.type first)
        s
        d₁
      ≡ ok (u, d₂)
    → (if status_eq status reversed && status_eq row.status disputed
          then book_dispute_reversal first
          else pure first)
        s d₂
      ≡ ok (last, d₃)
    → d₃ ≡ d'
    → Aftermath s row status first d₁ last d'
finish_move row status first s d₁ {u} {last} {d₂} {d₃} {d'} h₂ h₃ e =
    subst (λ (x : Database). Aftermath s row status first d₁ last x) e
      (when-elim _ _ s d₁ h₂
        (λ b w.
          let (p, q) = both status row.status succeeded pending b in
          let plain : ok (first, d₂) ≡ ok (last, d₃) = rw (not-both row.status status p) at h₃ in
          let k : d₂ ≡ d₃ = cc in
          let l : first ≡ last = cc in
          subst (λ (x : Database). Aftermath s row status first d₁ last x) k
            (subst (λ (x : Transaction). Aftermath s row status first d₁ x d₂) l
              (after_success row status first s d₁ p q w)))
        (λ b k.
          if-elim _ _ _ s d₂ h₃
            (λ c w.
              let (p, q) = both status row.status reversed disputed c in
              let w' : book_dispute_reversal first s d₁ ≡ ok (last, d₃) = rw k at w in
              taken_back p q (book_dispute_reversal-DisputeBooked first s d₁ w'))
            (λ c w. only_moved b c (cc) (cc))))

pub move-Moved :
    (row : Transaction) (status : TransactionStatus) (s : Session) (d : Database) {out : Outcome}
    {d' : Database}
    → move row status s d ≡ ok (out, d')
    → Moved s row status d out d'
unfolding move
move-Moved row status s d {out} {d'} h = bind-elim _ _ s d h λ first d₁ h₁ r₁.
    bind-elim _ _ s d₁ r₁ λ _ d₂ h₂ r₂. bind-elim _ _ s d₂ r₂ λ last d₃ h₃ r₃.
      let (old, found, up) = transaction_update-Updated row.id _ s d h₁ in
      record {
        result = last;
        old = old;
        first = first;
        middle = d₁;
        outcome = cc;
        old_is = found;
        first_update = up;
        aftermath = finish_move row status first s d₁ h₂ h₃ (cc);
      }
