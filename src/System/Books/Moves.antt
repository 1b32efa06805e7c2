-- ===== src/System/Books/Moves.antt =====
-- The bookings of a transition are what it makes due.
use ledger_ops_api.Common.{
  ℕ, ◌+◌, ◌-◌, ◌≡◌, ◌≢◌, arith, true, All-find, inl, inr, ◌∙◌, sym, ap, any, some, none, find,
}
use mathlib.Core.Path.{subst}
use ledger_ops_api.Database.Tables.{
  Database, Transaction, EntryDirection, payment, refund, pending, succeeded, disputed, reversed,
  TransactionStatus,
}
use ledger_ops_api.Database.Sql.{Session}
use ledger_ops_api.Database.Rows.{by_id, TransactionChange}
use ledger_ops_api.Database.Rows.Keys.{Stored, find-replace_ne, any_of_find, any-replace}
use ledger_ops_api.Database.Rows.Updates.{Updated}
use ledger_ops_api.System.Rows.{RowsWellFormed, RowsWellFormed-Written}
use ledger_ops_api.System.Books.Ledger.{Booked, only, Entry-Booked}
use ledger_ops_api.System.Books.Totals.{payment_postings-total, return_postings-total}
use ledger_ops_api.System.Books.Updates.{Updated-Booked_steady, Updated-Booked-only}
use ledger_ops_api.System.Refunds.Transitions.{Settled, first-Stored}
use ledger_ops_api.Transactions.Booking.Effects.{ReturnBooked, PaymentBooked}
use ledger_ops_api.Transactions.Booking.Returns.{RefundBooked, DisputeBooked, find_by_own_id}
use ledger_ops_api.System.Books.Transitions.{Updated-Booked_confirmed}
use ledger_ops_api.Transactions.Booking.Returns.{accumulation}
use ledger_ops_api.Database.Checks.Meaning.{transaction_checks-Sound}
use ledger_ops_api.Transactions.Booking.Refund.{new_parent_status}
use ledger_ops_api.System.Refunds.Confirmation.{
  new_parent_status-open, plain_by, new_parent_status-returned,
}
use ledger_ops_api.System.Refunds.Updates.{left_reversed, from_disputed}
use ledger_ops_api.Database.StateMachine.{transition_exists}
use ledger_ops_api.Transactions.Service.Moves.{Aftermath, paid, paid_back, taken_back, only_moved}

-- The new status of the parent of a refund, and that the parent was not reversed.
parent-returned :
    (s : Session) (r parent : Transaction) (d : Database) (saved : Transaction) (d' : Database)
    → Updated s (accumulation parent r) parent d saved d'
    → (saved.status ≢ succeeded) × (saved.status ≢ reversed) × (parent.status ≢ reversed)
parent-returned s r parent d saved d' u =
    let status : saved.status
        ≡ new_parent_status (parent.refunded_amount + r.amount) parent.amount =
      ap (λ (y : Transaction). y.status) u.row in
    let open_saved = new_parent_status-open (parent.refunded_amount + r.amount) parent.amount in
    (
      plain_by saved.status (rw status (new_parent_status-returned _ _)),
      (λ e. open_saved (sym status ∙ e)),
      (λ e. elim u.recorded [
        | inl (same, _) ↦ open_saved (sym status ∙ sym same ∙ e)
        | inr (x, _) ↦
            let n = left_reversed saved.status in
            let y : transition_exists reversed saved.status ≡ true = rw e at x in cc
      ]),
    )

-- What the ledger has booked is what is due, and refunds are accounted for.
pub record Accurate (side : EntryDirection) (d : Database) : Type 0 where
  pub settled : Settled d
  pub ledger : Booked side (λ _. 0) d

module _ (side : EntryDirection) (s : Session) (row : Transaction) (status : TransactionStatus)
    (d : Database) (first : Transaction) (middle : Database) (h : Stored d.transactions row)
    (u : Updated s (record { status = some status; refunded_amount = none }) row d first middle)
    (w : Settled d) (k : Booked side (λ _. 0) d) where
  abbrev c : TransactionChange
  c = record { status = some status; refunded_amount = none }

  first_status : first.status ≡ status
  first_status = ap (λ (y : Transaction). y.status) u.row

  first_type : first.type ≡ row.type
  first_type = ap (λ (y : Transaction). y.type) u.row

  first_amount : first.amount ≡ row.amount
  first_amount = ap (λ (y : Transaction). y.amount) u.row

  stored : Stored middle.transactions first
  stored = first-Stored s row status d first middle h u

  first_known : any (by_id first.id) middle.transactions ≡ true
  first_known = any_of_find _ middle.transactions first stored

  middle_rows : RowsWellFormed middle
  middle_rows = RowsWellFormed-Written.update s c row d first middle h u w.rows

  known_after :
      (e : TransactionChange) (old saved : Transaction) (next : Database)
      → Updated s e old middle saved next
      → any (by_id first.id) next.transactions ≡ true
  known_after e old saved next v =
      ap (λ (y : Database). any (by_id first.id) y.transactions) v.writes
      ∙ any-replace first.id saved middle.transactions
      ∙ first_known

  paid-Booked :
      (d' : Database)
      → status ≡ succeeded
      → row.status ≡ pending
      → row.type ≡ payment
      → PaymentBooked first middle d'
      → Booked side (λ _. 0) d'
  paid-Booked d' e p ty b =
      let st = first_status ∙ e in
      Entry-Booked side first.id first.amount b.entry _ middle d' b.about b.fresh first_known
        (payment_postings-total side first b.entry.id b.clearing.id b.payable.id b.fees b.fees_due)
        b.writes
        (Updated-Booked-only side s c row d first middle h u w.rows first.amount (λ x _ _. cc)
          (rw (st, p) (omega arith)) k)

  return-Booked :
      (amount : ℕ) (before d' : Database)
      → any (by_id first.id) before.transactions ≡ true
      → ReturnBooked first amount before d'
      → Booked side (only side first.id amount) before
      → Booked side (λ _. 0) d'
  return-Booked amount before d' here b =
      Entry-Booked side first.id amount b.entry _ before d' b.about b.fresh here
        (return_postings-total side first amount b.entry.id b.payable.id b.clearing.id) b.writes

  taken_back-Booked :
      (t : Transaction) (d' : Database)
      → status ≡ reversed
      → row.status ≡ disputed
      → DisputeBooked s first middle t d'
      → Booked side (λ _. 0) d'
  taken_back-Booked t d' e p b =
      let st = first_status ∙ e in
      let same : b.old ≡ first = let z = b.old_is in let y = stored in cc in
      let taken =
        subst
          (λ (x : Transaction).
            Updated s (record { status = none; refunded_amount = some first.amount }) x middle t
              b.middle)
          same b.taken in
      let kept : t.status ≡ first.status = ap (λ (y : Transaction). y.status) taken.row in
      let sound = transaction_checks-Sound row (All-find _ _ d.transactions w.rows.checked h) in
      let ty : row.type ≡ payment = ground (arith, sound.refund_status) in
      let (exact, _, _) = All-find _ _ d.transactions w.accounts h ty in
      let left = exact (λ x. cc) in
      let same_refunded : first.refunded_amount ≡ row.refunded_amount =
        ap (λ (y : Transaction). y.refunded_amount) u.row in
      let opened =
        Updated-Booked-only side s c row d first middle h u w.rows
          (first.amount - first.refunded_amount) (λ x _ _. cc)
          (rw (first_type, ty, st, p) (omega (arith, left, same_refunded, first_amount))) k in
      return-Booked (first.amount - first.refunded_amount) b.middle d'
        (known_after _ first t b.middle taken) b.returned
        (Updated-Booked_steady side s _ first middle t b.middle stored taken middle_rows
          (only side first.id (first.amount - first.refunded_amount)) (λ x _. cc)
          (λ x. sym kept ∙ x) opened)

  paid_back-Booked :
      (d' : Database)
      → status ≡ succeeded
      → row.status ≡ pending
      → row.type ≡ refund
      → RefundBooked s first middle d'
      → Booked side (λ _. 0) d'
  paid_back-Booked d' e p ty b =
      let st = first_status ∙ e in
      let own = find_by_own_id b.parent_id middle.transactions b.parent_is in
      let parent_stored : Stored middle.transactions b.parent =
        subst (λ i. find (by_id i) middle.transactions ≡ some b.parent) (sym own) b.parent_is in
      let a = b.accumulated in
      let returned = parent-returned s first b.parent middle b.saved b.middle a in
      let opened =
        Updated-Booked_confirmed side s c row d first middle h u w.rows ty p st
          (λ x stored_x n q.
            let here : x.id ≡ b.parent_id = let y = b.has_parent in cc in
            let found : find (by_id x.id) middle.transactions ≡ some x =
              ap (λ (y : Database). find (by_id x.id) y.transactions) u.writes
              ∙ find-replace_ne x.id first d.transactions n
              ∙ stored_x in
            let also : find (by_id x.id) middle.transactions ≡ some b.parent =
              rw here b.parent_is in
            let is : x ≡ b.parent = cc in rw is (returned.2))
          k in
      return-Booked first.amount b.middle d' (known_after _ b.parent b.saved b.middle a) b.returned
        (Updated-Booked_steady side s _ b.parent middle b.saved b.middle parent_stored a middle_rows
          (only side first.id first.amount) (λ _. returned.0) (λ x. absurd (returned.1 x)) opened)

  pub Aftermath-Booked :
      (t : Transaction) (d' : Database)
      → Aftermath s row status first middle t d'
      → Booked side (λ _. 0) d'
  Aftermath-Booked t d' (paid e p ty _ b) = paid-Booked d' e p ty b
  Aftermath-Booked t d' (paid_back e p ty _ b) = paid_back-Booked d' e p ty b
  Aftermath-Booked t d' (taken_back e p b) = taken_back-Booked t d' e p b
  Aftermath-Booked t d' (only_moved n m _ same) = rw same (
      Updated-Booked_steady side s c row d first middle h u w.rows (λ _. 0)
        (λ p x. let st = first_status in ground arith)
        (λ x. elim u.recorded [
          | inl (kept, _) ↦ kept ∙ x
          | inr (y, _) ↦
              let p = from_disputed row.status first.status x y in
              let st = first_status in ground arith
        ])
        k)
