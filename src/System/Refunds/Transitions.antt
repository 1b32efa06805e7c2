-- ===== src/System/Refunds/Transitions.antt =====
-- A transition, with its bookings, keeps the refunded amounts in step with the refunds.
use ledger_ops_api.Common.{ℕ, String, ◌≡◌, arith, some, none, ap, sym, ◌∙◌, find, inl, inr}
use mathlib.Core.Path.{subst}
use ledger_ops_api.Database.Tables.{
  Database, Transaction, TransactionStatus, reversed, refund, succeeded, disputed,
}
use ledger_ops_api.Database.Sql.{Session}
use ledger_ops_api.Database.Rows.{by_id}
use ledger_ops_api.Database.Rows.Keys.{Stored, find-by_id, find-replace_self}
use ledger_ops_api.Database.Rows.Updates.{Updated}
use ledger_ops_api.Database.Checks.Meaning.{transaction_checks-Sound}
use ledger_ops_api.Transactions.Booking.Effects.{ReturnBooked}
use ledger_ops_api.Transactions.Booking.Returns.{RefundBooked, DisputeBooked, find_by_own_id}
use ledger_ops_api.Transactions.Service.{TransitionStatusDto, transition, Outcome, by_reference}
use ledger_ops_api.Transactions.Service.Books.{capture-writes}
use ledger_ops_api.Transactions.Service.Runs.{transition_cases, after_commit-keeps}
use ledger_ops_api.Transactions.Service.Moves.{
  Moved, Aftermath, paid, paid_back, taken_back, only_moved,
}
use ledger_ops_api.System.Preservation.{CallPreserves}
use ledger_ops_api.System.Trail.{Unique-Keyed}
use ledger_ops_api.System.Refunds.Owing.{Owing}
use ledger_ops_api.System.Refunds.Totals.{confirmed_amount}
use ledger_ops_api.System.Refunds.Updates.{Updated-steady, from_disputed}
use ledger_ops_api.System.Refunds.Confirmation.{
  Updated-confirmed, Updated-accumulated, Updated-reversed,
}

-- Nothing is owed.
abbrev pub Settled : Database → Type 0
Settled = Owing (λ _. 0)

-- Writes to other tables.
pub Owing-same :
    (owed : ℕ → ℕ) (d d' : Database)
    → d'.transactions ≡ d.transactions
    → d'.history ≡ d.history
    → Owing owed d
    → Owing owed d'
Owing-same owed d d' t h w = record {
  rows = rw (t, h) w.rows;
  parents = rw t w.parents;
  accounts = rw t w.accounts;
}

ReturnBooked-Owing :
    (owed : ℕ → ℕ) (t : Transaction) (amount : ℕ) (d d' : Database)
    → ReturnBooked t amount d d'
    → Owing owed d
    → Owing owed d'
ReturnBooked-Owing owed t amount d d' b =
    Owing-same owed d d' (ap (λ (y : Database). y.transactions) b.writes)
      (ap (λ (y : Database). y.history) b.writes)

module _ (s : Session) (row : Transaction) (status : TransactionStatus) (d : Database)
    (first : Transaction) (middle : Database) (h : Stored d.transactions row)
    (u : Updated s
      (record { status = some status; refunded_amount = none })
      row
      d
      first
      middle) where
  first_status : first.status ≡ status
  first_status = ap (λ (y : Transaction). y.status) u.row

  pub first-Stored : Stored middle.transactions first
  first-Stored =
      let id : first.id ≡ row.id = ap (λ (y : Transaction). y.id) u.row in
      ap (λ (y : Database). find (by_id first.id) y.transactions) u.writes
      ∙ find-replace_self first d.transactions
          (subst (λ i. find (by_id i) d.transactions ≡ some row) (sym id) h)

  -- The parent takes what it is owed.
  RefundBooked-Settled :
      (d' : Database)
      → row.type ≡ refund
      → status ≡ succeeded
      → RefundBooked s first middle d'
      → Owing (λ i. confirmed_amount i first) middle
      → Settled d'
  RefundBooked-Settled d' k e b w =
      let type : first.type ≡ row.type = ap (λ (y : Transaction). y.type) u.row in
      let own = find_by_own_id b.parent_id middle.transactions b.parent_is in
      let sound = transaction_checks-Sound first u.checked in
      ReturnBooked-Owing (λ _. 0) first first.amount b.middle d' b.returned
        (Updated-accumulated first s b.parent middle b.saved b.middle
          (subst (λ i. find (by_id i) middle.transactions ≡ some b.parent) (sym own) b.parent_is)
          b.accumulated (type ∙ k) (first_status ∙ e) (rw own b.has_parent) sound.positive b.within
          w)

  DisputeBooked-Settled :
      (t : Transaction) (d' : Database)
      → row.status ≡ disputed
      → status ≡ reversed
      → DisputeBooked s first middle t d'
      → Settled d
      → Settled d'
  DisputeBooked-Settled t d' p e b w =
      let here = first-Stored in
      let same : b.old ≡ first = let z = b.old_is in cc in
      let taken =
        subst
          (λ (x : Transaction).
            Updated s (record { status = none; refunded_amount = some first.amount }) x middle t
              b.middle)
          same b.taken in
      let st : t.status ≡ first.status = ap (λ (y : Transaction). y.status) taken.row in
      let all_back : t.refunded_amount ≡ first.amount =
        ap (λ (y : Transaction). y.refunded_amount) taken.row in
      let amount : t.amount ≡ first.amount = ap (λ (y : Transaction). y.amount) taken.row in
      ReturnBooked-Owing (λ _. 0) first _ b.middle d' b.returned
        (Updated-reversed s _ _ row d first middle t b.middle h here u taken p
          (st ∙ first_status ∙ e) (all_back ∙ sym amount) w)

  Aftermath-Settled :
      (t : Transaction) (d' : Database)
      → Aftermath s row status first middle t d'
      → Settled d
      → Settled d'
  Aftermath-Settled t d' (paid e p ty _ b) w =
      Owing-same (λ _. 0) middle d' (ap (λ (y : Database). y.transactions) b.writes)
        (ap (λ (y : Database). y.history) b.writes)
        (Updated-steady s _ row d first middle h u (λ _. 0)
          (ap (λ (y : Transaction). y.refunded_amount) u.row) (λ k _ _. cc)
          (λ k. let st = first_status in absurd (cc)) w)
  Aftermath-Settled t d' (paid_back e p ty _ b) w =
      RefundBooked-Settled d' ty e b (Updated-confirmed s _ row d first middle h u ty p w)
  Aftermath-Settled t d' (taken_back e p b) w = DisputeBooked-Settled t d' p e b w
  Aftermath-Settled t d' (only_moved n m _ e) w = rw e (
      Updated-steady s _ row d first middle h u (λ _. 0)
        (ap (λ (y : Transaction). y.refunded_amount) u.row)
        (λ _ p x. let st = first_status in ground arith)
        (λ x. elim u.recorded [
          | inl (same, _) ↦ same ∙ x
          | inr (y, _) ↦
              let p = from_disputed row.status first.status x y in
              let st = first_status in ground arith
        ])
        w)

Moved-Settled :
    (s : Session) (row : Transaction) (status : TransactionStatus) (d : Database) (out : Outcome)
    (d' : Database)
    → Stored d.transactions row
    → Moved s row status d out d'
    → Settled d
    → Settled d'
Moved-Settled s row status d out d' h m w =
    let same : m.old ≡ row = let z = m.old_is in cc in
    let u =
      subst
        (λ (x : Transaction).
          Updated s (record { status = some status; refunded_amount = none }) x d m.first m.middle)
        same m.first_update in
    Aftermath-Settled s row status d m.first m.middle h u m.result d' m.aftermath w

pub transition-Settled :
    (reference : String) (dto : TransitionStatusDto) (v : ℕ)
    → CallPreserves Settled (transition reference dto v)
unfolding CallPreserves
transition-Settled reference dto v env d w = elim (transition_cases reference dto v env d) [
  | inl (e, h) ↦ rw h w
  | inr (out, d', ran, h) ↦
      rw (h, after_commit-keeps out env d')
        (elim ran.ran [
          | inl (late, c) ↦
              let x = (capture-writes ran.row dto _ d c).1 in
              Owing-same (λ _. 0) d d' (ap (λ (y : Database). y.transactions) x)
                (ap (λ (y : Database). y.history) x) w
          | inr (on_time, m) ↦
              Moved-Settled _ ran.row dto.status d out d'
                (find-by_id (by_reference reference) d.transactions ran.row
                  (Unique-Keyed d.transactions w.rows.unique) ran.found)
                m w
        ])
]
