-- ===== src/Transactions/Service/Disputes.antt =====
-- The loss of a dispute, as a transition.
use ledger_ops_api.Database.Sql.{Session, Env}
use ledger_ops_api.Common.{◌<◌, ◌-◌, none, String, ℕ, ◌≡◌, find, some, ok, arith, ◌∙◌, ap}
use ledger_ops_api.Database.Tables.{Transaction, TransactionStatus, Database, disputed, reversed}
use ledger_ops_api.Transactions.Service.{TransitionStatusDto, by_reference, transition}
use ledger_ops_api.Transactions.Service.Moves.{
  Moved, Aftermath, paid, paid_back, taken_back, only_moved,
}
use ledger_ops_api.Transactions.Booking.Returns.{DisputeBooked}
use ledger_ops_api.Database.Commit.Cases.{session_of}
use ledger_ops_api.Transactions.Service.Runs.{api_actor}
use ledger_ops_api.Transactions.Service.Response.{Moved-first, Moved-Responds, transition-Moved}
use ledger_ops_api.Database.Rows.{by_id}
use ledger_ops_api.Database.Rows.Updates.{Updated}
use ledger_ops_api.Database.Rows.Keys.{Keyed, find-by_id}
use ledger_ops_api.Transactions.Booking.Effects.{ReturnBooked}
use ledger_ops_api.Transactions.Service.{Outcome}
use mathlib.Core.Path.{subst}

Aftermath-reversal :
    (s : Session) (row : Transaction) (status : TransactionStatus) (first : Transaction)
    (middle : Database) (t : Transaction) (d' : Database)
    → row.status ≡ disputed
    → status ≡ reversed
    → Aftermath s row status first middle t d'
    → DisputeBooked s first middle t d'
Aftermath-reversal s row status first middle t d' p q (paid x y _ _ _) = cc
Aftermath-reversal s row status first middle t d' p q (paid_back x y _ _ _) = cc
Aftermath-reversal s row status first middle t d' p q (taken_back _ _ b) = b
Aftermath-reversal s row status first middle t d' p q (only_moved _ x _ _) = ground arith

-- A dispute that is lost: the row is marked, and what was left of it before the call is taken back.
pub record DisputeLost (s : Session) (row : Transaction) (d : Database) (t : Transaction)
    (d' : Database) : Type 0 where
  pub first : Transaction
  pub middle : Database
  pub marked :
      Updated s (record { status = some reversed; refunded_amount = none }) row d first middle
  pub booked : DisputeBooked s first middle t d'
  pub something_left : row.refunded_amount < row.amount
  pub reversed_row : t.status ≡ reversed
  pub whole : t.refunded_amount ≡ row.amount
  pub taken_back_amount : ReturnBooked first (row.amount - row.refunded_amount) booked.middle d'

Moved-reversal :
    (s : Session) (row : Transaction) (status : TransactionStatus) (d : Database) (out : Outcome)
    (d' : Database)
    → find (by_id row.id) d.transactions ≡ some row
    → row.status ≡ disputed
    → status ≡ reversed
    → (m : Moved s row status d out d') → DisputeLost s row d m.result d'
Moved-reversal s row status d out d' known p q m =
    let b = Aftermath-reversal s row status m.first m.middle m.result d' p q m.aftermath in
    let u =
      subst
        (λ (x : TransactionStatus).
          Updated s (record { status = some x; refunded_amount = none }) row d m.first m.middle)
        q (Moved-first s row status d out d' known m) in
    let responds = Moved-Responds s row status d out d' known m in
    let amount : m.first.amount ≡ row.amount = ap (λ (x : Transaction). x.amount) u.row in
    let before : m.first.refunded_amount ≡ row.refunded_amount =
      ap (λ (x : Transaction). x.refunded_amount) u.row in
    let all_back : m.result.refunded_amount ≡ m.first.amount =
      ap (λ (x : Transaction). x.refunded_amount) b.taken.row in
    let open_before = b.open_remainder in
    record {
      first = m.first;
      middle = m.middle;
      marked = u;
      booked = b;
      something_left = omega arith;
      reversed_row = responds.status_is ∙ q;
      whole = all_back ∙ amount;
      taken_back_amount =
          subst (λ (n : ℕ). ReturnBooked m.first n b.middle d') (omega arith) b.returned;
    }

-- A committed reversal of a disputed transaction first marks it, then raises its refunded amount to its whole amount, of which
-- something was left before the call, and writes the return of what was left then to the ledger.
pub transition_reverses :
    (reference : String) (dto : TransitionStatusDto) (v : ℕ) (env : Env) (d : Database)
    {row t : Transaction} {d' : Database}
    → Keyed d.transactions
    → find (by_reference reference) d.transactions ≡ some row
    → row.status ≡ disputed
    → dto.status ≡ reversed
    → transition reference dto v env d ≡ (ok t, d')
    → DisputeLost (session_of env (some (api_actor dto))) row d t d'
transition_reverses reference dto v env d {row} {t} {d'} keyed known p q h =
    let (old, out, found, version, m, is) = transition-Moved reference dto v env d h in
    let same : old ≡ row = cc in
    let stored = find-by_id (by_reference reference) d.transactions old keyed found in
    let c = Moved-reversal _ old dto.status d out d' stored (rw same p) q m in
    subst (λ (x : Transaction). DisputeLost (session_of env (some (api_actor dto))) row d x d') is
      (subst
        (λ (x : Transaction). DisputeLost (session_of env (some (api_actor dto))) x d m.result d')
        same c)
