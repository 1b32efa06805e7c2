-- ===== src/Transactions/Service/Refunds.antt =====
-- The confirmation of a pending refund, as a transition.
use ledger_ops_api.Database.Sql.{Session, Env}
use ledger_ops_api.Common.{◌≢◌, none, String, ℕ, ◌≡◌, find, some, ok, arith, sym, ◌∙◌, ap, List}
use ledger_ops_api.Database.Tables.{
  Transaction, TransactionStatus, Database, refund, pending, succeeded,
}
use ledger_ops_api.Transactions.Service.{TransitionStatusDto, by_reference, transition}
use ledger_ops_api.Transactions.Service.Moves.{
  Moved, Aftermath, paid, paid_back, taken_back, only_moved,
}
use ledger_ops_api.Transactions.Booking.Returns.{RefundBooked, find_by_own_id}
use ledger_ops_api.Database.Commit.Cases.{session_of}
use ledger_ops_api.Transactions.Service.Runs.{api_actor}
use ledger_ops_api.Transactions.Service.Response.{
  Updated-stored, parent_differs, Moved-first, transition-Moved,
}
use ledger_ops_api.Database.Rows.{by_id, replace}
use ledger_ops_api.Database.Rows.Updates.{Updated}
use ledger_ops_api.Database.Rows.Keys.{Keyed, find-replace_ne, find-by_id}
use ledger_ops_api.Database.Checks.Meaning.{transaction_checks-Sound}
use ledger_ops_api.Transactions.Service.{Outcome}
use mathlib.Core.Path.{subst}

Aftermath-refund :
    (s : Session) (row : Transaction) (status : TransactionStatus) (first : Transaction)
    (middle : Database) (t : Transaction) (d' : Database)
    → row.type ≡ refund
    → row.status ≡ pending
    → status ≡ succeeded
    → Aftermath s row status first middle t d'
    → (t ≡ first) × RefundBooked s first middle d'
Aftermath-refund s row status first middle t d' k p q (paid _ _ ty _ _) = cc
Aftermath-refund s row status first middle t d' k p q (paid_back _ _ _ e b) = (e, b)
Aftermath-refund s row status first middle t d' k p q (taken_back x y _) = cc
Aftermath-refund s row status first middle t d' k p q (only_moved x _ _ _) = ground arith

-- A refund that is confirmed: it is marked, and its parent, as it was before the call, takes its amount.
pub record RefundConfirmed (s : Session) (row : Transaction) (d : Database) (t : Transaction)
    (d' : Database) : Type 0 where
  pub middle : Database
  pub marked : Updated s (record { status = some succeeded; refunded_amount = none }) row d t middle
  pub booked : RefundBooked s t middle d'
  pub parent_before : find (by_id booked.parent_id) d.transactions ≡ some booked.parent

-- The update of the refund leaves its parent alone.
RefundBooked-before :
    (s : Session) (row : Transaction) (d : Database) (t : Transaction) (middle d' : Database)
    → row.type ≡ refund
    → find (by_id row.id) d.transactions ≡ some row
    → Updated s (record { status = some succeeded; refunded_amount = none }) row d t middle
    → (b : RefundBooked s t middle d') → find (by_id b.parent_id) d.transactions ≡ some b.parent
RefundBooked-before s row d t middle d' k known u b =
    let stored = Updated-stored s _ row d t middle known u in
    let ty : t.type ≡ refund = ap (λ (x : Transaction). x.type) u.row ∙ k in
    let differs = parent_differs s t middle d' ty (transaction_checks-Sound t u.checked) stored b in
    let own : b.saved.id ≡ b.parent.id = ap (λ (x : Transaction). x.id) b.accumulated.row in
    let i = find_by_own_id b.parent_id middle.transactions b.parent_is in
    let other : b.parent_id ≢ t.id = λ e. differs (sym e ∙ sym i ∙ sym own) in
    let w : middle.transactions ≡ replace t d.transactions =
      ap (λ (x : Database). x.transactions) u.writes in
    sym (find-replace_ne b.parent_id t d.transactions other)
    ∙ ap (λ (ts : List Transaction). find (by_id b.parent_id) ts) (sym w)
    ∙ b.parent_is

Moved-refund :
    (s : Session) (row : Transaction) (status : TransactionStatus) (d : Database) (out : Outcome)
    (d' : Database)
    → find (by_id row.id) d.transactions ≡ some row
    → row.type ≡ refund
    → row.status ≡ pending
    → status ≡ succeeded
    → (m : Moved s row status d out d') → RefundConfirmed s row d m.result d'
Moved-refund s row status d out d' known k p q m =
    let (e, b) = Aftermath-refund s row status m.first m.middle m.result d' k p q m.aftermath in
    let u =
      subst
        (λ (x : TransactionStatus).
          Updated s (record { status = some x; refunded_amount = none }) row d m.first m.middle)
        q (Moved-first s row status d out d' known m) in
    subst (λ (x : Transaction). RefundConfirmed s row d x d') (sym e)
      (record {
        middle = m.middle;
        marked = u;
        booked = b;
        parent_before = RefundBooked-before s row d m.first m.middle d' k known u b;
      })

-- A committed confirmation of a pending refund first marks the refund, then adds its amount to what its parent had refunded
-- before the call, which stays within the parent's amount, and writes the return of that amount to the ledger.
pub transition_refunds :
    (reference : String) (dto : TransitionStatusDto) (v : ℕ) (env : Env) (d : Database)
    {row t : Transaction} {d' : Database}
    → Keyed d.transactions
    → find (by_reference reference) d.transactions ≡ some row
    → row.type ≡ refund
    → row.status ≡ pending
    → dto.status ≡ succeeded
    → transition reference dto v env d ≡ (ok t, d')
    → RefundConfirmed (session_of env (some (api_actor dto))) row d t d'
transition_refunds reference dto v env d {row} {t} {d'} keyed known k p q h =
    let (old, out, found, version, m, is) = transition-Moved reference dto v env d h in
    let same : old ≡ row = cc in
    let stored = find-by_id (by_reference reference) d.transactions old keyed found in
    let c = Moved-refund _ old dto.status d out d' stored (rw same k) (rw same p) q m in
    subst (λ (x : Transaction). RefundConfirmed (session_of env (some (api_actor dto))) row d x d')
      is
      (subst
        (λ (x : Transaction).
          RefundConfirmed (session_of env (some (api_actor dto))) x d m.result d')
        same c)
