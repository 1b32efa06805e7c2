-- ===== src/Transactions/Service/Response.antt =====
-- The row that a transition returns.
use ledger_ops_api.Common.{
  ℕ, ◌≡◌, find, some, ap, ◌≢◌, sym, ◌∙◌, List, ◌+◌, arith, String, ◌⊎◌, ◌≤◌, true, ◌<◌, none, inl,
  ok, inr,
}
use ledger_ops_api.Database.Sql.{Session, Env}
use ledger_ops_api.Database.Rows.{TransactionChange, by_id, replace}
use ledger_ops_api.Database.Tables.{
  Transaction, Database, refund, TransactionStatus, TransactionStatusHistory,
}
use ledger_ops_api.Database.Checks.Meaning.{Sound, transaction_checks-Sound}
use ledger_ops_api.Database.Rows.Updates.{Updated, Recorded}
use ledger_ops_api.Transactions.Booking.Returns.{RefundBooked, find_by_own_id}
use mathlib.Core.Path.{subst}
use ledger_ops_api.Database.Rows.Keys.{find-replace_self, Keyed, find-replace_ne, find-by_id}
use ledger_ops_api.Transactions.Service.Moves.{
  Aftermath, Moved, paid, paid_back, taken_back, only_moved,
}
use ledger_ops_api.Transactions.Service.{
  Outcome, TransitionStatusDto, transition, by_reference, after_commit, updated, reconciliation,
}
use ledger_ops_api.Database.StateMachine.{transition_exists}
use native.Mathlib.Nat.{le_refl}
use ledger_ops_api.Transactions.Service.Runs.{transition_cases, api_actor}
use ledger_ops_api.Database.Commit.Cases.{session_of}
use ledger_ops_api.Transactions.Service.Books.{capture-writes}

pub Updated-stored :
    (s : Session) (c : TransactionChange) (old : Transaction) (d : Database) (t : Transaction)
    (d' : Database)
    → find (by_id old.id) d.transactions ≡ some old
    → Updated s c old d t d'
    → find (by_id t.id) d'.transactions ≡ some t
Updated-stored s c old d t d' known u =
    let same : t.id ≡ old.id = ap (λ (x : Transaction). x.id) u.row in
    let h : find (by_id t.id) d.transactions ≡ some old =
      subst (λ (i : ℕ). find (by_id i) d.transactions ≡ some old) (sym same) known in
    let r = find-replace_self t d.transactions h in
    subst (λ (ts : List Transaction). find (by_id t.id) ts ≡ some t)
      (sym (ap (λ (x : Database). x.transactions) u.writes)) r

-- A refund is not its own parent: an accumulated refund is refused on a row of type REFUND.
pub parent_differs :
    (s : Session) (first : Transaction) (middle : Database) (d' : Database)
    → first.type ≡ refund
    → Sound first
    → find (by_id first.id) middle.transactions ≡ some first
    → (b : RefundBooked s first middle d') → first.id ≢ b.saved.id
parent_differs s first middle d' e ok_row known b same =
    let sound = transaction_checks-Sound b.saved b.accumulated.checked in
    let own : b.saved.id ≡ b.parent.id = ap (λ (x : Transaction). x.id) b.accumulated.row in
    let i : b.parent.id ≡ b.parent_id =
      find_by_own_id b.parent_id middle.transactions b.parent_is in
    let p : find (by_id first.id) middle.transactions ≡ some b.parent =
      subst (λ (k : ℕ). find (by_id k) middle.transactions ≡ some b.parent) (sym (same ∙ own ∙ i))
        b.parent_is in
    let q : first ≡ b.parent = cc in
    let k : b.saved.type ≡ refund =
      ap (λ (x : Transaction). x.type) b.accumulated.row
      ∙ ap (λ (x : Transaction). x.type) (sym q)
      ∙ e in
    let n : b.saved.refunded_amount ≡ b.parent.refunded_amount + first.amount =
      ap (λ (x : Transaction). x.refunded_amount) b.accumulated.row in
    omega (arith, sound.refund_plain k, ok_row.positive)

-- What a committed move says of the row that it returns.
pub record Responds (row : Transaction) (status : TransactionStatus) (t : Transaction)
    (d' : Database) : Type 0 where
  pub same_row : t.id ≡ row.id
  pub status_is : t.status ≡ status
  pub allowed : (row.status ≡ status) ⊎ (transition_exists row.status status ≡ true)
  pub newer : row.version < t.version
  pub stored : find (by_id t.id) d'.transactions ≡ some t

Recorded-allowed :
    (s : Session) (old t : Transaction) {hs hs' : List TransactionStatusHistory}
    → Recorded s old t hs hs'
    → (old.status ≡ t.status) ⊎ (transition_exists old.status t.status ≡ true)
Recorded-allowed s old t (inl (e, _)) = inl e
Recorded-allowed s old t (inr (e, _)) = inr e

module _ (s : Session) (row : Transaction) (status : TransactionStatus) (first : Transaction)
    (middle : Database) where
  Aftermath-stored :
      (t : Transaction) (d' : Database)
      → first.type ≡ row.type
      → first.status ≡ status
      → Sound first
      → find (by_id first.id) middle.transactions ≡ some first
      → Aftermath s row status first middle t d'
      → (t.id ≡ first.id)
        × (t.status ≡ first.status)
        × (first.version ≤ t.version)
        × (find (by_id t.id) d'.transactions ≡ some t)
  Aftermath-stored t d' k e sound known (paid _ _ _ same b) =
      (cc, cc, rw same (le_refl first.version), rw (same, b.writes) known)
  Aftermath-stored t d' k e sound known (paid_back _ _ r same b) =
      let differs = parent_differs s first middle d' (k ∙ r) sound known b in
      let w : d'.transactions ≡ replace b.saved middle.transactions =
        ap (λ (x : Database). x.transactions) b.returned.writes
        ∙ ap (λ (x : Database). x.transactions) b.accumulated.writes in
      (
        cc,
        cc,
        rw same (le_refl first.version),
        rw (same, w) (find-replace_ne first.id b.saved middle.transactions differs ∙ known),
      )
  Aftermath-stored t d' k e sound known (taken_back _ _ b) =
      let o : first ≡ b.old = cc in
      let i : t.id ≡ b.old.id = ap (λ (x : Transaction). x.id) b.taken.row in
      let st : t.status ≡ b.old.status = ap (λ (x : Transaction). x.status) b.taken.row in
      let v : t.version ≡ b.old.version + 1 = ap (λ (x : Transaction). x.version) b.taken.row in
      let own : find (by_id b.old.id) middle.transactions ≡ some b.old =
        subst (λ (x : Transaction). find (by_id x.id) middle.transactions ≡ some x) o known in
      let r = Updated-stored s _ b.old middle t b.middle own b.taken in
      let w : d'.transactions ≡ b.middle.transactions =
        ap (λ (x : Database). x.transactions) b.returned.writes in
      let vo : first.version ≡ b.old.version = ap (λ (x : Transaction). x.version) o in
      (
        i ∙ ap (λ (x : Transaction). x.id) (sym o),
        st ∙ ap (λ (x : Transaction). x.status) (sym o),
        omega arith,
        rw w r,
      )
  Aftermath-stored t d' k e sound known (only_moved _ _ same w) =
      (cc, cc, rw same (le_refl first.version), rw (same, w) known)

-- The first update of a move, on the row that was read.
pub Moved-first :
    (s : Session) (row : Transaction) (status : TransactionStatus) (d : Database) (out : Outcome)
    (d' : Database)
    → find (by_id row.id) d.transactions ≡ some row
    → (m : Moved s row status d out d')
    → Updated s (record { status = some status; refunded_amount = none }) row d m.first m.middle
Moved-first s row status d out d' known m =
    let found_old = m.old_is in
    let o : m.old ≡ row = cc in
    subst
      (λ (x : Transaction).
        Updated s (record { status = some status; refunded_amount = none }) x d m.first m.middle)
      o m.first_update

pub Moved-Responds :
    (s : Session) (row : Transaction) (status : TransactionStatus) (d : Database) (out : Outcome)
    (d' : Database)
    → find (by_id row.id) d.transactions ≡ some row
    → (m : Moved s row status d out d') → Responds row status m.result d'
Moved-Responds s row status d out d' known m =
    let u = Moved-first s row status d out d' known m in
    let stored = Updated-stored s _ row d m.first m.middle known u in
    let st : m.first.status ≡ status = ap (λ (x : Transaction). x.status) u.row in
    let ty : m.first.type ≡ row.type = ap (λ (x : Transaction). x.type) u.row in
    let i : m.first.id ≡ row.id = ap (λ (x : Transaction). x.id) u.row in
    let v : m.first.version ≡ row.version + 1 = ap (λ (x : Transaction). x.version) u.row in
    let (ti, ts, tv, found) =
      Aftermath-stored s row status m.first m.middle m.result d' ty st
        (transaction_checks-Sound m.first u.checked) stored m.aftermath in
    let al = Recorded-allowed s row m.first u.recorded in
    record {
      same_row = ti ∙ i;
      status_is = ts ∙ st;
      allowed =
          subst
            (λ (x : TransactionStatus). (row.status ≡ x) ⊎ (transition_exists row.status x ≡ true))
            st al;
      newer = omega arith;
      stored = found;
    }

pub after_commit-eq-ok :
    (out : Outcome) (env : Env) (d : Database) {t : Transaction} {d' : Database}
    → after_commit out env d ≡ (ok t, d')
    → (out ≡ updated t) × (d ≡ d')
unfolding after_commit
after_commit-eq-ok (updated x) env d h = (cc, cc)
after_commit-eq-ok (reconciliation i) env d h = cc

-- A transition that returns has found its row at the expected version, and moved it.
pub transition-Moved :
    (reference : String) (dto : TransitionStatusDto) (v : ℕ) (env : Env) (d : Database)
    {t : Transaction} {d' : Database}
    → transition reference dto v env d ≡ (ok t, d')
    → (row : Transaction) × (out : Outcome) × (find (by_reference reference) d.transactions
        ≡ some row)
      × (row.version ≡ v)
      × (m : Moved (session_of env (some (api_actor dto))) row dto.status d out d') × (m.result ≡ t)
transition-Moved reference dto v env d {t} {d'} h = elim (transition_cases reference dto v env d) [
  | inl (e, w) ↦ cc
  | inr (out, d₁, ran, w) ↦
      let (is, k) = after_commit-eq-ok out env d₁ (sym w ∙ h) in
      elim ran.ran [
        | inl (late, c) ↦ let (other, _) = capture-writes ran.row dto _ d c in cc
        | inr (on_time, m) ↦
            let named = m.outcome in
            let same : m.result ≡ t = cc in
            subst
              (λ (x : Database).
                (row : Transaction) × (o : Outcome) × (find (by_reference reference) d.transactions
                  ≡ some row)
                × (row.version ≡ v)
                × (m : Moved (session_of env (some (api_actor dto))) row dto.status d o x)
                × (m.result ≡ t))
              k (ran.row, out, ran.found, ran.version, m, same)
      ]
]

-- A transition that returns found its row at the expected version, kept its status or followed a row of the table of
-- transitions, and returns the very row that the database now holds, with the status that was asked for, at a later version.
pub transition-Responds :
    (reference : String) (dto : TransitionStatusDto) (v : ℕ) (env : Env) (d : Database)
    (t : Transaction) (d' : Database)
    → Keyed d.transactions
    → transition reference dto v env d ≡ (ok t, d')
    → (row : Transaction) × (find (by_reference reference) d.transactions ≡ some row)
      × (row.version ≡ v)
      × Responds row dto.status t d'
transition-Responds reference dto v env d t d' keyed h =
    let (row, out, found, version, m, same) = transition-Moved reference dto v env d h in
    let known = find-by_id (by_reference reference) d.transactions row keyed found in
    (
      row,
      found,
      version,
      subst (λ (x : Transaction). Responds row dto.status x d') same
          (Moved-Responds _ row dto.status d out d' known m),
    )
