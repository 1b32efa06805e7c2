-- ===== src/Transactions/Service/Books.antt =====
-- The ledger under a transition: which entries it writes, and that they balance.
use ledger_ops_api.Common.{ℕ, ◌≡◌, List, arith, String, ap, ok, inl, inr, ◌∷◌, ◌∙◌, sym}
use ledger_ops_api.Database.Tables.{
  Transaction, Database, LedgerPosting, TransactionStatus, ReconciliationException,
}
use ledger_ops_api.Transactions.Booking.Effects.{ReturnBooked, PaymentBooked}
use ledger_ops_api.Database.Ledger.Balance.{Offsets}
use ledger_ops_api.Transactions.Booking.Balance.{return_postings-Offsets, payment_postings-Offsets}
use ledger_ops_api.Database.Sql.{Session, Env, Table}
use ledger_ops_api.Transactions.Service.{
  capture_late_acknowledgment, TransitionStatusDto, Outcome, transition, reconciliation,
  late_exception,
}
use ledger_ops_api.Database.Rows.{TransactionChange}
use ledger_ops_api.Database.Rows.Updates.{Updated}
use ledger_ops_api.Transactions.Service.Moves.{
  Aftermath, Moved, paid, paid_back, taken_back, only_moved,
}
use ledger_ops_api.Transactions.Service.Runs.{transition_cases, after_commit-keeps}
use mathlib.Core.Path.{subst}
use ledger_ops_api.Database.Others.Inserts.{new_exception, exception_create-writes}
use ledger_ops_api.Database.Sql.Inversion.{bind-elim}

ReturnBooked-Offsets :
    (t : Transaction) (amount : ℕ) (d d' : Database)
    → ReturnBooked t amount d d'
    → Offsets d.postings d'.postings
ReturnBooked-Offsets t amount d d' b =
    rw b.writes (return_postings-Offsets t amount b.entry.id b.payable.id b.clearing.id d.postings)

PaymentBooked-Offsets :
    (t : Transaction) (d d' : Database) → PaymentBooked t d d' → Offsets d.postings d'.postings
PaymentBooked-Offsets t d d' b =
    rw b.writes (
      payment_postings-Offsets t b.entry.id b.clearing.id b.payable.id b.fees d.postings b.fees_due)

Offsets-refl : (ps : List LedgerPosting) → Offsets ps ps
Offsets-refl ps currency = omega arith

Updated-postings :
    (s : Session) (c : TransactionChange) (old : Transaction) (d : Database) (t : Transaction)
    (d' : Database)
    → Updated s c old d t d'
    → d'.postings ≡ d.postings
Updated-postings s c old d t d' u = ap (λ (x : Database). x.postings) u.writes

Aftermath-Offsets :
    (s : Session) (row : Transaction) (status : TransactionStatus) (first : Transaction)
    (middle : Database) (t : Transaction) (d' : Database)
    → Aftermath s row status first middle t d'
    → Offsets middle.postings d'.postings
Aftermath-Offsets s row status first middle t d' (paid _ _ _ _ b) =
    PaymentBooked-Offsets first middle d' b
Aftermath-Offsets s row status first middle t d' (paid_back _ _ _ _ b) =
    subst (λ (ps : List LedgerPosting). Offsets ps d'.postings)
      (Updated-postings s _ _ middle _ _ b.accumulated)
      (ReturnBooked-Offsets first first.amount b.middle d' b.returned)
Aftermath-Offsets s row status first middle t d' (taken_back _ _ b) =
    subst (λ (ps : List LedgerPosting). Offsets ps d'.postings)
      (Updated-postings s _ _ middle _ _ b.taken)
      (ReturnBooked-Offsets first _ b.middle d' b.returned)
Aftermath-Offsets s row status first middle t d' (only_moved _ _ _ e) =
    rw e (Offsets-refl middle.postings)

Moved-Offsets :
    (s : Session) (row : Transaction) (status : TransactionStatus) (d : Database) (out : Outcome)
    (d' : Database)
    → Moved s row status d out d'
    → Offsets d.postings d'.postings
Moved-Offsets s row status d out d' m =
    subst (λ (ps : List LedgerPosting). Offsets ps d'.postings)
      (Updated-postings s _ _ d _ _ m.first_update)
      (Aftermath-Offsets s row status m.first m.middle m.result d' m.aftermath)

-- A late acknowledgment writes an exception, and nothing else.
pub capture-writes :
    (row : Transaction) (dto : TransitionStatusDto) (s : Session) (d : Database) {out : Outcome}
    {d' : Database}
    → capture_late_acknowledgment row dto s d ≡ ok (out, d')
    → (out ≡ reconciliation (s.env.uuid Table.reconciliation_exceptions))
      × (d' ≡ record d { exceptions = new_exception s (late_exception row dto) ∷ d.exceptions })
unfolding capture_late_acknowledgment
capture-writes row dto s d {out} {d'} h = bind-elim _ _ s d h λ e d₁ h₁ r₁.
    let (e_is, w) = exception_create-writes _ s d h₁ in
    let k : d₁ ≡ d' = cc in
    let o : out ≡ reconciliation e.id = cc in
    (o ∙ ap (λ (x : ReconciliationException). reconciliation x.id) e_is, sym k ∙ w)

-- Every transition, committed or refused, leaves the trial balance as it was: the debits and the
-- credits of each currency grow by the same amount.
pub transition-Offsets :
    (reference : String) (dto : TransitionStatusDto) (v : ℕ) (env : Env) (d : Database)
    → Offsets d.postings (transition reference dto v env d).1.postings
transition-Offsets reference dto v env d = elim (transition_cases reference dto v env d) [
  | inl (e, h) ↦ rw h (Offsets-refl d.postings)
  | inr (out, d', ran, h) ↦
      rw (h, after_commit-keeps out env d')
        (elim ran.ran [
          | inl (late, c) ↦ rw ((capture-writes ran.row dto _ d c).1) (Offsets-refl d.postings)
          | inr (on_time, m) ↦ Moved-Offsets _ ran.row dto.status d out d' m
        ])
]
