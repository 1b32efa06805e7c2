-- ===== src/System/Statuses.antt =====
-- The runs of the service against the state machine of the statuses.
use ledger_ops_api.System.Steps.{Reach}
use ledger_ops_api.Database.Tables.{TransactionStatus, Transaction, Database, status_eq}
use ledger_ops_api.Database.StateMachine.{transition_exists, transaction_status_transitions}
use ledger_ops_api.Common.{
  All-find, Bool, List, ◌≡◌, ℕ, not, any, true, false, find, inl, ◌&&◌, some, arith, sym, ◌∷◌,
  Bool-cases, [], inr, refl, ◌==◌, ◌∙◌, ap,
}
use ledger_ops_api.System.Extends.{Evolves, StatusPath, go, stay}
use ledger_ops_api.System.Trail.{WellFormed}
use mathlib.Core.Path.{subst}
use ledger_ops_api.Database.Rows.{by_id}
use ledger_ops_api.System.Reachable.{Reach-Extends}

-- The abstract machine: a status from which no row of the table leads on.
abbrev pub final : TransactionStatus → Bool
final s = not (
    any (λ (t : TransactionStatus × TransactionStatus). status_eq t.0 s)
      transaction_status_transitions)

any-both :
    (a b : TransactionStatus) (xs : List (TransactionStatus × TransactionStatus))
    → any (λ (t : TransactionStatus × TransactionStatus). status_eq t.0 a) xs ≡ false
    → any (λ (t : TransactionStatus × TransactionStatus). status_eq t.0 a && status_eq t.1 b) xs
      ≡ false
any-both a b [] h = refl
any-both a b (x ∷ xs) h = ground (arith, any-both a b xs)

final-transition_exists : (a b : TransactionStatus) → final a ≡ true → transition_exists a b ≡ false
unfolding transition_exists
final-transition_exists a b h = any-both a b transaction_status_transitions (ground arith)

StatusPath-final : {a b : TransactionStatus} → final a ≡ true → StatusPath a b → b ≡ a
StatusPath-final h stay = refl
StatusPath-final {a} {b} h (go p x) =
    let e = StatusPath-final h p in
    let shut = final-transition_exists a b h in
    let open_edge : transition_exists a b ≡ true =
      subst (λ (z : TransactionStatus). transition_exists z b ≡ true) e x in
    absurd (cc)

find-id : (i : ℕ) (ts : List Transaction) {r : Transaction} → find (by_id i) ts ≡ some r → r.id ≡ i
find-id i [] h = cc
find-id i (t ∷ ts) {r} h = elim (Bool-cases (t.id == i)) [
  | inl y ↦
      let f : find (by_id i) (t ∷ ts) ≡ some t = ground arith in
      let same : t ≡ r = cc in let at : t.id ≡ i = ground arith in cc
  | inr n ↦ let rest : find (by_id i) ts ≡ some r = ground arith in find-id i ts rest
]

Evolves-StatusPath : (r r' : Transaction) → Evolves r r' → StatusPath r.status r'.status
Evolves-StatusPath r r' (inl e) =
    subst (λ (x : Transaction). StatusPath r.status x.status) (sym e) stay
Evolves-StatusPath r r' (inr l) = l.path

-- The service refines the state machine of the statuses: a run from a well-formed database takes every transaction that it
-- has, found by its id, along rows of the table of transitions, and never loses it.
pub Reach-StatusPath :
    (from d : Database) (i : ℕ) {r : Transaction}
    → WellFormed from.transactions from.history
    → Reach from d
    → find (by_id i) from.transactions ≡ some r
    → (r' : Transaction) × (find (by_id i) d.transactions ≡ some r') × StatusPath r.status r'.status
Reach-StatusPath from d i {r} w run h =
    let (r', stored, same, e) =
      All-find _ (by_id i) from.transactions (Reach-Extends from d w run).rows h in
    let at = same ∙ find-id i from.transactions h in
    (r', ap (λ (j : ℕ). find (by_id j) d.transactions) (sym at) ∙ stored, Evolves-StatusPath r r' e)

-- A transaction with a final status (a status that no row of the table leaves) keeps it in every run from a well-formed database.
pub Reach-final :
    (from d : Database) (i : ℕ) {r : Transaction}
    → WellFormed from.transactions from.history
    → Reach from d
    → find (by_id i) from.transactions ≡ some r
    → final r.status ≡ true
    → (r' : Transaction) × (find (by_id i) d.transactions ≡ some r') × (r'.status ≡ r.status)
Reach-final from d i {r} w run h f =
    let (r', found, p) = Reach-StatusPath from d i w run h in (r', found, StatusPath-final f p)
