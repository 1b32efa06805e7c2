-- ===== src/System/Versions.antt =====
-- The version that a caller expects, against what the service does after it has been used (transactions.service.ts, If-Match).
use ledger_ops_api.Common.{
  ℕ, ◌≡◌, ◌≤◌, String, List, ok, err, some, true, false, any, find, Bool-cases, inl, inr, ◌==◌, [],
  ◌∷◌, arith, sym, ap, ◌∙◌, precondition_failed, str_eq, str_eq_iff, str_eq_refl, find_sound,
  All-find, Result,
}
use ledger_ops_api.Database.Tables.{Database, Transaction}
use ledger_ops_api.Database.Sql.{Env}
use ledger_ops_api.Database.Rows.{collides, by_id}
use ledger_ops_api.Database.Rows.Keys.{Stored, Stored-head, Stored-tail}
use ledger_ops_api.Transactions.Service.{TransitionStatusDto, transition, by_reference}
use ledger_ops_api.Transactions.Service.Response.{transition-Responds}
use ledger_ops_api.Transactions.Service.Locking.{transition_stale}
use ledger_ops_api.System.Steps.{Reach, here, next, transitioned}
use ledger_ops_api.System.Trail.{WellFormed, Unique, Unique-Keyed}
use ledger_ops_api.System.Extends.{Evolves}
use ledger_ops_api.System.Reachable.{Reach-Extends, Reach-WellFormed}
use mathlib.Core.Path.{subst}

-- A row that collides with none has its reference to itself.
any-reference :
    (t x : Transaction) (ts : List Transaction)
    → any (collides t) ts ≡ false
    → Stored ts x
    → str_eq x.reference t.reference ≡ false
unfolding collides
any-reference t x [] n h = cc
any-reference t x (y ∷ ts) n h = elim (Bool-cases (y.id == x.id)) [
  | inl e ↦ let same = Stored-head y x ts e h in rw (← same) (ground arith)
  | inr f ↦ any-reference t x ts (ground arith) (Stored-tail y x ts f h)
]

find-reference :
    (reference : String) (x : Transaction) (ts : List Transaction)
    → Unique ts
    → Stored ts x
    → x.reference ≡ reference
    → find (by_reference reference) ts ≡ some x
find-reference reference x [] u h e = cc
find-reference reference x (y ∷ ts) u h e = elim (Bool-cases (y.id == x.id)) [
  | inl q ↦
      let same = Stored-head y x ts q h in
      let hit : str_eq y.reference reference ≡ true = rw (same, e) (str_eq_refl reference) in
      rw hit (ap some same)
  | inr f ↦
      let rest = Stored-tail y x ts f h in
      let other : str_eq x.reference y.reference ≡ false = any-reference y x ts u.0 rest in
      elim (Bool-cases (str_eq y.reference reference)) [
        | inl q ↦
            let own : y.reference ≡ reference = (str_eq_iff y.reference reference).0 q in
            let both : str_eq x.reference y.reference ≡ true =
              rw (own, e) (str_eq_refl reference) in
            absurd (cc)
        | inr q ↦ rw q (find-reference reference x ts u.1 rest e)
      ]
]

Evolves-reference : (r r' : Transaction) → Evolves r r' → r'.reference ≡ r.reference
Evolves-reference r r' (inl e) = ap (λ (x : Transaction). x.reference) e
Evolves-reference r r' (inr l) = ap (λ (x : Transaction). x.reference) l.frozen

Evolves-version : (r r' : Transaction) → Evolves r r' → r.version ≤ r'.version
Evolves-version r r' (inl e) = let v = ap (λ (x : Transaction). x.version) e in omega arith
Evolves-version r r' (inr l) = let v = l.later in omega arith

-- No update is lost: from a well-formed database, once a transition at an expected version has returned, every later transition of the same
-- transaction at that version is refused as stale and writes nothing, whatever it asks for and whatever calls of the service come in between.
pub transition-transition :
    (reference : String) (dto : TransitionStatusDto) (v : ℕ) (env : Env) (d : Database)
    {t : Transaction} {d' : Database} (later : Database) (dto' : TransitionStatusDto) (env' : Env)
    → WellFormed d.transactions d.history
    → transition reference dto v env d ≡ (ok t, d')
    → Reach d' later
    → transition reference dto' v env' later ≡ (err precondition_failed, later)
transition-transition reference dto v env d {t} {d'} later dto' env' w h run =
    let (row, found, is, responds) =
      transition-Responds reference dto v env d t d' (Unique-Keyed d.transactions w.unique) h in
    let left : (transition reference dto v env d).1 ≡ d' =
      ap (λ (x : Result Transaction × Database). x.1) h in
    let first : Reach d d' =
      subst (λ (x : Database). Reach d x) left (next here (transitioned reference dto v env)) in
    let middle = Reach-WellFormed first w in
    let last = Reach-WellFormed run middle in
    let (r, stored, same, e) =
      All-find _ (by_reference reference) d.transactions (Reach-Extends d d' w first).rows found in
    let at : find (by_id t.id) d'.transactions ≡ some r =
      ap (λ (i : ℕ). find (by_id i) d'.transactions) (responds.same_row ∙ sym same) ∙ stored in
    let known = responds.stored in
    let one : r ≡ t = cc in
    let (x, stored', same', e') =
      All-find _ (by_id t.id) d'.transactions (Reach-Extends d' later middle run).rows known in
    let own : row.reference ≡ reference =
      (str_eq_iff row.reference reference).0
        (find_sound (by_reference reference) d.transactions found) in
    let named : x.reference ≡ reference =
      Evolves-reference t x e'
      ∙ ap (λ (y : Transaction). y.reference) (sym one)
      ∙ Evolves-reference row r e
      ∙ own in
    let newer = responds.newer in
    let grown = Evolves-version t x e' in
    transition_stale reference dto' v env' later
      (find-reference reference x later.transactions last.unique stored' named) (omega arith)
