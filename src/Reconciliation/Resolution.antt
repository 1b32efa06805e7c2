-- ===== src/Reconciliation/Resolution.antt =====
-- A resolution, and another one right after it.
use ledger_ops_api.Reconciliation.{
  exception_update, replace_exception, resolve, resolved_row,
  fn_reconciliation_exceptions_before_update, find_by_id_or_throw, resolve_row, find_exception,
  exception_by_id,
}
use ledger_ops_api.Database.Sql.{◌>>=◌, Session, Env}
use ledger_ops_api.Common.{
  ℕ, String, List, ◌≡◌, ok, find, is_some, arith, true, ◌≢◌, some, refl, false, Bool-cases, sym,
  ◌∷◌, ◌∙◌, inl, [], Result, err, conflict, inr, ==_iff, find_sound,
}
use ledger_ops_api.Database.Tables.{ReconciliationException, Database}
use ledger_ops_api.Database.Commit.Cases.{then_call-eq-ok, autocommit-eq-ok}
use mathlib.Core.Bool.{false≢true}
use ledger_ops_api.Database.Sql.Inversion.{or_throw-eq-ok}
use ledger_ops_api.Database.Commit.{autocommit}

exception_update-writes :
    (old new : ReconciliationException) (s : Session) (d : Database) {e : ReconciliationException}
    {d' : Database}
    → exception_update old new s d ≡ ok (e, d')
    → (e ≡ new) × (d'.exceptions ≡ replace_exception new d.exceptions)
unfolding exception_update fn_reconciliation_exceptions_before_update ◌>>=◌
exception_update-writes old new s d {e} {d'} h = ground arith

find-replaced :
    (i : ℕ) (new : ReconciliationException) (xs : List ReconciliationException)
    {old : ReconciliationException}
    → new.id ≡ i
    → find (exception_by_id i) xs ≡ some old
    → find (exception_by_id i) (replace_exception new xs) ≡ some new
unfolding replace_exception
find-replaced i new [] e h = cc
find-replaced i new (x ∷ xs) {old} e h = ground (arith, find-replaced i new xs {old = old})

find_exception-eq-ok :
    (i : ℕ) (s : Session) (d : Database) {e : ReconciliationException} {d' : Database}
    → find_exception i s d ≡ ok (e, d')
    → (find (exception_by_id i) d.exceptions ≡ some e) × (d' ≡ d)
unfolding ◌>>=◌
find_exception-eq-ok i s d h = or_throw-eq-ok _ _ s d h

-- What a resolution has found and done.
pub record Resolved (i : ℕ) (resolution resolved_by : String) (env : Env) (d : Database)
    (e : ReconciliationException) (d' : Database) : Type 0 where
  pub old : ReconciliationException
  pub old_is : find (exception_by_id i) d.exceptions ≡ some old
  pub unresolved : is_some old.resolved_at ≡ false
  pub row : e ≡ resolved_row env.clock_now resolution resolved_by old
  pub stored : find (exception_by_id i) d'.exceptions ≡ some e

resolve-Resolved :
    (i : ℕ) (resolution resolved_by : String) (env : Env) (d : Database)
    {e : ReconciliationException} {d' : Database}
    → resolve i resolution resolved_by env d ≡ (ok e, d')
    → Resolved i resolution resolved_by env d e d'
unfolding resolve find_by_id_or_throw resolve_row resolved_row
resolve-Resolved i resolution resolved_by env d {e} {d'} h =
    let (old, d₁, o, w) =
      then_call-eq-ok (find_by_id_or_throw i env d) (λ x. resolve_row resolution resolved_by x env)
        h in
    let (f, k) = find_exception-eq-ok i _ d (autocommit-eq-ok (find_exception i) env d o) in
    elim (Bool-cases (is_some old.resolved_at)) [
      | inl y ↦
          let v : ◌≡◌ {A = Result ReconciliationException × Database} (err conflict, d₁)
              (ok e, d') =
            rw y at w in
          cc
      | inr n ↦
          let new = resolved_row env.clock_now resolution resolved_by old in
          let v : autocommit (exception_update old new) env d₁ ≡ (ok e, d') = rw n at w in
          let (is, p) =
            exception_update-writes old new _ d₁
              (autocommit-eq-ok (exception_update old new) env d₁ v) in
          let own : old.id ≡ i =
            (==_iff old.id i).0 (find_sound (exception_by_id i) d.exceptions f) in
          record {
            old = old;
            old_is = f;
            unresolved = n;
            row = is;
            stored = rw (is, p, k) (find-replaced i new d.exceptions own f);
          }
    ]

resolved-is_some :
    (now : ℕ) (resolution who : String) (old e : ReconciliationException)
    → e ≡ resolved_row now resolution who old
    → is_some e.resolved_at ≡ true
unfolding resolved_row
resolved-is_some now resolution who old e h = rw h refl

-- In the database that the resolution of an exception leaves, another resolution of it is refused, whoever asks and whatever the reason given.
pub resolve-resolve :
    (i : ℕ) (resolution resolved_by : String) (env : Env) (d : Database)
    {e : ReconciliationException} {d' : Database}
    → resolve i resolution resolved_by env d ≡ (ok e, d')
    → (again by : String) (later : Env) (e' : ReconciliationException) (d'' : Database)
    → resolve i again by later d' ≢ (ok e', d'')
resolve-resolve i resolution resolved_by env d {e} {d'} h again by later e' d'' second =
    let a = resolve-Resolved i resolution resolved_by env d h in
    let b = resolve-Resolved i again by later d' second in
    let x = a.stored in
    let y = b.old_is in
    let same : b.old ≡ e = cc in
    let n = b.unresolved in
    let s = resolved-is_some _ _ _ a.old e a.row in false≢true (sym (rw same at n) ∙ s)
