-- ===== src/Transactions/Service/Locking.antt =====
-- The branches of a transition that move nothing: an unknown reference, a stale version, and an
-- acknowledgment that comes after the expiry.
use ledger_ops_api.Common.{
  ℕ, ◌≡◌, List, any, String, ◌==◌, ok, find, false, true, ◌∷◌, arith, none, err, some, [],
  not_found, ◌≢◌, refl, precondition_failed, reconciliation_required,
}
use ledger_ops_api.Transactions.Service.{
  transition, transition_body, TransitionStatusDto, find_by_reference, capture_late_acknowledgment,
  after_commit, by_reference, late_exception,
}
use ledger_ops_api.Database.Checks.{varchar_or_null}
use ledger_ops_api.Database.Sql.{Env, ◌>>=◌, Session, Table}
use ledger_ops_api.Database.Ledger.{check_entries, commit_checks}
use ledger_ops_api.Database.Others.{exception_create}
use ledger_ops_api.Database.Tables.{
  Transaction, JournalEntry, Database, ReconciliationException, expired, succeeded,
}
use ledger_ops_api.Database.Commit.{with_actor}
use ledger_ops_api.Database.Others.Inserts.{new_exception}
use ledger_ops_api.Database.Rows.{by_id}
use ledger_ops_api.Database.Commit.Cases.{session_of}
use ledger_ops_api.Transactions.Service.Runs.{is_late, api_actor}
use ledger_ops_api.Database.Rows.Keys.{any_of_find}

-- An unknown reference is answered by not_found.
pub transition_unknown :
    (reference : String) (dto : TransitionStatusDto) (v : ℕ) (env : Env) (d : Database)
    → find (by_reference reference) d.transactions ≡ none
    → transition reference dto v env d ≡ (err not_found, d)
unfolding transition transition_body with_actor find_by_reference ◌>>=◌
transition_unknown reference dto v env d h = rw h

-- A caller whose version is stale is refused, whatever it asks for, and nothing is written.
pub transition_stale :
    (reference : String) (dto : TransitionStatusDto) (v : ℕ) (env : Env) (d : Database)
    {row : Transaction}
    → find (by_reference reference) d.transactions ≡ some row
    → row.version ≢ v
    → transition reference dto v env d ≡ (err precondition_failed, d)
unfolding transition transition_body with_actor find_by_reference ◌>>=◌
transition_stale reference dto v env d {row} h n =
    let f : (row.version == v) ≡ false = ground arith in rw h (rw f)

-- No journal entry belongs to this SQL transaction before it begins.
abbrev pub FreshTransaction : Env → List JournalEntry → Type 0
FreshTransaction env es = any (λ (e : JournalEntry). e.created_tx_id == env.txid_current) es ≡ false

pub check_entries-fresh :
    (es : List JournalEntry) (s : Session) (d : Database)
    → FreshTransaction s.env es
    → check_entries es s d ≡ ok (tt, d)
unfolding check_entries ◌>>=◌
check_entries-fresh [] s d h = refl
check_entries-fresh (e ∷ es) s d h =
    let n : (e.created_tx_id == s.env.txid_current) ≡ false = ground arith in
    let r : FreshTransaction s.env es = ground arith in rw n (check_entries-fresh es s d r)

pub commit_checks-fresh :
    (s : Session) (d : Database) → FreshTransaction s.env d.entries → commit_checks s d ≡ ok (tt, d)
unfolding commit_checks ◌>>=◌
commit_checks-fresh s d h = check_entries-fresh d.entries s d h

-- The exception that a late acknowledgment leaves for an analyst.
abbrev pub late_row : Env → Transaction → TransitionStatusDto → ReconciliationException
late_row env row dto = new_exception (session_of env none) (late_exception row dto)

exception_create-ok :
    (row : Transaction) (dto : TransitionStatusDto) (s : Session) (d : Database)
    → varchar_or_null 100 dto.provider_reference ≡ true
    → any (by_id row.id) d.transactions ≡ true
    → any
        (λ (y : ReconciliationException). y.id == s.env.uuid Table.reconciliation_exceptions)
        d.exceptions
      ≡ false
    → exception_create (late_exception row dto) s d
      ≡ ok (
        new_exception s (late_exception row dto),
        record d { exceptions = new_exception s (late_exception row dto) ∷ d.exceptions },
      )
unfolding exception_create ◌>>=◌ varchar_or_null
exception_create-ok row dto s d room known fresh = rw room (rw fresh (rw known))

-- An acknowledgment of success that comes after the expiry leaves the transaction and the ledger as
-- they were, and is committed as an open exception, which the answer names. The exception's id has
-- to be new, and the provider's reference has to fit its column, as the check of the request's body sees to.
pub transition_late :
    (reference : String) (dto : TransitionStatusDto) (v : ℕ) (env : Env) (d : Database)
    {row : Transaction}
    → find (by_reference reference) d.transactions ≡ some row
    → row.version ≡ v
    → row.status ≡ expired
    → dto.status ≡ succeeded
    → varchar_or_null 100 dto.provider_reference ≡ true
    → any
        (λ (y : ReconciliationException). y.id == env.uuid Table.reconciliation_exceptions)
        d.exceptions
      ≡ false
    → FreshTransaction env d.entries
    → transition reference dto v env d ≡ (
      err (reconciliation_required (env.uuid Table.reconciliation_exceptions)),
      record d { exceptions = late_row env row dto ∷ d.exceptions },
    )
unfolding transition transition_body with_actor find_by_reference capture_late_acknowledgment
    after_commit ◌>>=◌
transition_late reference dto v env d {row} h e x y room fresh tx =
    let same : (row.version == v) ≡ true = ground arith in
    let late : is_late row dto ≡ true = ground arith in
    let s = session_of env (some (api_actor dto)) in
    rw h (
      rw same (
        rw late (
          rw (exception_create-ok row dto s d room (any_of_find _ d.transactions row h) fresh) (
            rw (
              commit_checks-fresh s (record d { exceptions = late_row env row dto ∷ d.exceptions })
                tx)))))
