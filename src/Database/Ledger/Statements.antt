-- ===== src/Database/Ledger/Statements.antt =====
-- What the statements on the ledger write.
use ledger_ops_api.Common.{
  ℕ, ◌<◌, List, [], ◌∷◌, ok, ◌≡◌, refl, arith, ◌∙◌, Bool-cases, ◌==◌, inl, inr, Bool, any, false,
}
use ledger_ops_api.Database.Tables.{Database, LedgerPosting, JournalEntry}
use ledger_ops_api.Database.Sql.{Session, ◌>>=◌}
use ledger_ops_api.Database.Sql.Inversion.{>>=-eq-ok}
use ledger_ops_api.Database.Ledger.{
  JournalEntryData, journal_entry_create, posting_insert, posting_create_many,
  fn_assert_entry_valid, check_entries, commit_checks,
}

-- The rows, put in front of the table one after another.
abbrev pub push_all : List LedgerPosting → List LedgerPosting → List LedgerPosting
push_all [] qs = qs
push_all (p ∷ ps) qs = push_all ps (p ∷ qs)

pub posting_insert-writes :
    (p : LedgerPosting) (s : Session) (d : Database) {u : Unit {0}} {d' : Database}
    → posting_insert p s d ≡ ok (u, d')
    → (d' ≡ record d { postings = p ∷ d.postings }) × (0 < p.amount)
unfolding posting_insert ◌>>=◌
posting_insert-writes p s d {u} {d'} h = ground arith

pub posting_create_many-writes :
    (ps : List LedgerPosting) (s : Session) (d : Database) {u : Unit {0}} {d' : Database}
    → posting_create_many ps s d ≡ ok (u, d')
    → d' ≡ record d { postings = push_all ps d.postings }
unfolding posting_create_many
posting_create_many-writes [] s d h = cc
posting_create_many-writes (p ∷ ps) s d {u} {d'} h =
    let (_, d₁, e, rest) = >>=-eq-ok (posting_insert p) (λ _. posting_create_many ps) s d h in
    let w : d₁ ≡ record d { postings = p ∷ d.postings } = (posting_insert-writes p s d e).0 in
    posting_create_many-writes ps s d₁ rest ∙ (rw w refl)

abbrev pub entry_by_id : ℕ → JournalEntry → Bool
entry_by_id i e = e.id == i

pub journal_entry_create-writes :
    (x : JournalEntryData) (s : Session) (d : Database) {e : JournalEntry} {d' : Database}
    → journal_entry_create x s d ≡ ok (e, d')
    → (d' ≡ record d { entries = e ∷ d.entries })
      × (e.created_tx_id ≡ s.env.txid_current)
      × (e.transaction_id ≡ x.transaction_id)
      × (any (entry_by_id e.id) d.entries ≡ false)
unfolding journal_entry_create ◌>>=◌
journal_entry_create-writes x s d {e} {d'} h = ground arith

assert-keeps :
    (i : ℕ) (s : Session) (d : Database) {u : Unit {0}} {d' : Database}
    → fn_assert_entry_valid i s d ≡ ok (u, d')
    → d' ≡ d
unfolding fn_assert_entry_valid ◌>>=◌
assert-keeps i s d {u} {d'} h = ground arith

check_entries-keeps :
    (es : List JournalEntry) (s : Session) (d : Database) {u : Unit {0}} {d' : Database}
    → check_entries es s d ≡ ok (u, d')
    → d' ≡ d
unfolding check_entries ◌>>=◌
check_entries-keeps [] s d h = cc
check_entries-keeps (e ∷ es) s d {u} {d'} h =
    elim (Bool-cases (e.created_tx_id == s.env.txid_current)) [
      | inl t ↦
          let (_, d₁, a, rest) =
            >>=-eq-ok (fn_assert_entry_valid e.id) (λ _. check_entries es) s d (rw t at h) in
          check_entries-keeps es s d₁ rest ∙ assert-keeps e.id s d a
      | inr f ↦ check_entries-keeps es s d (rw f at h)
    ]

-- COMMIT changes nothing that the body wrote.
pub commit_checks-keeps :
    (s : Session) (d : Database) {u : Unit {0}} {d' : Database}
    → commit_checks s d ≡ ok (u, d')
    → d' ≡ d
unfolding commit_checks ◌>>=◌
commit_checks-keeps s d h = check_entries-keeps d.entries s d h
