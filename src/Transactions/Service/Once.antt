-- ===== src/Transactions/Service/Once.antt =====
-- The transitions that write to the ledger.
use ledger_ops_api.Common.{ℕ, ◌≡◌, String, ◌⊎◌, find, inl, some, inr, ◌∙◌, ap}
use ledger_ops_api.Database.Tables.{
  TransactionStatus, pending, Transaction, succeeded, Database, disputed, reversed,
}
use ledger_ops_api.Database.Sql.{Session, Env}
use ledger_ops_api.Transactions.Service.{TransitionStatusDto, by_reference, transition}
use ledger_ops_api.Transactions.Service.Moves.{Aftermath, paid, paid_back, taken_back, only_moved}
use ledger_ops_api.Transactions.Service.Runs.{transition_cases, after_commit-keeps}
use ledger_ops_api.Transactions.Service.Books.{capture-writes}

-- The moves that book.
abbrev pub Books : TransactionStatus → TransactionStatus → Type 0
Books from to = ((from ≡ pending) × (to ≡ succeeded)) ⊎ ((from ≡ disputed) × (to ≡ reversed))

Aftermath-Books :
    (s : Session) (row : Transaction) (status : TransactionStatus) (first : Transaction)
    (middle : Database) (t : Transaction) (d' : Database)
    → Aftermath s row status first middle t d'
    → Books row.status status ⊎ ((d'.postings ≡ middle.postings) × (d'.entries ≡ middle.entries))
Aftermath-Books s row status first middle t d' (paid x y _ _ _) = inl (inl (y, x))
Aftermath-Books s row status first middle t d' (paid_back x y _ _ _) = inl (inl (y, x))
Aftermath-Books s row status first middle t d' (taken_back x y _) = inl (inr (y, x))
Aftermath-Books s row status first middle t d' (only_moved _ _ _ e) = inr (cc, cc)

-- A transition that changes the ledger found its row pending and was asked for succeeded, or found
-- it disputed and was asked for reversed. A second confirmation, or a dispute that is won, books
-- nothing.
pub transition-Books_once :
    (reference : String) (dto : TransitionStatusDto) (v : ℕ) (env : Env) (d : Database)
    → ((row : Transaction) × (find (by_reference reference) d.transactions ≡ some row)
        × (row.version ≡ v)
        × Books row.status dto.status)
      ⊎ (((transition reference dto v env d).1.postings ≡ d.postings)
          × ((transition reference dto v env d).1.entries ≡ d.entries))
transition-Books_once reference dto v env d = elim (transition_cases reference dto v env d) [
  | inl (e, h) ↦ inr (rw h, rw h)
  | inr (out, d', ran, h) ↦ elim ran.ran [
    | inl (late, c) ↦
        let w = (capture-writes ran.row dto _ d c).1 in
        inr (rw (h, after_commit-keeps out env d', w), rw (h, after_commit-keeps out env d', w))
    | inr (on_time, m) ↦
        elim (Aftermath-Books _ ran.row dto.status m.first m.middle m.result d' m.aftermath) [
          | inl b ↦ inl (ran.row, ran.found, ran.version, b)
          | inr (p, e) ↦
              let w = m.first_update.writes in
              inr (
                rw (h, after_commit-keeps out env d') (p ∙ ap (λ (x : Database). x.postings) w),
                rw (h, after_commit-keeps out env d') (e ∙ ap (λ (x : Database). x.entries) w),
              )
        ]
  ]
]
