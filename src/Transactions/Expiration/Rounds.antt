-- ===== src/Transactions/Expiration/Rounds.antt =====
-- One batch as a SQL transaction: it is rolled back, or expires exactly the rows that it takes.
use ledger_ops_api.Database.Tables.{Transaction, Database, pending}
use ledger_ops_api.Transactions.Expiration.{
  overdue_batch, expire_rows, expire_one_batch, batch_body, expiration_actor, takeable, sooner,
  pending_count, expiration_batch_size,
}
use ledger_ops_api.Database.Sql.{Env, Session}
use ledger_ops_api.Common.{
  Bool, ℕ, List, length, filter, ◌≡◌, some, Failure, any, ok, err, false, ◌⊎◌, ◌∷◌, arith, inl, inr,
  [], refl, take, sort_by, ◌∙◌, suc, ap, sym, length-sort_by, All, ◌≤◌, true, ◌+◌, find,
  length-take, if◌then◌else◌, map_option,
}
use ledger_ops_api.Database.Commit.{with_actor}
use ledger_ops_api.Database.Commit.Cases.{session_of, sql_transaction_cases}
use ledger_ops_api.Transactions.Expiration.Batch.{
  replace_rows, expire, overdue_batch-Stored, pending_count-replace_rows, replace_rows-Keyed,
  takeable-pending, replace_rows-expired,
}
use ledger_ops_api.Database.Sql.Inversion.{bind-elim}
use ledger_ops_api.Database.Rows.Updates.{row_update-Updated, updated_row}
use ledger_ops_api.Database.Rows.{replace, by_id}
use ledger_ops_api.Database.Rows.Keys.{Keyed, Stored}

any-absent :
    (p : Transaction → Bool) (ts : List Transaction) → length (filter p ts) ≡ 0 → any p ts ≡ false
any-absent p [] h = refl
any-absent p (t ∷ ts) h = ground (arith, any-absent p ts)

take-suc-empty : (n : ℕ) (ts : List Transaction) → length (take (suc n) ts) ≡ 0 → length ts ≡ 0
take-suc-empty n [] h = refl
take-suc-empty n (t ∷ ts) h = absurd (omega arith)

-- A batch that takes nothing leaves nothing to take.
pub overdue_batch-empty :
    (locked : ℕ → Bool) (now : ℕ) (ts : List Transaction)
    → length (overdue_batch locked now ts) ≡ 0
    → any (takeable locked now) ts ≡ false
unfolding overdue_batch
overdue_batch-empty locked now ts h =
    let e = take-suc-empty 199 (sort_by sooner (filter (takeable locked now) ts)) h in
    any-absent (takeable locked now) ts
      (sym (length-sort_by sooner (filter (takeable locked now) ts)) ∙ e)

overdue_batch-bound :
    (locked : ℕ → Bool) (now : ℕ) (ts : List Transaction)
    → length (overdue_batch locked now ts) ≤ expiration_batch_size
unfolding overdue_batch
overdue_batch-bound locked now ts = length-take expiration_batch_size _

expire_rows-writes :
    (rs : List Transaction) (s : Session) (d : Database) {u : Unit {0}} {d' : Database}
    → expire_rows rs s d ≡ ok (u, d')
    → d' ≡ record d { transactions = replace_rows s rs d.transactions; history = d'.history }
unfolding expire_rows
expire_rows-writes [] s d {u} {d'} h = cc
expire_rows-writes (r ∷ rs) s d {u} {d'} h = bind-elim _ _ s d h λ t d₁ h₁ r₁.
    let w = row_update-Updated expire r s d h₁ in
    let k = expire_rows-writes rs s d₁ r₁ in
    let first =
      w.writes
      ∙ ap
          (λ (x : Transaction). record d {
            transactions = replace x d.transactions;
            history = d₁.history;
          })
          w.row in
    k
    ∙ ap
        (λ (x : Database). record x {
          transactions = replace_rows s rs x.transactions;
          history = d'.history;
        })
        first

-- The session of a batch.
abbrev pub batch_session : Env → Session
batch_session env = session_of env (some expiration_actor)

-- What a batch leaves: the rows that it takes are expired, the history tells of it.
abbrev pub Expired : (ℕ → Bool) → Env → Database → Database → Type 0
Expired locked env d d' = d' ≡ record d {
  transactions =
      replace_rows (batch_session env) (overdue_batch locked env.clock_now d.transactions)
        d.transactions;
  history = d'.history;
}

pub batch_body-Expired :
    (locked : ℕ → Bool) (env : Env) (d : Database) {n : ℕ} {d' : Database}
    → batch_body locked env.clock_now (batch_session env) d ≡ ok (n, d')
    → (n ≡ length (overdue_batch locked env.clock_now d.transactions)) × Expired locked env d d'
unfolding batch_body
batch_body-Expired locked env d {n} {d'} h = bind-elim _ _ (batch_session env) d h λ ts d₁ h₁ r₁.
    bind-elim _ _ (batch_session env) d₁ r₁ λ u d₂ h₂ r₂.
      let k = expire_rows-writes _ (batch_session env) d₁ h₂ in
      let same : d₁ ≡ d = cc in
      let rows : ts ≡ d.transactions = cc in
      let last : d₂ ≡ d' = cc in
      let count : length (overdue_batch locked env.clock_now ts) ≡ n = cc in
      (
        sym count
            ∙ ap (λ (x : List Transaction). length (overdue_batch locked env.clock_now x)) rows,
        rw (rows, same, last) at k,
      )

pub expire_one_batch_cases :
    (locked : ℕ → Bool) (env : Env) (d : Database)
    → ((e : Failure) × (expire_one_batch locked env d ≡ (err e, d)))
      ⊎ ((d' : Database) × (expire_one_batch locked env d
            ≡ (ok (length (overdue_batch locked env.clock_now d.transactions)), d'))
          × Expired locked env d d')
unfolding expire_one_batch with_actor
expire_one_batch_cases locked env d =
    elim (sql_transaction_cases (some expiration_actor) (batch_body locked env.clock_now) env d) [
      | inl (e, w) ↦ inl (e, w)
      | inr (n, d', ran, _, w) ↦
          let (count, x) = batch_body-Expired locked env d ran in
          inr (d', w ∙ ap (λ (m : ℕ). (ok m, d')) count, x)
    ]

-- The rows of a batch are pending.
pub batch-pending :
    (locked : ℕ → Bool) (now : ℕ) (ts rs : List Transaction)
    → All (λ (r : Transaction). Stored ts r × (takeable locked now r ≡ true)) rs
    → All (λ (r : Transaction). Stored ts r × (r.status ≡ pending)) rs
batch-pending locked now ts [] h = tt
batch-pending locked now ts (r ∷ rs) h =
    ((h.0.0, takeable-pending locked now r h.0.1), batch-pending locked now ts rs h.1)

-- Each row that a batch counts was pending, and is not any more.
pub Expired-pending_count :
    (locked : ℕ → Bool) (env : Env) (d : Database) {d' : Database}
    → Keyed d.transactions
    → Expired locked env d d'
    → (pending_count d'.transactions + length (overdue_batch locked env.clock_now d.transactions)
        ≡ pending_count d.transactions)
      × Keyed d'.transactions
Expired-pending_count locked env d {d'} k x =
    let rows = ap (λ (y : Database). y.transactions) x in
    let (stored, keyed) = overdue_batch-Stored locked env.clock_now d.transactions k in
    let b = batch-pending locked env.clock_now d.transactions _ stored in
    (
      ap
            (λ (ts : List Transaction).
              pending_count ts + length (overdue_batch locked env.clock_now d.transactions))
            rows
          ∙ pending_count-replace_rows (batch_session env) _ d.transactions b keyed k,
      rw rows (
          replace_rows-Keyed (batch_session env) (overdue_batch locked env.clock_now d.transactions)
            d.transactions k),
    )

-- A committed batch counts the rows that it takes, at most 200: each is a row of the table that is pending, overdue and not locked by another transaction. These become expired, one version further, and every other row stays what it was, and so does the ledger.
pub expire_one_batch-takes :
    (locked : ℕ → Bool) (env : Env) (d : Database) (i : ℕ) {n : ℕ} {d' : Database}
    → Keyed d.transactions
    → expire_one_batch locked env d ≡ (ok n, d')
    → (n ≡ length (overdue_batch locked env.clock_now d.transactions))
      × (n ≤ expiration_batch_size)
      × All
          (λ (r : Transaction). Stored d.transactions r × (takeable locked env.clock_now r ≡ true))
          (overdue_batch locked env.clock_now d.transactions)
      × (find (by_id i) d'.transactions ≡ (
          if any (by_id i) (overdue_batch locked env.clock_now d.transactions)
          then map_option (updated_row (batch_session env) expire) (find (by_id i) d.transactions)
          else find (by_id i) d.transactions))
      × (d'.entries ≡ d.entries)
      × (d'.postings ≡ d.postings)
expire_one_batch-takes locked env d i {n} {d'} k h = elim (expire_one_batch_cases locked env d) [
  | inl (e, w) ↦ cc
  | inr (d₁, w, x) ↦
      let here : d₁ ≡ d' = cc in
      let count : n ≡ length (overdue_batch locked env.clock_now d.transactions) = cc in
      let x' : Expired locked env d d' = rw here at x in
      let (stored, keyed) = overdue_batch-Stored locked env.clock_now d.transactions k in
      (
        count,
        rw count (overdue_batch-bound locked env.clock_now d.transactions),
        stored,
        ap (λ (y : Database). find (by_id i) y.transactions) x'
            ∙ replace_rows-expired (batch_session env) i _ _ d.transactions stored keyed,
        ap (λ (y : Database). y.entries) x',
        ap (λ (y : Database). y.postings) x',
      )
]
