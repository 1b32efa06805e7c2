-- ===== src/Transactions/Expiration/Loop.antt =====
-- How the loop of the batches ends, and what it leaves.
use ledger_ops_api.Common.{
  ℕ, Bool, ◌==◌, Failure, length, ◌+◌, ◌≡◌, Result, true, false, err, ◌<◌, some, any, ok, suc,
  arith, zero, refl, sym, inl, inr, Bool-cases, ap, ◌∙◌, List, ◌∷◌, [],
}
use ledger_ops_api.Transactions.Expiration.{
  expire_overdue_pending, expire_loop, expire_one_batch, overdue_batch, pending_count, takeable,
}
use ledger_ops_api.Database.Sql.{Env, Session}
use ledger_ops_api.Database.Tables.{Database, Transaction}
use ledger_ops_api.Database.Rows.Keys.{Keyed}
use ledger_ops_api.Transactions.Expiration.Rounds.{
  expire_one_batch_cases, Expired-pending_count, overdue_batch-empty, batch_session,
}
use mathlib.Core.Path.{subst}
use ledger_ops_api.Transactions.Expiration.Batch.{replace_rows}

-- The last round, and another one.
module _ (fuel : ℕ) (locked : ℕ → Bool) (envs : ℕ → Env) (total : ℕ) (d : Database) where
  expire_loop-last :
      {d₁ : Database} (n : ℕ)
      → (n == 0) ≡ true
      → expire_one_batch locked (envs fuel) d ≡ (ok n, d₁)
      → expire_loop (suc fuel) locked envs total d ≡ some (ok total, d₁)
  unfolding expire_loop
  expire_loop-last zero e w = rw w refl
  expire_loop-last (suc n) e w = cc

  expire_loop-more :
      {d₁ : Database} (n : ℕ)
      → (n == 0) ≡ false
      → expire_one_batch locked (envs fuel) d ≡ (ok n, d₁)
      → expire_loop (suc fuel) locked envs total d ≡ expire_loop fuel locked envs (total + n) d₁
  unfolding expire_loop
  expire_loop-more {d₁} n e w = rw w (
      ap
        (λ (b : Bool). elim b [
          | true ↦ some (ok total, d₁)
          | false ↦ expire_loop fuel locked envs (total + n) d₁
        ])
        e)

  expire_loop-failed :
      (e : Failure)
      → expire_one_batch locked (envs fuel) d ≡ (err e, d)
      → expire_loop (suc fuel) locked envs total d ≡ some (err e, d)
  unfolding expire_loop
  expire_loop-failed e w = rw w refl

-- The rows that a round takes.
abbrev batch_size : (ℕ → Bool) → Env → Database → ℕ
batch_size locked env d = length (overdue_batch locked env.clock_now d.transactions)

-- The loop ends, as each batch but the last expires a pending row.
expire_loop-ends :
    (fuel : ℕ) (locked : ℕ → Bool) (envs : ℕ → Env) (total : ℕ) (d : Database)
    → Keyed d.transactions
    → pending_count d.transactions < fuel
    → (r : Result ℕ) × (d' : Database) × (expire_loop fuel locked envs total d ≡ some (r, d'))
expire_loop-ends zero locked envs total d k h = absurd (omega arith)
expire_loop-ends (suc fuel) locked envs total d k h =
    elim (expire_one_batch_cases locked (envs fuel) d) [
      | inl (e, w) ↦ (err e, d, expire_loop-failed fuel locked envs total d e w)
      | inr (d₁, w, x) ↦
          let n = batch_size locked (envs fuel) d in
          let (less, keyed) = Expired-pending_count locked (envs fuel) d k x in
          elim (Bool-cases (n == 0)) [
            | inl last ↦ (ok total, d₁, expire_loop-last fuel locked envs total d n last w)
            | inr more ↦
                let (r, d₂, e) =
                  expire_loop-ends fuel locked envs (total + n) d₁ keyed (ground arith) in
                (r, d₂, expire_loop-more fuel locked envs total d n more w ∙ e)
          ]
    ]

-- The loop ends on every database whose transactions have different ids, whatever rows are locked and whatever the clock says: one round for each pending row, and one more, are enough.
pub expire_overdue_pending-ends :
    (locked : ℕ → Bool) (envs : ℕ → Env) (d : Database)
    → Keyed d.transactions
    → (r : Result ℕ) × (d' : Database) × (expire_overdue_pending locked envs d ≡ some (r, d'))
unfolding expire_overdue_pending
expire_overdue_pending-ends locked envs d k =
    expire_loop-ends (pending_count d.transactions + 1) locked envs 0 d k (omega arith)

expire_loop-Keyed :
    (fuel : ℕ) (locked : ℕ → Bool) (envs : ℕ → Env) (total : ℕ) (d : Database) {r : Result ℕ}
    {d' : Database}
    → Keyed d.transactions
    → expire_loop fuel locked envs total d ≡ some (r, d')
    → Keyed d'.transactions
unfolding expire_loop
expire_loop-Keyed zero locked envs total d k h = cc
expire_loop-Keyed (suc fuel) locked envs total d {r} {d'} k h =
    elim (expire_one_batch_cases locked (envs fuel) d) [
      | inl (e, w) ↦
          let f = expire_loop-failed fuel locked envs total d e w in
          let here : d ≡ d' = cc in subst (λ (x : Database). Keyed x.transactions) here k
      | inr (d₁, w, x) ↦
          let n = batch_size locked (envs fuel) d in
          let (less, keyed) = Expired-pending_count locked (envs fuel) d k x in
          elim (Bool-cases (n == 0)) [
            | inl last ↦
                let f = expire_loop-last fuel locked envs total d n last w in
                let here : d₁ ≡ d' = cc in subst (λ (y : Database). Keyed y.transactions) here keyed
            | inr more ↦
                let f = expire_loop-more fuel locked envs total d n more w in
                expire_loop-Keyed fuel locked envs (total + n) d₁ keyed (sym f ∙ h)
          ]
    ]

-- The ids stay different.
pub expire_overdue_pending-Keyed :
    (locked : ℕ → Bool) (envs : ℕ → Env) (d : Database) {r : Result ℕ} {d' : Database}
    → Keyed d.transactions
    → expire_overdue_pending locked envs d ≡ some (r, d')
    → Keyed d'.transactions
unfolding expire_overdue_pending
expire_overdue_pending-Keyed locked envs d k h = expire_loop-Keyed _ locked envs 0 d k h

replace_rows-empty :
    (s : Session) (rs ts : List Transaction) → length rs ≡ 0 → replace_rows s rs ts ≡ ts
replace_rows-empty s [] ts h = refl
replace_rows-empty s (r ∷ rs) ts h = absurd (omega arith)

-- The batches that a loop has committed, up to its last round, which took no row: each took the rows that it counted.
pub data Ran (locked : ℕ → Bool) (envs : ℕ → Env) : ℕ → Database → ℕ → ℕ → Database → Type 0 where
  last_batch :
      {fuel : ℕ} {d d' : Database}
      → expire_one_batch locked (envs fuel) d ≡ (ok 0, d')
      → Ran locked envs (suc fuel) d fuel 0 d'
  one_batch :
      {fuel n round m : ℕ} {d d₁ d' : Database}
      → expire_one_batch locked (envs fuel) d ≡ (ok (suc n), d₁)
      → Ran locked envs fuel d₁ round m d'
      → Ran locked envs (suc fuel) d round (suc n + m) d'

-- What the loop leaves when it returns, on some fuel: the pending rows are fewer by what it has counted, and at the clock of its last round no row
-- was left to take.
abbrev pub Left : ℕ → (ℕ → Bool) → (ℕ → Env) → Database → ℕ → Database → Type 0
Left fuel locked envs d n d' =
    (n + pending_count d'.transactions ≡ pending_count d.transactions)
    × ((round : ℕ) × Ran locked envs fuel d round n d'
        × (any (takeable locked (envs round).clock_now) d'.transactions ≡ false))
    × (d'.entries ≡ d.entries)
    × (d'.postings ≡ d.postings)

abbrev pub Settled : (ℕ → Bool) → (ℕ → Env) → Database → ℕ → Database → Type 0
Settled locked envs d n d' = Left (pending_count d.transactions + 1) locked envs d n d'

positive : (n : ℕ) → (n == 0) ≡ false → (k : ℕ) × (n ≡ suc k)
positive zero h = cc
positive (suc k) h = (k, refl)

expire_loop-Settled :
    (fuel : ℕ) (locked : ℕ → Bool) (envs : ℕ → Env) (total : ℕ) (d : Database) {n : ℕ}
    {d' : Database}
    → Keyed d.transactions
    → expire_loop fuel locked envs total d ≡ some (ok n, d')
    → (m : ℕ) × (n ≡ total + m) × Left fuel locked envs d m d'
unfolding expire_loop
expire_loop-Settled zero locked envs total d k h = cc
expire_loop-Settled (suc fuel) locked envs total d {n} {d'} k h =
    elim (expire_one_batch_cases locked (envs fuel) d) [
      | inl (e, w) ↦ let f = expire_loop-failed fuel locked envs total d e w in cc
      | inr (d₁, w, x) ↦
          let c = batch_size locked (envs fuel) d in
          let (less, keyed) = Expired-pending_count locked (envs fuel) d k x in
          let entries = ap (λ (y : Database). y.entries) x in
          let postings = ap (λ (y : Database). y.postings) x in
          elim (Bool-cases (c == 0)) [
            | inl last ↦
                let f = expire_loop-last fuel locked envs total d c last w in
                let here : d₁ ≡ d' = cc in
                let all : total ≡ n = cc in
                let zero_taken : c ≡ 0 = ground arith in
                let gone =
                  overdue_batch-empty locked (envs fuel).clock_now d.transactions zero_taken in
                let rows =
                  replace_rows-empty (batch_session (envs fuel)) _ d.transactions zero_taken in
                let kept : d'.transactions ≡ d.transactions =
                  ap (λ (y : Database). y.transactions) (sym here ∙ x) ∙ rows in
                (
                  0,
                  omega arith,
                  (
                    omega (arith, ap pending_count kept),
                    (
                      fuel,
                      last_batch (
                          w
                          ∙ ap (λ (k : ℕ). (ok k, d₁)) zero_taken
                          ∙ ap (λ (y : Database). (ok 0, y)) here),
                      ap (any (takeable locked (envs fuel).clock_now)) kept ∙ gone,
                    ),
                    ap (λ (y : Database). y.entries) (sym here ∙ x),
                    ap (λ (y : Database). y.postings) (sym here ∙ x),
                  ),
                )
            | inr more ↦
                let f = expire_loop-more fuel locked envs total d c more w in
                let (m, sum, left) =
                  expire_loop-Settled fuel locked envs (total + c) d₁ keyed (sym f ∙ h) in
                let (round, ran, none_left) = left.1 in
                let (k, is) = positive c more in
                let batch = w ∙ ap (λ (x : ℕ). (ok x, d₁)) is in
                let all : Ran locked envs (suc fuel) d round (c + m) d' =
                  subst (λ (x : ℕ). Ran locked envs (suc fuel) d round (x + m) d') (sym is)
                    (one_batch batch ran) in
                (
                  c + m,
                  omega arith,
                  (omega arith, (round, all, none_left), left.2 ∙ entries, left.3 ∙ postings),
                )
          ]
    ]

-- When the loop returns a count, that many pending rows less are pending, at the clock of its last round, up to which every batch took a row, no overdue row is left but
-- those that others have locked, and the ledger is what it was.
pub expire_overdue_pending-Settled :
    (locked : ℕ → Bool) (envs : ℕ → Env) (d : Database) {n : ℕ} {d' : Database}
    → Keyed d.transactions
    → expire_overdue_pending locked envs d ≡ some (ok n, d')
    → Settled locked envs d n d'
unfolding expire_overdue_pending
expire_overdue_pending-Settled locked envs d {n} {d'} k h =
    let (m, same, s) = expire_loop-Settled (pending_count d.transactions + 1) locked envs 0 d k h in
    let e : m ≡ n = omega arith in subst (λ (x : ℕ). Settled locked envs d x d') e s
