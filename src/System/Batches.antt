-- ===== src/System/Batches.antt =====
-- A batch of the expiration keeps what the updates of rows keep.
use ledger_ops_api.Transactions.Expiration.{
  expire_rows, batch_body, expire_one_batch, expiration_actor,
}
use ledger_ops_api.Database.Tables.{Transaction, Database, pending}
use ledger_ops_api.Common.{ℕ, List, Bool, All, ◌≡◌, some, ok, inl, inr, ◌∷◌, sym, ap, ◌∙◌, []}
use ledger_ops_api.Database.Commit.{with_actor}
use ledger_ops_api.Database.Sql.{Session}
use ledger_ops_api.Database.Commit.Cases.{sql_transaction_cases}
use ledger_ops_api.Database.Rows.Keys.{Stored, Keyed}
use ledger_ops_api.Database.Sql.Inversion.{bind-elim}
use mathlib.Core.Path.{subst}
use ledger_ops_api.Transactions.Expiration.Batch.{overdue_batch-Stored, expire, others-Stored}
use ledger_ops_api.Transactions.Expiration.Rounds.{batch_session, batch-pending}
use ledger_ops_api.Database.Rows.Updates.{row_update-Updated, updated_row, Updated}
use ledger_ops_api.Database.Rows.{replace}
use ledger_ops_api.System.Kept.{Written}
use ledger_ops_api.System.Preservation.{CallPreserves}

-- What a batch writes: the expiry of a row that is stored and pending.
pub record Expiring (P : Database → Type 0) : Type 0 where
  pub keyed : (d : Database) → P d → Keyed d.transactions
  pub expiry :
      (s : Session) (r : Transaction) (d : Database) (t : Transaction) (d' : Database)
      → Stored d.transactions r
      → r.status ≡ pending
      → Updated s expire r d t d'
      → P d
      → P d'

module _ (P : Database → Type 0) (w : Expiring P) where
  expire_rows-Keeps :
      (rs : List Transaction) (s : Session) (d : Database) {u : Unit {0}} {d' : Database}
      → All (λ (r : Transaction). Stored d.transactions r × (r.status ≡ pending)) rs
      → Keyed rs
      → expire_rows rs s d ≡ ok (u, d')
      → P d
      → P d'
  unfolding expire_rows
  expire_rows-Keeps [] s d {u} {d'} h k e p = let same : d ≡ d' = cc in subst P same p
  expire_rows-Keeps (r ∷ rs) s d {u} {d'} h k e p = bind-elim _ _ s d e λ t d₁ h₁ r₁.
      let up = row_update-Updated expire r s d h₁ in
      let rows : d₁.transactions ≡ replace (updated_row s expire r) d.transactions =
        ap (λ (x : Database). x.transactions) up.writes
        ∙ ap (λ (x : Transaction). replace x d.transactions) up.row in
      let others = others-Stored _ s r d.transactions rs k.0 h.1 in
      let others' : All (λ (x : Transaction). Stored d₁.transactions x × (x.status ≡ pending)) rs =
        subst
          (λ (ts : List Transaction).
            All (λ (x : Transaction). Stored ts x × (x.status ≡ pending)) rs)
          (sym rows) others in
      expire_rows-Keeps rs s d₁ others' k.1 r₁ (w.expiry s r d t d₁ h.0.0 h.0.1 up p)

  batch_body-Keeps :
      (locked : ℕ → Bool) (now : ℕ) (s : Session) (d : Database) {n : ℕ} {d' : Database}
      → batch_body locked now s d ≡ ok (n, d')
      → P d
      → P d'
  unfolding batch_body
  batch_body-Keeps locked now s d {n} {d'} h p = bind-elim _ _ s d h λ ts d₁ h₁ r₁.
      bind-elim _ _ s d₁ r₁ λ u d₂ h₂ r₂.
        let same : d₁ ≡ d = cc in
        let rows : ts ≡ d.transactions = cc in
        let last : d₂ ≡ d' = cc in
        let (stored, keyed) = overdue_batch-Stored locked now d.transactions (w.keyed d p) in
        subst P last (
          expire_rows-Keeps _ s d (batch-pending locked now d.transactions _ stored) keyed
            (rw (rows, same) at h₂) p)

  pub expire_one_batch-Expires : (locked : ℕ → Bool) → CallPreserves P (expire_one_batch locked)
  unfolding expire_one_batch with_actor CallPreserves
  expire_one_batch-Expires locked env d g =
      elim (sql_transaction_cases (some expiration_actor) (batch_body locked env.clock_now) env d) [
        | inl (e, k) ↦ rw k g
        | inr (n, d', ran, _, k) ↦
            rw k (batch_body-Keeps locked env.clock_now (batch_session env) d ran g)
      ]

pub expire_one_batch-Keeps :
    (P : Database → Type 0)
    → Written P
    → (locked : ℕ → Bool) → CallPreserves P (expire_one_batch locked)
expire_one_batch-Keeps P w locked =
    expire_one_batch-Expires P
      (record { keyed = w.keyed; expiry = λ s r d t d' h _ u p. w.update s expire r d t d' h u p })
      locked
