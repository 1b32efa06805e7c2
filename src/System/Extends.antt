-- ===== src/System/Extends.antt =====
-- What a run does to a database: rows evolve, the history and the ledger grow at their ends.
use ledger_ops_api.Database.Tables.{Transaction, Database, LedgerPosting, TransactionStatus}
use ledger_ops_api.Common.{
  List, ◌≡◌, All, arith, ◌++◌, [], inl, ◌≤◌, ◌⊎◌, ◌∙◌, inr, refl, ◌<◌, ap, sym, append_assoc, ◌∷◌,
  true,
}
use ledger_ops_api.Database.Sql.{Session}
use ledger_ops_api.Database.Rows.Keys.{Stored}
use ledger_ops_api.Database.Rows.{TransactionChange}
use ledger_ops_api.Database.Rows.Updates.{updated_row, Updated}
use ledger_ops_api.Database.Ledger.Statements.{push_all}
use mathlib.Core.Path.{subst}
use ledger_ops_api.Database.StateMachine.{transition_exists}

-- The abstract view of a transaction: its status, which moves through the table of transitions.
pub data StatusPath (from : TransactionStatus) : TransactionStatus → Type 0 where
  stay : StatusPath from from
  go :
      {a b : TransactionStatus}
      → StatusPath from a
      → transition_exists a b ≡ true
      → StatusPath from b

StatusPath-trans : {a b c : TransactionStatus} → StatusPath a b → StatusPath b c → StatusPath a c
StatusPath-trans p stay = p
StatusPath-trans p (go q x) = go (StatusPath-trans p q) x

-- A later version of a row: the same but for its status, refunded amount, version and date, with an amount refunded that is no less.

pub record LaterVersion (r r' : Transaction) : Type 0 where
  pub frozen : r' ≡ record r {
    status = r'.status;
    refunded_amount = r'.refunded_amount;
    version = r'.version;
    updated_at = r'.updated_at;
  }
  pub grown : r.refunded_amount ≤ r'.refunded_amount
  pub later : r.version < r'.version
  pub path : StatusPath r.status r'.status

-- A row stays what it is, or has become a later version.
abbrev pub Evolves : Transaction → Transaction → Type 0
Evolves r r' = (r' ≡ r) ⊎ LaterVersion r r'

-- A table that another one continues, the newest rows in front.
abbrev pub Continues : {A : Type 0} → List A → List A → Type 0
Continues {A} xs ys = (new : List A) × (ys ≡ new ++ xs)

abbrev pub Evolved : Transaction → Database → Type 0
Evolved r d = (r' : Transaction) × Stored d.transactions r' × (r'.id ≡ r.id) × Evolves r r'

-- Against the rows, the history, the entries and the postings of an earlier database.
pub record Extends (s d : Database) : Type 0 where
  pub rows : All (λ (r : Transaction). Evolved r d) s.transactions
  pub history : Continues s.history d.history
  pub entries : Continues s.entries d.entries
  pub postings : Continues s.postings d.postings

LaterVersion-trans : (a b c : Transaction) → LaterVersion a b → LaterVersion b c → LaterVersion a c
LaterVersion-trans a b c h k = record {
  frozen =
      k.frozen
      ∙ ap
          (λ (x : Transaction). record x {
            status = c.status;
            refunded_amount = c.refunded_amount;
            version = c.version;
            updated_at = c.updated_at;
          })
          h.frozen;
  grown = omega (arith, h.grown, k.grown);
  later = omega (arith, h.later, k.later);
  path = StatusPath-trans h.path k.path;
}

pub Evolves-trans : (a b c : Transaction) → Evolves a b → Evolves b c → Evolves a c
Evolves-trans a b c (inl e) k = rw⁻¹ e k
Evolves-trans a b c (inr h) (inl e) = rw e (inr h)
Evolves-trans a b c (inr h) (inr k) = inr (LaterVersion-trans a b c h k)

pub Continues-trans :
    {A : Type 0} (xs ys zs : List A) → Continues xs ys → Continues ys zs → Continues xs zs
Continues-trans {A} xs ys zs (a, h) (b, k) =
    (b ++ a, k ∙ ap (λ (us : List A). b ++ us) h ∙ sym (append_assoc b a xs))

pub Continues-refl : {A : Type 0} (xs : List A) → Continues xs xs
Continues-refl xs = ([], refl)

-- The row that an update leaves is a later version.
updated_row-LaterVersion :
    (s : Session) (c : TransactionChange) (r : Transaction)
    → r.refunded_amount ≤ (updated_row s c r).refunded_amount
    → StatusPath r.status (updated_row s c r).status
    → LaterVersion r (updated_row s c r)
updated_row-LaterVersion s c r h p = record {
  frozen = refl;
  grown = h;
  later = omega arith;
  path = p;
}

pub push_all-Continues : (ps qs : List LedgerPosting) → Continues qs (push_all ps qs)
push_all-Continues [] qs = Continues-refl qs
push_all-Continues (p ∷ ps) qs =
    Continues-trans qs (p ∷ qs) _ (p ∷ [], refl) (push_all-Continues ps (p ∷ qs))

pub Updated-LaterVersion :
    (s : Session) (c : TransactionChange) (old : Transaction) (d : Database) (t : Transaction)
    (d' : Database)
    → Updated s c old d t d'
    → LaterVersion old t
Updated-LaterVersion s c old d t d' u =
    let moved : StatusPath old.status t.status = elim u.recorded [
      | inl (same, _) ↦ subst (StatusPath old.status) same stay
      | inr (x, _) ↦ go stay x
    ] in
    subst (LaterVersion old) (sym u.row) (
      updated_row-LaterVersion s c old
        (subst (λ (x : Transaction). old.refunded_amount ≤ x.refunded_amount) u.row u.grown)
        (subst (λ (x : Transaction). StatusPath old.status x.status) u.row moved))
