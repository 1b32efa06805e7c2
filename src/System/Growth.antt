-- ===== src/System/Growth.antt =====
-- Every write of the service makes a database that extends the earlier ones.
use ledger_ops_api.Database.Tables.{Transaction, Database}
use ledger_ops_api.Common.{
  List, ◌≡◌, All, arith, [], inl, ◌∙◌, inr, refl, ap, any, sym, Bool-cases, All-map, ◌==◌, false,
  ◌∷◌, find, some, none, ℕ,
}
use ledger_ops_api.Database.Sql.{Session}
use ledger_ops_api.Database.Rows.Keys.{Stored, any_of_find, find-replace_self, find-replace_ne}
use ledger_ops_api.Database.Rows.{
  TransactionChange, replace, TransactionData, collides, history_entry, by_id,
}
use ledger_ops_api.Database.Rows.Updates.{Updated}
use ledger_ops_api.System.Kept.{SameLedger, Written}
use ledger_ops_api.Database.Rows.Inserts.{Inserted}
use mathlib.Core.Path.{subst}
use ledger_ops_api.System.Trail.{any-collides, Unique, Unique-Keyed}
use ledger_ops_api.System.Rows.{RowsWellFormed, RowsWellFormed-Written}
use ledger_ops_api.Transactions.Expiration.Batch.{Keyed-Stored}
use ledger_ops_api.System.Extends.{
  LaterVersion, Extends, Evolved, Continues-trans, Evolves-trans, Updated-LaterVersion, Continues,
  Evolves, push_all-Continues, Continues-refl,
}

-- One row after the update of another, or its own.
Evolved-replace :
    (old t r : Transaction) (d d' : Database)
    → t.id ≡ old.id
    → Stored d.transactions old
    → d'.transactions ≡ replace t d.transactions
    → LaterVersion old t
    → Evolved r d
    → Evolved r d'
Evolved-replace old t r d d' i h w l (r', stored, same, e) = elim (Bool-cases (r'.id == t.id)) [
  | inl y ↦
      let at_old : r'.id ≡ old.id = ground arith in
      let g = ap (λ (j : ℕ). find (by_id j) d.transactions) (sym at_old) ∙ stored in
      let is : r' ≡ old = cc in
      let found : find (by_id t.id) d.transactions ≡ some old = rw i h in
      (
        t,
        ap (find (by_id t.id)) w ∙ find-replace_self t d.transactions found,
        i ∙ ap (λ (x : Transaction). x.id) (sym is) ∙ same,
        Evolves-trans r r' t e (inr (rw is l)),
      )
  | inr n ↦ (
    r',
    ap (find (by_id r'.id)) w ∙ find-replace_ne r'.id t d.transactions (ground arith) ∙ stored,
    same,
    e,
  )
]

Extends-update :
    (from : Database) (s : Session) (c : TransactionChange) (old : Transaction) (d : Database)
    (t : Transaction) (d' : Database)
    → Stored d.transactions old
    → Updated s c old d t d'
    → Extends from d
    → Extends from d'
Extends-update from s c old d t d' h u x = record {
  rows =
      All-map _ _
        (λ r e.
          Evolved-replace old t r d d' (ap (λ (y : Transaction). y.id) u.row) h
            (ap (λ (y : Database). y.transactions) u.writes) (Updated-LaterVersion s c old d t d' u)
            e)
        from.transactions x.rows;
  history = Continues-trans from.history d.history d'.history x.history (elim u.recorded [
    | inl (st, hs) ↦ ([], hs)
    | inr (m, (a, is, hs)) ↦ (history_entry a s.env.current_timestamp (some old.status) t ∷ [], hs)
  ]);
  entries =
      subst (Continues from.entries) (sym (ap (λ (y : Database). y.entries) u.writes)) x.entries;
  postings =
      subst (Continues from.postings) (sym (ap (λ (y : Database). y.postings) u.writes)) x.postings;
}

Evolved-insert :
    (t r : Transaction) (d d' : Database)
    → any (collides t) d.transactions ≡ false
    → d'.transactions ≡ t ∷ d.transactions
    → Evolved r d
    → Evolved r d'
Evolved-insert t r d d' n w (r', stored, same, e) =
    let known = any_of_find (by_id r'.id) d.transactions r' stored in
    let new = any-collides t d.transactions n in
    let other : (t.id == r'.id) ≡ false = elim (Bool-cases (t.id == r'.id)) [
      | inl y ↦ let at_same : t.id ≡ r'.id = ground arith in absurd (cc)
      | inr z ↦ z
    ] in
    (r', ap (find (by_id r'.id)) w ∙ rw other stored, same, e)

Extends-insertion :
    (from : Database) (s : Session) (x : TransactionData) (d : Database) (t : Transaction)
    (d' : Database)
    → Inserted s x d t d'
    → Extends from d
    → Extends from d'
Extends-insertion from s x d t d' i e = record {
  rows =
      All-map _ _
        (λ r h. Evolved-insert t r d d' i.unique (ap (λ (y : Database). y.transactions) i.writes) h)
        from.transactions e.rows;
  history = Continues-trans from.history d.history d'.history e.history (
    history_entry i.actor s.env.current_timestamp none t ∷ [],
    ap (λ (y : Database). y.history) i.writes,
  );
  entries =
      subst (Continues from.entries) (sym (ap (λ (y : Database). y.entries) i.writes)) e.entries;
  postings =
      subst (Continues from.postings) (sym (ap (λ (y : Database). y.postings) i.writes)) e.postings;
}

Extends-others : (from d d' : Database) → SameLedger d d' → Extends from d → Extends from d'
Extends-others from d d' same x = record {
  rows =
      subst
        (λ (ts : List Transaction).
          All
            (λ (r : Transaction). (r' : Transaction) × Stored ts r' × (r'.id ≡ r.id) × Evolves r r')
            from.transactions)
        (sym same.transactions) x.rows;
  history = subst (Continues from.history) (sym same.history) x.history;
  entries = subst (Continues from.entries) (sym same.entries) x.entries;
  postings = subst (Continues from.postings) (sym same.postings) x.postings;
}

-- A well-formed database that extends an earlier one.
abbrev pub GrownFrom : Database → Database → Type 0
GrownFrom from d = RowsWellFormed d × Extends from d

pub GrownFrom-Written : (from : Database) → Written (GrownFrom from)
GrownFrom-Written from = record {
  keyed = λ d p. RowsWellFormed-Written.keyed d p.0;
  insertion = λ s x d t d' i p.
      (RowsWellFormed-Written.insertion s x d t d' i p.0, Extends-insertion from s x d t d' i p.1);
  update = λ s c old d t d' h u p. (
    RowsWellFormed-Written.update s c old d t d' h u p.0,
    Extends-update from s c old d t d' h u p.1,
  );
  entry = λ e d p. (
    p.0,
    record {
      rows = p.1.rows;
      history = p.1.history;
      entries = Continues-trans from.entries d.entries _ p.1.entries (e ∷ [], refl);
      postings = p.1.postings;
    },
  );
  posted = λ ps d p. (
    p.0,
    record {
      rows = p.1.rows;
      history = p.1.history;
      entries = p.1.entries;
      postings =
          Continues-trans from.postings d.postings _ p.1.postings
            (push_all-Continues ps d.postings);
    },
  );
  others = λ d d' same p.
      (RowsWellFormed-Written.others d d' same p.0, Extends-others from d d' same p.1);
}

Keyed-Evolved :
    (ts : List Transaction) (d : Database)
    → All (Stored d.transactions) ts
    → All (λ (r : Transaction). Evolved r d) ts
Keyed-Evolved ts d k = All-map _ _ (λ r h. (r, h, refl, inl refl)) ts k

pub Extends-refl : (d : Database) → Unique d.transactions → Extends d d
Extends-refl d u = record {
  rows =
      Keyed-Evolved d.transactions d (Keyed-Stored d.transactions (Unique-Keyed d.transactions u));
  history = Continues-refl d.history;
  entries = Continues-refl d.entries;
  postings = Continues-refl d.postings;
}
