-- ===== src/System/Books/Ledger.antt =====
-- Databases whose ledger has booked what is due, less what is still to be booked.
use ledger_ops_api.Common.{
  ℕ, ◌+◌, ◌≡◌, ◌≢◌, arith, true, false, List, All, All-map, All-find, inl, inr, ◌∙◌, sym, ap, any,
  ◌∷◌, some, Bool-cases, if◌then◌else◌, ◌==◌, [], All-zip,
}
use mathlib.Core.Path.{subst}
use ledger_ops_api.Database.Tables.{
  Database, Transaction, JournalEntry, LedgerPosting, EntryDirection,
}
use ledger_ops_api.Database.Sql.{Session}
use ledger_ops_api.Database.Rows.{replace, by_id, TransactionChange}
use ledger_ops_api.Database.Rows.Keys.{Stored}
use ledger_ops_api.Database.Rows.Updates.{Updated}
use ledger_ops_api.Database.Ledger.{total}
use ledger_ops_api.Database.Ledger.Statements.{push_all, entry_by_id}
use ledger_ops_api.System.Rows.{All-replace}
use ledger_ops_api.System.Refunds.Totals.{refunds_total}
use ledger_ops_api.System.Refunds.Owing.{parent_known-replace}
use ledger_ops_api.System.Books.Totals.{
  booked, booked-entry, booked-push_all, booked-own, booked-other, PostingsKnown, EntriesKnown,
  LinesOf,
}
use ledger_ops_api.System.Books.Dues.{due}

module _ (side : EntryDirection) where
  abbrev pub Dues : (ℕ → ℕ) → List Transaction → List JournalEntry → List LedgerPosting → Type 0
  Dues open_amount ts es ps =
      All
        (λ (t : Transaction).
          booked side t.id es ps + open_amount t.id ≡ due (refunds_total t.id ts) t)
        ts

  -- The ledger of a database, with what is still to be booked for each id.
  pub record Booked (open_amount : ℕ → ℕ) (d : Database) : Type 0 where
    pub postings : PostingsKnown d.entries d.postings
    pub entries : EntriesKnown d.transactions d.entries
    pub dues : Dues open_amount d.transactions d.entries d.postings

  -- What is to be booked for one transaction.
  abbrev pub only : ℕ → ℕ → ℕ → ℕ
  only j a i = if i == j then a else 0

  Dues-replace :
      (o o' : ℕ → ℕ) (u r : Transaction) (ts : List Transaction) (es : List JournalEntry)
      (ps : List LedgerPosting)
      → u.id ≡ r.id
      → Stored ts r
      → All
          (λ (t : Transaction).
            t.id ≢ u.id
            → (o' t.id ≡ o t.id)
              × (due (refunds_total t.id (replace u ts)) t ≡ due (refunds_total t.id ts) t))
          ts
      → due (refunds_total r.id ts) r + o' r.id ≡ due (refunds_total r.id (replace u ts)) u + o r.id
      → Dues o ts es ps
      → Dues o' (replace u ts) es ps
  Dues-replace o o' u r ts es ps same h others own k =
      let mine : booked side r.id es ps + o' r.id ≡ due (refunds_total r.id (replace u ts)) u =
        omega (arith, own, All-find _ _ ts k h) in
      All-replace _ u ts
        (subst (λ i. booked side i es ps + o' i ≡ due (refunds_total i (replace u ts)) u) (sym same)
          mine)
        (All-zip
          (λ (t : Transaction). booked side t.id es ps + o t.id ≡ due (refunds_total t.id ts) t) _ _
          (λ t e q n. let (x, y) = q n in omega (arith, e, x, y)) ts k others)

  -- An update of a row, whatever it does to what is due.
  pub Updated-Booked :
      (o o' : ℕ → ℕ) (s : Session) (c : TransactionChange) (old : Transaction) (d : Database)
      (t : Transaction) (d' : Database)
      → Stored d.transactions old
      → Updated s c old d t d'
      → All
          (λ (x : Transaction).
            x.id ≢ t.id
            → (o' x.id ≡ o x.id)
              × (due (refunds_total x.id (replace t d.transactions)) x
                  ≡ due (refunds_total x.id d.transactions) x))
          d.transactions
      → due (refunds_total old.id d.transactions) old + o' old.id
        ≡ due (refunds_total old.id (replace t d.transactions)) t + o old.id
      → Booked o d
      → Booked o' d'
  Updated-Booked o o' s c old d t d' h u others own w =
      let rows = ap (λ (x : Database). x.transactions) u.writes in
      let es = ap (λ (x : Database). x.entries) u.writes in
      let ps = ap (λ (x : Database). x.postings) u.writes in
      record {
        postings = rw (es, ps) w.postings;
        entries =
            rw (rows, es)
              (All-map _ _ (λ e k. parent_known-replace e.transaction_id t d.transactions ∙ k)
                d.entries w.entries);
        dues =
            rw (rows, es, ps)
              (Dues-replace o o' t old d.transactions d.entries d.postings
                (ap (λ (y : Transaction). y.id) u.row) h others own w.dues);
      }

  known-cons :
      (e : JournalEntry) (es : List JournalEntry) (ps : List LedgerPosting)
      → PostingsKnown es ps
      → PostingsKnown (e ∷ es) ps
  known-cons e es ps k = All-map _ _ (λ p x. ground arith) ps k

  known-push_all :
      (e : JournalEntry) (es : List JournalEntry) (lines ps : List LedgerPosting)
      → LinesOf e.id lines
      → PostingsKnown (e ∷ es) ps
      → PostingsKnown (e ∷ es) (push_all lines ps)
  known-push_all e es [] ps l k = k
  known-push_all e es (p ∷ lines) ps l k =
      known-push_all e es lines (p ∷ ps) l.1 (rw (l.0) (ground arith), k)

  -- An entry books what was to be booked.
  pub Entry-Booked :
      (j amount : ℕ) (e : JournalEntry) (lines : List LedgerPosting) (d d' : Database)
      → e.transaction_id ≡ some j
      → any (entry_by_id e.id) d.entries ≡ false
      → any (by_id j) d.transactions ≡ true
      → (total side lines ≡ amount) × LinesOf e.id lines
      → d' ≡ record d { entries = e ∷ d.entries; postings = push_all lines d.postings }
      → Booked (only j amount) d
      → Booked (λ _. 0) d'
  Entry-Booked j amount e lines d d' a fresh here (sum, own) w k =
      subst (Booked (λ _. 0)) (sym w) (record {
        postings =
            known-push_all e d.entries lines d.postings own
              (known-cons e d.entries d.postings k.postings);
        entries = (rw a here, k.entries);
        dues =
            All-map _ _
              (λ t h.
                let split = booked-push_all side t.id (e ∷ d.entries) lines d.postings in
                let before = booked-entry side t.id e d.entries d.postings fresh k.postings in
                elim (Bool-cases (t.id == j)) [
                  | inl y ↦
                      let z : t.id ≡ j = ground arith in
                      let mine = booked-own side j e d.entries lines a own in
                      let mine' : booked side t.id (e ∷ d.entries) lines ≡ total side lines =
                        rw z mine in
                      let h' : booked side t.id d.entries d.postings + amount
                          ≡ due (refunds_total t.id d.transactions) t =
                        rw y at h in
                      omega (arith, split, before, mine', sum, h')
                  | inr n ↦
                      let none_of =
                        booked-other side t.id j e d.entries lines a (ground arith) fresh own in
                      let h' : booked side t.id d.entries d.postings + 0
                          ≡ due (refunds_total t.id d.transactions) t =
                        rw n at h in
                      omega (arith, split, before, none_of, h')
                ])
              d.transactions k.dues;
      })
