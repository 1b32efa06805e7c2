-- ===== src/System/Books/Kept.antt =====
-- Every call keeps the ledger in step with the statuses.
use ledger_ops_api.Common.{
  ℕ, String, ◌≡◌, arith, false, refl, List, All-map, inl, inr, ◌∙◌, sym, ap, any, some, none, ◌∷◌,
  [],
}
use mathlib.Core.Path.{subst}
use ledger_ops_api.Database.Tables.{
  Database, Transaction, EntryDirection, JournalEntry, LedgerPosting, initiated, expired,
  TransactionStatus,
}
use ledger_ops_api.Database.Sql.{Session, Env}
use ledger_ops_api.Database.Rows.{by_id, TransactionData, transaction_create, new_row}
use ledger_ops_api.Database.Rows.Keys.{Stored, find-by_id}
use ledger_ops_api.Database.Rows.Updates.{Updated}
use ledger_ops_api.Database.Rows.Inserts.{Inserted, transaction_create-Inserted}
use ledger_ops_api.Transactions.Service.{TransitionStatusDto, transition, Outcome, by_reference}
use ledger_ops_api.Transactions.Service.Books.{capture-writes}
use ledger_ops_api.Transactions.Service.Runs.{transition_cases, after_commit-keeps}
use ledger_ops_api.Transactions.Service.Moves.{Moved}
use ledger_ops_api.Transactions.Expiration.Batch.{expire}
use ledger_ops_api.System.Preservation.{CallPreserves, ok-Preserves}
use ledger_ops_api.System.Trail.{Unique-Keyed, any-collides}
use ledger_ops_api.System.Kept.{Kept, SameLedger}
use ledger_ops_api.System.Batches.{expire_one_batch-Expires, Expiring}
use ledger_ops_api.System.Refunds.Transitions.{Owing-same, transition-Settled}
use ledger_ops_api.System.Refunds.Kept.{Inserted-Settled, Settled-Expiring, parent_known-cons}
use ledger_ops_api.System.Books.Ledger.{Booked}
use ledger_ops_api.System.Books.Totals.{booked, EntriesKnown, is_about}
use ledger_ops_api.System.Books.Updates.{Updated-Booked_steady}
use ledger_ops_api.System.Books.Moves.{Accurate, Aftermath-Booked}
use ledger_ops_api.System.Refunds.Totals.{confirmed_amount, parent-other}
use ledger_ops_api.System.Books.Dues.{due}

module _ (side : EntryDirection) where
  Booked-same :
      (d d' : Database) → SameLedger d d' → Booked side (λ _. 0) d → Booked side (λ _. 0) d'
  Booked-same d d' same w = record {
    postings = rw (same.entries, same.postings) w.postings;
    entries = rw (same.transactions, same.entries) w.entries;
    dues = rw (same.transactions, same.entries, same.postings) w.dues;
  }

  Accurate-same : (d d' : Database) → SameLedger d d' → Accurate side d → Accurate side d'
  Accurate-same d d' same w = record {
    settled = Owing-same (λ _. 0) d d' same.transactions same.history w.settled;
    ledger = Booked-same d d' same w.ledger;
  }

  Moved-Booked :
      (s : Session) (row : Transaction) (status : TransactionStatus) (d : Database) (out : Outcome)
      (d' : Database)
      → Stored d.transactions row
      → Moved s row status d out d'
      → Accurate side d
      → Booked side (λ _. 0) d'
  Moved-Booked s row status d out d' h m w =
      let same : m.old ≡ row = let z = m.old_is in cc in
      let u =
        subst
          (λ (x : Transaction).
            Updated s (record { status = some status; refunded_amount = none }) x d m.first
              m.middle)
          same m.first_update in
      Aftermath-Booked side s row status d m.first m.middle h u w.settled w.ledger m.result d'
        m.aftermath

  transition-Booked :
      (reference : String) (dto : TransitionStatusDto) (v : ℕ) (env : Env) (d : Database)
      → Accurate side d
      → Booked side (λ _. 0) (transition reference dto v env d).1
  transition-Booked reference dto v env d w = elim (transition_cases reference dto v env d) [
    | inl (e, h) ↦ rw h w.ledger
    | inr (out, d', ran, h) ↦
        subst (Booked side (λ _. 0)) (sym (ap (λ x. x.1) h ∙ after_commit-keeps out env d'))
          (elim ran.ran [
            | inl (late, c) ↦
                subst (Booked side (λ _. 0)) (sym (capture-writes ran.row dto _ d c).1) (record {
                  postings = w.ledger.postings;
                  entries = w.ledger.entries;
                  dues = w.ledger.dues;
                })
            | inr (on_time, m) ↦
                Moved-Booked _ ran.row dto.status d out d'
                  (find-by_id (by_reference reference) d.transactions ran.row
                    (Unique-Keyed d.transactions w.settled.rows.unique) ran.found)
                  m w
          ])
  ]

  transition-Accurate :
      (reference : String) (dto : TransitionStatusDto) (v : ℕ)
      → CallPreserves (Accurate side) (transition reference dto v)
  unfolding CallPreserves
  transition-Accurate reference dto v env d w = record {
    settled = transition-Settled reference dto v env d w.settled;
    ledger = transition-Booked reference dto v env d w;
  }

  Accurate-Expiring : Expiring (Accurate side)
  Accurate-Expiring = record {
    keyed = λ d w. Settled-Expiring.keyed d w.settled;
    expiry = λ s r d t d' h p u w.
        let st : t.status ≡ expired = ap (λ (y : Transaction). y.status) u.row in
        record {
          settled = Settled-Expiring.expiry s r d t d' h p u w.settled;
          ledger =
              Updated-Booked_steady side s expire r d t d' h u w.settled.rows (λ _. 0) (λ _ e. cc)
                (λ e. absurd (cc)) w.ledger;
        };
  }

  is_about-unknown :
      (i j : ℕ) (ts : List Transaction) (es : List JournalEntry)
      → any (by_id i) ts ≡ false
      → EntriesKnown ts es
      → is_about i es j ≡ false
  is_about-unknown i j ts [] h k = refl
  is_about-unknown i j ts (e ∷ es) h k =
      let o = parent-other i e.transaction_id ts h k.0 in
      rw o (ground (arith, is_about-unknown i j ts es h k.1))

  booked-unknown :
      (i : ℕ) (ts : List Transaction) (es : List JournalEntry) (ps : List LedgerPosting)
      → any (by_id i) ts ≡ false
      → EntriesKnown ts es
      → booked side i es ps ≡ 0
  booked-unknown i ts es [] h k = refl
  booked-unknown i ts es (p ∷ ps) h k =
      let n = is_about-unknown i p.entry_id ts es h k in
      ground (arith, booked-unknown i ts es ps h k)

  Inserted-Booked :
      (s : Session) (x : TransactionData) (d : Database) (t : Transaction) (d' : Database)
      → Inserted s x d t d'
      → Booked side (λ _. 0) d
      → Booked side (λ _. 0) d'
  unfolding new_row
  Inserted-Booked s x d t d' i w =
      let st : t.status ≡ initiated = ap (λ (y : Transaction). y.status) i.row in
      let fresh = any-collides t d.transactions i.unique in
      let nothing = booked-unknown t.id d.transactions d.entries d.postings fresh w.entries in
      let other = λ (j : ℕ). let z : confirmed_amount j t ≡ 0 = ground arith in z in
      subst (Booked side (λ _. 0)) (sym i.writes) (record {
        postings = w.postings;
        entries =
            All-map _ _ (λ e k. parent_known-cons e.transaction_id t d.transactions k) d.entries
              w.entries;
        dues = (
          rw (st) (omega (arith, nothing)),
          All-map _ _ (λ y e. e ∙ ap (λ n. due n y) (omega (arith, other y.id))) d.transactions
              w.dues,
        );
      })

  pub Accurate-Kept : Kept (Accurate side)
  Accurate-Kept = record {
    creations = λ x. ok-Preserves (Accurate side) (transaction_create x) λ s d t d' e w.
        let i = transaction_create-Inserted x s d e in
        record {
          settled = Inserted-Settled s x d t d' i w.settled;
          ledger = Inserted-Booked s x d t d' i w.ledger;
        };
    transitions = transition-Accurate;
    batches = expire_one_batch-Expires (Accurate side) Accurate-Expiring;
    others = Accurate-same;
  }
