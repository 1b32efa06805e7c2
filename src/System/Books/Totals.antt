-- ===== src/System/Books/Totals.antt =====
-- What the ledger has booked for a transaction, on each side, and how an entry adds to it.
use ledger_ops_api.Common.{
  ℕ, ◌+◌, ◌≡◌, List, [], ◌∷◌, Bool, ◌&&◌, if◌then◌else◌, option_eq, ◌==◌, some, Bool-cases, inl,
  inr, arith, true, false, refl, any, All, none, Option, is_some, ltb, ◌≢◌, sym,
}
use ledger_ops_api.Database.Tables.{
  Transaction, JournalEntry, LedgerPosting, EntryDirection, direction_eq, debit, credit,
}
use ledger_ops_api.Database.Rows.{parent_known}
use ledger_ops_api.Database.Ledger.{total}
use ledger_ops_api.Database.Ledger.Statements.{push_all, entry_by_id}
use ledger_ops_api.Transactions.Booking.Payment.{payment_postings, compute_commission}
use ledger_ops_api.Transactions.Booking.Refund.{return_postings}
use ledger_ops_api.Transactions.Booking.Balance.{compute_commission_bounds}
use mathlib.Core.Path.{subst}

-- Whether the entry is about the transaction.
abbrev pub is_about : ℕ → List JournalEntry → ℕ → Bool
is_about i es j =
    any (λ (e : JournalEntry). e.id == j && option_eq ◌==◌ e.transaction_id (some i)) es

abbrev pub booked : EntryDirection → ℕ → List JournalEntry → List LedgerPosting → ℕ
booked side i es [] = 0
booked side i es (p ∷ ps) =
    (if direction_eq p.direction side && is_about i es p.entry_id then p.amount else 0)
    + booked side i es ps

-- Postings of known entries, and entries about known transactions.
abbrev pub PostingsKnown : List JournalEntry → List LedgerPosting → Type 0
PostingsKnown es ps = All (λ (p : LedgerPosting). any (entry_by_id p.entry_id) es ≡ true) ps

abbrev pub EntriesKnown : List Transaction → List JournalEntry → Type 0
EntriesKnown ts es = All (λ (e : JournalEntry). parent_known e.transaction_id ts ≡ true) es

is_about-absent :
    (i j : ℕ) (es : List JournalEntry) → any (entry_by_id j) es ≡ false → is_about i es j ≡ false
is_about-absent i j [] h = refl
is_about-absent i j (e ∷ es) h = ground (arith, is_about-absent i j es)

-- A new entry has no postings yet.
pub booked-entry :
    (side : EntryDirection) (i : ℕ) (e : JournalEntry) (es : List JournalEntry)
    (ps : List LedgerPosting)
    → any (entry_by_id e.id) es ≡ false
    → PostingsKnown es ps
    → booked side i (e ∷ es) ps ≡ booked side i es ps
booked-entry side i e es [] h k = refl
booked-entry side i e es (p ∷ ps) h k = elim (Bool-cases (e.id == p.entry_id)) [
  | inl y ↦
      let q : e.id ≡ p.entry_id = ground arith in
      let x : any (entry_by_id p.entry_id) es ≡ false = rw⁻¹ q h in cc
  | inr n ↦ rw n (ground (arith, booked-entry side i e es ps h k.1))
]

pub booked-push_all :
    (side : EntryDirection) (i : ℕ) (es : List JournalEntry) (lines ps : List LedgerPosting)
    → booked side i es (push_all lines ps) ≡ booked side i es lines + booked side i es ps
booked-push_all side i es [] ps = omega arith
booked-push_all side i es (p ∷ lines) ps = omega (arith, booked-push_all side i es lines (p ∷ ps))

-- The lines of an entry.
abbrev pub LinesOf : ℕ → List LedgerPosting → Type 0
LinesOf j lines = All (λ (p : LedgerPosting). p.entry_id ≡ j) lines

pub booked-own :
    (side : EntryDirection) (i : ℕ) (e : JournalEntry) (es : List JournalEntry)
    (lines : List LedgerPosting)
    → e.transaction_id ≡ some i
    → LinesOf e.id lines
    → booked side i (e ∷ es) lines ≡ total side lines
unfolding total
booked-own side i e es [] a k = refl
booked-own side i e es (p ∷ lines) a k =
    rw (k.0, a) (ground (arith, booked-own side i e es lines a k.1))

pub booked-other :
    (side : EntryDirection) (i j : ℕ) (e : JournalEntry) (es : List JournalEntry)
    (lines : List LedgerPosting)
    → e.transaction_id ≡ some j
    → i ≢ j
    → any (entry_by_id e.id) es ≡ false
    → LinesOf e.id lines
    → booked side i (e ∷ es) lines ≡ 0
booked-other side i j e es [] a n h k = refl
booked-other side i j e es (p ∷ lines) a n h k =
    let x : is_about i (e ∷ es) p.entry_id ≡ false =
      subst (λ m. is_about i (e ∷ es) m ≡ false) (sym k.0)
        (rw (a, is_about-absent i e.id es h) (ground arith)) in
    rw x (ground (arith, booked-other side i j e es lines a n h k.1))

pub payment_postings-total :
    (side : EntryDirection) (t : Transaction) (e a b : ℕ) (f : Option ℕ)
    → is_some f ≡ ltb 0 (compute_commission t.amount)
    → (total side (payment_postings t e a b f) ≡ t.amount) × LinesOf e (payment_postings t e a b f)
unfolding payment_postings total
payment_postings-total debit t e a b none due = (omega arith, (refl, (refl, tt)))
payment_postings-total debit t e a b (some f) due = (omega arith, (refl, (refl, (refl, tt))))
payment_postings-total credit t e a b none due =
    (ground (arith, compute_commission_bounds t.amount), (refl, (refl, tt)))
payment_postings-total credit t e a b (some f) due =
    (omega (arith, compute_commission_bounds t.amount), (refl, (refl, (refl, tt))))

pub return_postings-total :
    (side : EntryDirection) (t : Transaction) (amount e a b : ℕ)
    → (total side (return_postings t amount e a b) ≡ amount)
      × LinesOf e (return_postings t amount e a b)
unfolding return_postings total
return_postings-total debit t amount e a b = (omega arith, (refl, (refl, tt)))
return_postings-total credit t amount e a b = (omega arith, (refl, (refl, tt)))
