-- ===== src/Transactions/Booking/Effects.antt =====
-- What the bookings write.
use mathlib.Core.Path.{subst}
use ledger_ops_api.Common.{
  refl, [], ◌∷◌, ok, String, List, Option, find, any, ℕ, ◌≡◌, str_eq, true, ◌==◌, filter, some,
  is_some, ltb, Bool-cases, arith, sym, inl, str_eq_iff, ◌∙◌, inr, str_eq_refl, Bool, if◌then◌else◌,
  none, false,
}
use ledger_ops_api.Transactions.Booking.Accounts.{
  id_of, merchant_find_unique_or_throw, accounts_find_many, clearing_account_code,
  merchant_payable_account_code, fees_code,
}
use ledger_ops_api.Database.Tables.{Transaction, Database, LedgerAccount, Merchant, JournalEntry}
use ledger_ops_api.Transactions.Booking.Payment.{
  book_payment_success, compute_commission, payment_postings,
}
use ledger_ops_api.Database.Sql.{Session, ◌>>=◌, pure}
use ledger_ops_api.Database.Sql.Inversion.{or_throw-eq-ok, bind-elim}
use ledger_ops_api.Database.Ledger.Statements.{
  push_all, journal_entry_create-writes, posting_create_many-writes, entry_by_id,
}
use ledger_ops_api.Transactions.Booking.Refund.{return_postings, book_return}

-- The account of a code, among all of them.
abbrev pub account_of : String → Database → Option LedgerAccount
account_of code d = find (λ (a : LedgerAccount). str_eq a.code code) d.accounts

find-filter :
    (code : String) (codes : List String) (xs : List LedgerAccount)
    → any (str_eq code) codes ≡ true
    → find
        (λ (a : LedgerAccount). str_eq a.code code)
        (filter (λ (a : LedgerAccount). any (str_eq a.code) codes) xs)
      ≡ find (λ (a : LedgerAccount). str_eq a.code code) xs
find-filter code codes [] h = refl
find-filter code codes (x ∷ xs) h = elim (Bool-cases (str_eq x.code code)) [
  | inl t ↦
      let e : x.code ≡ code = (str_eq_iff x.code code).0 t in
      let y : any (str_eq x.code) codes ≡ true =
        subst (λ k. any (str_eq k) codes ≡ true) (sym e) h in
      rw y (rw t)
  | inr f ↦ elim (Bool-cases (any (str_eq x.code) codes)) [
    | inl y ↦ rw (y, f) (find-filter code codes xs h)
    | inr n ↦ rw (n, f) (find-filter code codes xs h)
  ]
]

-- Each of the codes of a booking is among those that it looks for.
any-first : (a : String) (xs : List String) → any (str_eq a) (a ∷ xs) ≡ true
any-first a xs = rw (str_eq_refl a)

any-second : (a b : String) (xs : List String) → any (str_eq b) (a ∷ b ∷ xs) ≡ true
any-second a b xs = ground (arith, str_eq_refl b)

-- `idOf` returns the id of the account with this code.
id_of-eq-ok :
    (code : String) (codes : List String) (s : Session) (d d₁ : Database) (xs : List LedgerAccount)
    {i : ℕ} {d' : Database}
    → any (str_eq code) codes ≡ true
    → xs ≡ filter (λ (a : LedgerAccount). any (str_eq a.code) codes) d.accounts
    → id_of xs code s d₁ ≡ ok (i, d')
    → (d' ≡ d₁) × ((a : LedgerAccount) × (account_of code d ≡ some a) × (i ≡ a.id))
unfolding id_of
id_of-eq-ok code codes s d d₁ xs {i} {d'} member listed h = bind-elim _ _ s d₁ h λ a d₂ e r.
    let (found, keep) = or_throw-eq-ok _ _ s d₁ e in
    let found' : find (λ (x : LedgerAccount). str_eq x.code code)
          (filter (λ (x : LedgerAccount). any (str_eq x.code) codes) d.accounts)
        ≡ some a =
      rw listed at found in
    (cc, (a, sym (find-filter code codes d.accounts member) ∙ found', cc))

merchant-found :
    (i : ℕ) (s : Session) (d : Database) {m : Merchant} {d' : Database}
    → merchant_find_unique_or_throw i s d ≡ ok (m, d')
    → (find (λ (x : Merchant). x.id == i) d.merchants ≡ some m) × (d' ≡ d)
unfolding merchant_find_unique_or_throw ◌>>=◌
merchant-found i s d h = or_throw-eq-ok _ _ s d h

accounts-found :
    (codes : List String) (s : Session) (d d₁ : Database) {xs : List LedgerAccount} {d' : Database}
    → d₁ ≡ d
    → accounts_find_many codes s d₁ ≡ ok (xs, d')
    → (xs ≡ filter (λ (a : LedgerAccount). any (str_eq a.code) codes) d.accounts) × (d' ≡ d)
unfolding accounts_find_many
accounts-found codes s d d₁ same h = (cc, cc)

-- The fees account is looked up where there is a commission.
fees-found :
    (due : Bool) (accounts : List LedgerAccount) (s : Session) (d : Database) {f : Option ℕ}
    {d' : Database}
    → (if due then (id_of accounts fees_code >>= λ i. pure (some i)) else pure none) s d
      ≡ ok (f, d')
    → (is_some f ≡ due) × (d' ≡ d)
unfolding id_of ◌>>=◌
fees-found due accounts s d {f} {d'} h = ground arith

-- A confirmed payment writes one entry with its lines.
pub record PaymentBooked (t : Transaction) (d d' : Database) : Type 0 where
  pub merchant : Merchant
  pub clearing : LedgerAccount
  pub payable : LedgerAccount
  pub fees : Option ℕ
  pub entry : JournalEntry
  pub known : find (λ (m : Merchant). m.id == t.merchant_id) d.merchants ≡ some merchant
  pub clearing_is : account_of (clearing_account_code t.provider) d ≡ some clearing
  pub payable_is : account_of (merchant_payable_account_code merchant.code) d ≡ some payable
  pub fees_due : is_some fees ≡ ltb 0 (compute_commission t.amount)
  pub about : entry.transaction_id ≡ some t.id
  pub fresh : any (entry_by_id entry.id) d.entries ≡ false
  pub writes : d' ≡ record d {
    entries = entry ∷ d.entries;
    postings = push_all (payment_postings t entry.id clearing.id payable.id fees) d.postings;
  }

pub book_payment_success-PaymentBooked :
    (t : Transaction) (s : Session) (d : Database) {u : Unit {0}} {d' : Database}
    → book_payment_success t s d ≡ ok (u, d')
    → PaymentBooked t d d'
unfolding book_payment_success
book_payment_success-PaymentBooked t s d {u} {d'} h = bind-elim _ _ s d h λ m d₁ h₁ r₁.
    bind-elim _ _ s d₁ r₁ λ accounts d₂ h₂ r₂. bind-elim _ _ s d₂ r₂ λ e d₃ h₃ r₃.
      bind-elim _ _ s d₃ r₃ λ c d₄ h₄ r₄. bind-elim _ _ s d₄ r₄ λ p d₅ h₅ r₅.
        bind-elim _ _ s d₅ r₅ λ f d₆ h₆ r₆.
          let (known, k₁) = merchant-found t.merchant_id s d h₁ in
          let clearing_code = clearing_account_code t.provider in
          let payable_code = merchant_payable_account_code m.code in
          let codes = clearing_code ∷ payable_code ∷ fees_code ∷ [] in
          let (listed, k₂) = accounts-found codes s d d₁ k₁ h₂ in
          let (wrote, _, about, fresh) = journal_entry_create-writes _ s d₂ h₃ in
          let (k₄, (clearing, clearing_is, ce)) =
            id_of-eq-ok clearing_code codes s d d₃ accounts
              (any-first clearing_code (payable_code ∷ fees_code ∷ [])) listed h₄ in
          let (k₅, (payable, payable_is, pe)) =
            id_of-eq-ok payable_code codes s d d₄ accounts
              (any-second clearing_code payable_code (fees_code ∷ [])) listed h₅ in
          let (due, k₆) = fees-found (ltb 0 (compute_commission t.amount)) accounts s d₅ h₆ in
          let w = posting_create_many-writes _ s d₆ r₆ in
          record {
            merchant = m;
            clearing = clearing;
            payable = payable;
            fees = f;
            entry = e;
            known = known;
            clearing_is = clearing_is;
            payable_is = payable_is;
            fees_due = due;
            about = about;
            fresh = rw k₂ at fresh;
            writes = w ∙ rw (k₆, k₅, k₄, wrote, k₂, ce, pe);
          }

-- Money that goes back writes one entry of two lines.
pub record ReturnBooked (t : Transaction) (amount : ℕ) (d d' : Database) : Type 0 where
  pub merchant : Merchant
  pub clearing : LedgerAccount
  pub payable : LedgerAccount
  pub entry : JournalEntry
  pub known : find (λ (m : Merchant). m.id == t.merchant_id) d.merchants ≡ some merchant
  pub clearing_is : account_of (clearing_account_code t.provider) d ≡ some clearing
  pub payable_is : account_of (merchant_payable_account_code merchant.code) d ≡ some payable
  pub about : entry.transaction_id ≡ some t.id
  pub fresh : any (entry_by_id entry.id) d.entries ≡ false
  pub writes : d' ≡ record d {
    entries = entry ∷ d.entries;
    postings = push_all (return_postings t amount entry.id payable.id clearing.id) d.postings;
  }

pub book_return-ReturnBooked :
    (t : Transaction) (amount : ℕ) (text : String) (s : Session) (d : Database) {u : Unit {0}}
    {d' : Database}
    → book_return t amount text s d ≡ ok (u, d')
    → ReturnBooked t amount d d'
unfolding book_return
book_return-ReturnBooked t amount text s d {u} {d'} h = bind-elim _ _ s d h λ m d₁ h₁ r₁.
    bind-elim _ _ s d₁ r₁ λ accounts d₂ h₂ r₂. bind-elim _ _ s d₂ r₂ λ e d₃ h₃ r₃.
      bind-elim _ _ s d₃ r₃ λ p d₄ h₄ r₄. bind-elim _ _ s d₄ r₄ λ c d₅ h₅ r₅.
        let (known, k₁) = merchant-found t.merchant_id s d h₁ in
        let clearing_code = clearing_account_code t.provider in
        let payable_code = merchant_payable_account_code m.code in
        let codes = clearing_code ∷ payable_code ∷ [] in
        let (listed, k₂) = accounts-found codes s d d₁ k₁ h₂ in
        let (wrote, _, about, fresh) = journal_entry_create-writes _ s d₂ h₃ in
        let (k₄, (payable, payable_is, pe)) =
          id_of-eq-ok payable_code codes s d d₃ accounts (any-second clearing_code payable_code [])
            listed h₄ in
        let (k₅, (clearing, clearing_is, ce)) =
          id_of-eq-ok clearing_code codes s d d₄ accounts
            (any-first clearing_code (payable_code ∷ [])) listed h₅ in
        let w = posting_create_many-writes _ s d₅ r₅ in
        record {
          merchant = m;
          clearing = clearing;
          payable = payable;
          entry = e;
          known = known;
          clearing_is = clearing_is;
          payable_is = payable_is;
          about = about;
          fresh = rw k₂ at fresh;
          writes = w ∙ rw (k₅, k₄, wrote, k₂, ce, pe);
        }
