-- ===== src/Merchants/Creation.antt =====
-- A merchant and its payable account.
use ledger_ops_api.Database.Sql.{Session, ◌>>=◌, Env, Table}
use ledger_ops_api.Database.Others.{merchant_create, ledger_account_create}
use ledger_ops_api.Merchants.{create, CreateMerchantDto, default_currency, create_body}
use ledger_ops_api.Database.Tables.{LedgerAccount, Merchant, Database, liability}
use ledger_ops_api.Common.{
  ◌≡◌, Failure, true, ok, err, ◌∷◌, ◌⊎◌, arith, none, inl, inr, ◌∙◌, sym, ap, refl,
}
use ledger_ops_api.Transactions.Booking.Accounts.{merchant_payable_account_code, ◌⧺◌}
use ledger_ops_api.Database.Commit.Cases.{session_of, sql_transaction_cases}
use ledger_ops_api.Database.Sql.Inversion.{bind-elim}

-- The account that is opened with a merchant.
abbrev pub payable_account : Session → CreateMerchantDto → LedgerAccount
payable_account s dto = record {
  id = s.env.uuid Table.ledger_accounts;
  code = merchant_payable_account_code dto.code;
  name = "Dû au marchand " ⧺ dto.name;
  type = liability;
  currency = default_currency;
  is_active = true;
}

abbrev pub new_merchant : Session → CreateMerchantDto → Merchant
new_merchant s dto = record {
  id = s.env.uuid Table.merchants;
  code = dto.code;
  name = dto.name;
  is_active = true;
  created_at = s.env.current_timestamp;
}

merchant_create-writes :
    (dto : CreateMerchantDto) (s : Session) (d : Database) {m : Merchant} {d' : Database}
    → merchant_create dto.code dto.name s d ≡ ok (m, d')
    → (m ≡ new_merchant s dto) × (d' ≡ record d { merchants = m ∷ d.merchants })
unfolding merchant_create ◌>>=◌
merchant_create-writes dto s d {m} {d'} h = ground arith

account_create-writes :
    (dto : CreateMerchantDto) (s : Session) (d : Database) {a : LedgerAccount} {d' : Database}
    → ledger_account_create
        (merchant_payable_account_code dto.code)
        ("Dû au marchand " ⧺ dto.name)
        liability
        default_currency
        s
        d
      ≡ ok (a, d')
    → (a ≡ payable_account s dto) × (d' ≡ record d { accounts = a ∷ d.accounts })
unfolding ledger_account_create ◌>>=◌
account_create-writes dto s d {a} {d'} h = ground arith

-- The creation of a merchant either throws and changes nothing, or returns the new merchant, and the database has it and its open
-- payable account, in XOF under the code that the bookings look up, and is as before otherwise.
pub create_both :
    (dto : CreateMerchantDto) (env : Env) (d : Database)
    → ((e : Failure) × (create dto env d ≡ (err e, d)))
      ⊎ (create dto env d ≡ (
        ok (new_merchant (session_of env none) dto),
        record d {
          merchants = new_merchant (session_of env none) dto ∷ d.merchants;
          accounts = payable_account (session_of env none) dto ∷ d.accounts;
        },
      ))
unfolding create
create_both dto env d = elim (sql_transaction_cases none (create_body dto) env d) [
  | inl (e, w) ↦ inl (e, w)
  | inr (m, d', ran, _, w) ↦ inr (
      bind-elim _ _ (session_of env none) d ran λ x d₁ h₁ r₁.
        bind-elim _ _ (session_of env none) d₁ r₁ λ a d₂ h₂ r₂.
          let (is_m, first) = merchant_create-writes dto (session_of env none) d h₁ in
          let (is_a, second) = account_create-writes dto (session_of env none) d₁ h₂ in
          let last : d₂ ≡ d' = cc in
          let same : x ≡ m = cc in
          let left = sym last ∙ second ∙ rw (is_a, first, is_m) refl in
          w
          ∙ ap (λ (y : Merchant). (ok y, d')) (sym same ∙ is_m)
          ∙ ap (λ (z : Database). (ok (new_merchant (session_of env none) dto), z)) left)
]
