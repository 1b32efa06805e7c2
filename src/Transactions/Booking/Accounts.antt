-- ===== src/Transactions/Booking/Accounts.antt =====
-- The accounts of a booking, found by their codes.
use Prim.Native.String
use ledger_ops_api.Common.{
  ℕ, String, List, find, filter, any, ◌==◌, str_eq, plain_error, record_not_found,
}
use ledger_ops_api.Database.Tables.{
  Provider, orange_money, mtn_momo, wave, moov_money, LedgerAccount, Merchant,
}
use ledger_ops_api.Database.Sql.{Sql, pure, ◌>>=◌, or_throw, select}

infixr 65 ◌⧺◌
abbrev pub ◌⧺◌ : String → String → String
s ⧺ t = String.◌++◌ s t

-- provider.toLowerCase()
abbrev pub provider_lower : Provider → String
provider_lower orange_money = "orange_money"
provider_lower mtn_momo = "mtn_momo"
provider_lower wave = "wave"
provider_lower moov_money = "moov_money"

unfoldable pub clearing_account_code : Provider → String
clearing_account_code p = "provider:" ⧺ provider_lower p ⧺ ":clearing"

unfoldable pub merchant_payable_account_code : String → String
merchant_payable_account_code merchant_code = "merchant:" ⧺ merchant_code ⧺ ":payable"

abbrev pub fees_code : String
fees_code = "revenue:fees"

-- `merchant.findUniqueOrThrow`
unfoldable pub merchant_find_unique_or_throw : ℕ → Sql Merchant
merchant_find_unique_or_throw id = do
  ms ← select (λ d. d.merchants)
  or_throw (find (λ (m : Merchant). m.id == id) ms) record_not_found

-- `ledgerAccount.findMany({ where: { code: { in: codes } } })`
unfoldable pub accounts_find_many : List String → Sql (List LedgerAccount)
accounts_find_many codes =
    select (λ d. filter (λ (a : LedgerAccount). any (str_eq a.code) codes) d.accounts)

unfoldable pub id_of : List LedgerAccount → String → Sql ℕ
id_of accounts code = do
  a ← or_throw (find (λ (a : LedgerAccount). str_eq a.code code) accounts) plain_error
  pure a.id
