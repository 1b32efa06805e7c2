-- ===== src/Merchants.antt =====
-- MerchantsService (merchants/merchants.service.ts, merchants/dto/create-merchant.dto.ts).
pub mod Creation
use ledger_ops_api.Common.{String, none, find, str_eq, not_found}
use ledger_ops_api.Database.Sql.{Sql, ◌>>=◌, select, or_throw, pure}
use ledger_ops_api.Database.Commit.{Call, sql_transaction, autocommit}
use ledger_ops_api.Database.Tables.{Merchant, liability}
use ledger_ops_api.Database.Others.{merchant_create, ledger_account_create}
use ledger_ops_api.Transactions.Booking.Accounts.{merchant_payable_account_code, ◌⧺◌}

pub record CreateMerchantDto : Type 0 where
  pub code : String
  pub name : String

abbrev pub default_currency : String
default_currency = "XOF"

abbrev pub create_body : CreateMerchantDto → Sql Merchant
create_body dto = do
  m ← merchant_create dto.code dto.name
  a ←
      ledger_account_create (merchant_payable_account_code dto.code) ("Dû au marchand " ⧺ dto.name)
        liability default_currency
  pure m

-- `create`: the merchant and its payable account, in one SQL transaction.
unfoldable pub create : CreateMerchantDto → Call Merchant
create dto = sql_transaction none (create_body dto)

abbrev find_merchant : String → Sql Merchant
find_merchant code = do
  ms ← select (λ d. d.merchants)
  or_throw (find (λ (m : Merchant). str_eq m.code code) ms) not_found

unfoldable pub find_by_code_or_throw : String → Call Merchant
find_by_code_or_throw code = autocommit (find_merchant code)
