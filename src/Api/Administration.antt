-- ===== src/Api/Administration.antt =====
-- The routes of administrators (auth/api-keys.controller.ts, merchants/merchants.controller.ts) and the bodies that they accept.
use ledger_ops_api.Common.{
  ℕ, String, Option, Bool, ◌&&◌, ◌||◌, leb, ◌==◌, length, all, if◌then◌else◌, bad_request, List, [],
  ◌∷◌, ltb,
}
use ledger_ops_api.Database.Tables.{ApiRole, Merchant, admin}
use ledger_ops_api.Database.Checks.{codes, is_digit}
use ledger_ops_api.Database.Commit.{Call, ◌>>>◌, return, throw_http}
use ledger_ops_api.Auth.Guards.{AuthContext}
use ledger_ops_api.Auth.Keys.{CreateApiKeyDto, CreatedApiKey, revoke}
use ledger_ops_api.Merchants.{CreateMerchantDto}

-- @Roles(ApiRole.ADMIN)
abbrev pub admin_only : List ApiRole
admin_only = admin ∷ []

pub record CreatedApiKeyResponse : Type 0 where
  pub id : ℕ
  pub label : String
  pub role : ApiRole
  pub merchant_id : Option ℕ
  pub raw_key : String

abbrev pub created_key_response : CreatedApiKey → CreatedApiKeyResponse
created_key_response c = record {
  id = c.api_key.id;
  label = c.api_key.label;
  role = c.api_key.role;
  merchant_id = c.api_key.merchant_id;
  raw_key = c.raw_key;
}

-- @MaxLength(200)
unfoldable pub api_key_dto_valid : CreateApiKeyDto → Bool
api_key_dto_valid dto = leb (length (codes dto.label)) 200

is_merchant_char : ℕ → Bool
unfolding is_digit
is_merchant_char c = (leb b'a' c && leb c b'z') || is_digit c || c == b'_'

-- ^[a-z0-9_]+$
unfoldable pub merchant_code_format : String → Bool
unfolding is_merchant_char
merchant_code_format s = ltb 0 (length (codes s)) && all is_merchant_char (codes s)

unfoldable pub merchant_dto_valid : CreateMerchantDto → Bool
unfolding merchant_code_format
merchant_dto_valid dto =
    merchant_code_format dto.code
    && leb (length (codes dto.code)) 50
    && leb (length (codes dto.name)) 200

-- `raw_key` is what generateApiKey draws.
unfoldable pub post_api_key :
    (hash_api_key : String → String)
    → CreateApiKeyDto
    → String
    → AuthContext
    → Call CreatedApiKeyResponse
post_api_key hash_api_key dto raw_key auth =
    if api_key_dto_valid dto
    then (ledger_ops_api.Auth.Keys.create hash_api_key dto raw_key >>> λ c.
        return (created_key_response c))
    else throw_http bad_request

unfoldable pub post_revoke : ℕ → AuthContext → Call (Unit {0})
post_revoke i auth = revoke i

unfoldable pub post_merchant : CreateMerchantDto → AuthContext → Call Merchant
post_merchant dto auth =
    if merchant_dto_valid dto then ledger_ops_api.Merchants.create dto else throw_http bad_request
