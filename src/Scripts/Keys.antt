-- ===== src/Scripts/Keys.antt =====
-- The keys and merchants of the scripts: bootstrap-admin-key.ts, and the first part of seed-demo.ts.
use ledger_ops_api.Auth.Keys.{CreateApiKeyDto, CreatedApiKey, revoke}
use ledger_ops_api.Database.Tables.{ApiKey, admin, Merchant, ApiRole, role_eq, merchant, analyst}
use ledger_ops_api.Common.{
  Option, String, List, Bool, Failure, ◌∷◌, some, none, str_eq, ℕ, if◌then◌else◌, [], ◌&&◌, false,
  find, filter, not, plain_error, unique_violation, option_eq, ◌==◌,
}
use ledger_ops_api.Scripts.{Script, done, call, attempt, ◌>>=◌, look, or_fail, ◌>>◌, fail, throw_if}
use ledger_ops_api.Merchants.{CreateMerchantDto, find_by_code_or_throw}

-- apiKeys.create, with the key that it draws.

abbrev pub create_key : CreateApiKeyDto → Script CreatedApiKey
create_key dto = call (λ w n. ledger_ops_api.Auth.Keys.create w.hash_api_key dto (w.drawn_key n))

abbrev pub active_admin : ApiKey → Bool
active_admin k = role_eq k.role admin && k.is_active

abbrev pub admin_dto : CreateApiKeyDto
admin_dto = record { label = "bootstrap admin"; role = admin; merchant_id = none }

abbrev pub bootstrap_with : Option ApiKey → Script (Option CreatedApiKey)
bootstrap_with (some k) = done none
bootstrap_with none = do c ← create_key admin_dto; done (some c)

-- `main` of bootstrap-admin-key.ts.
unfoldable pub bootstrap : Script (Option CreatedApiKey)
bootstrap = do existing ← look (λ w d. find active_admin d.api_keys); bootstrap_with existing

abbrev pub recover_merchant : CreateMerchantDto → Failure → Script Merchant
recover_merchant dto unique_violation = call (λ w n. find_by_code_or_throw dto.code)
recover_merchant dto e = fail e

unfoldable pub get_or_create_merchant : CreateMerchantDto → Script Merchant
get_or_create_merchant dto =
    attempt (call (λ w n. ledger_ops_api.Merchants.create dto)) (recover_merchant dto)

abbrev pub active_with_label : String → ApiKey → Bool
active_with_label label k = str_eq k.label label && k.is_active

unfoldable pub revoke_all : List ApiKey → Script (Unit {0})
revoke_all [] = done tt
revoke_all (k ∷ ks) = call (λ w n. revoke k.id) >> revoke_all ks

unfoldable pub reissue_api_key : String → ApiRole → Option ℕ → Script CreatedApiKey
unfolding revoke_all
reissue_api_key label role merchant_id = do
  existing ← look (λ w d. filter (active_with_label label) d.api_keys)
  revoke_all existing
  create_key (record { label = label; role = role; merchant_id = merchant_id })

abbrev pub read_fixed_key_env : Option String → Option String
read_fixed_key_env none = none
read_fixed_key_env (some value) = if str_eq value "" then none else some value

-- The key that has the hash: it must be active, with the same role and merchant.
abbrev pub kept_key : ApiKey → ApiRole → String → Option ℕ → Script CreatedApiKey
kept_key existing role raw_key merchant_id = do
  throw_if (not existing.is_active) plain_error
  throw_if (not (role_eq existing.role role && option_eq ◌==◌ existing.merchant_id merchant_id))
      plain_error
  done (record { api_key = existing; raw_key = raw_key })

abbrev pub fixed_key : Option ApiKey → String → ApiRole → String → Option ℕ → Script CreatedApiKey
fixed_key (some existing) label role raw_key merchant_id =
    kept_key existing role raw_key merchant_id
fixed_key none label role raw_key merchant_id = do
  active_for_label ← look (λ w d. filter (active_with_label label) d.api_keys)
  revoke_all active_for_label
  call (λ w n.
      ledger_ops_api.Auth.Keys.create w.hash_api_key
        (record { label = label; role = role; merchant_id = merchant_id }) raw_key)

unfoldable pub resolve_fixed_api_key : String → ApiRole → String → Option ℕ → Script CreatedApiKey
unfolding revoke_all
resolve_fixed_api_key label role raw_key merchant_id = do
  existing ←
      look (λ w d. find (λ (k : ApiKey). str_eq k.hashed_key (w.hash_api_key raw_key)) d.api_keys)
  fixed_key existing label role raw_key merchant_id

abbrev pub key_for : Option String → String → ApiRole → Option ℕ → Script CreatedApiKey
key_for (some raw_key) label role merchant_id = resolve_fixed_api_key label role raw_key merchant_id
key_for none label role merchant_id = reissue_api_key label role merchant_id

-- `env_value` is the value of the environment variable.
unfoldable pub resolve_api_key : String → ApiRole → Option String → Option ℕ → Script CreatedApiKey
unfolding resolve_fixed_api_key reissue_api_key
resolve_api_key label role env_value merchant_id =
    key_for (read_fixed_key_env env_value) label role merchant_id

abbrev pub demo_merchants : List CreateMerchantDto
demo_merchants =
    record { code = "boutique_akwaba"; name = "Boutique Akwaba" }
    ∷ record { code = "pharmacie_plateau"; name = "Pharmacie du Plateau" }
    ∷ record { code = "maquis_chez_tantie"; name = "Maquis Chez Tantie" }
    ∷ []

unfoldable pub create_merchants : List CreateMerchantDto → Script (List Merchant)
unfolding get_or_create_merchant
create_merchants [] = done []
create_merchants (dto ∷ dtos) = do
  m ← get_or_create_merchant dto
  ms ← create_merchants dtos
  done (m ∷ ms)

abbrev pub same_fixed_key : Option String → Option String → Bool
same_fixed_key (some a) (some b) = str_eq a b
same_fixed_key a b = false

-- The merchants, by their codes, and the id of the analyst's key.
unfoldable pub seed_merchants_and_keys : Option String → Option String → Script (List Merchant × ℕ)
unfolding create_merchants resolve_api_key
seed_merchants_and_keys merchant_value analyst_value = do
  merchants ← create_merchants demo_merchants
  target ← or_fail (find (λ (m : Merchant). str_eq m.code "boutique_akwaba") merchants) plain_error
  throw_if (same_fixed_key (read_fixed_key_env merchant_value) (read_fixed_key_env analyst_value))
      plain_error
  merchant_key ← resolve_api_key "seed:demo:merchant" merchant merchant_value (some target.id)
  analyst_key ← resolve_api_key "seed:demo:analyst" analyst analyst_value none
  done (merchants, analyst_key.api_key.id)
