-- ===== src/Auth/Keys.antt =====
-- ApiKeysService (auth/api-keys.service.ts, auth/dto/create-api-key.dto.ts) and the table of the keys with its
-- constraints and trigger (migration api_keys). SHA-256 and the random bytes belong to node:crypto: the hash and
-- the drawn key are parameters.
use ledger_ops_api.Common.{
  String, Bool, ℕ, if◌then◌else◌, ◌==◌, not, List, false, Option, true, ◌&&◌, some, find, ◌∷◌, none,
  str_eq, [], is_some, check_violation, option_eq, ledger_error, err, frozen_field, not_found, any,
  ◌||◌, bad_request, unique_violation, foreign_key_violation,
}
use ledger_ops_api.Database.Tables.{ApiKey, ApiRole, Database, role_eq, merchant, Merchant}
use ledger_ops_api.Database.Sql.{
  Session, Table, Sql, ◌>>◌, guard, ◌>>=◌, session, select, write, pure,
}
use ledger_ops_api.Database.Commit.{Call, autocommit}

pub record CreateApiKeyDto : Type 0 where
  pub label : String
  pub role : ApiRole
  pub merchant_id : Option ℕ

pub record CreatedApiKey : Type 0 where
  pub api_key : ApiKey
  pub raw_key : String

-- api_keys_merchant_role_chk and api_keys_active_revoked_consistency_chk
unfoldable pub key_checks : ApiKey → Bool
key_checks k =
    (if role_eq k.role merchant then is_some k.merchant_id else not (is_some k.merchant_id))
    && (if k.is_active then not (is_some k.revoked_at) else is_some k.revoked_at)

unfoldable pub new_key : Session → CreateApiKeyDto → String → ApiKey
new_key s dto hashed = record {
  id = s.env.uuid Table.api_keys;
  label = dto.label;
  role = dto.role;
  hashed_key = hashed;
  merchant_id = dto.merchant_id;
  is_active = true;
  revoked_at = none;
  created_at = s.env.current_timestamp;
}

-- INSERT INTO "api_keys", one row.
unfoldable pub key_insert : ApiKey → Sql ApiKey
key_insert k = do
  guard (key_checks k) check_violation
  d ← select (λ d. d)
  guard (not (any (λ (x : ApiKey). x.id == k.id || str_eq x.hashed_key k.hashed_key) d.api_keys))
      unique_violation
  guard
      (elim k.merchant_id [ none ↦ true | some i ↦ any (λ (m : Merchant). m.id == i) d.merchants ])
      foreign_key_violation
  write (λ d. record d { api_keys = k ∷ d.api_keys })
  pure k

-- The columns that fn_api_keys_before_update freezes.
unfoldable pub same_key : ApiKey → ApiKey → Bool
same_key old new =
    new.id == old.id
    && role_eq new.role old.role
    && str_eq new.hashed_key old.hashed_key
    && option_eq ◌==◌ new.merchant_id old.merchant_id
    && new.created_at == old.created_at

-- Both tests of `is_active`: two Boolean values are the same.
abbrev same_bool : Bool → Bool → Bool
same_bool true b = b
same_bool false b = not b

unfoldable pub fn_api_keys_before_update : ApiKey → ApiKey → Sql (Unit {0})
fn_api_keys_before_update old new = do
  guard (same_key old new) (ledger_error frozen_field)
  guard
      (not (is_some old.revoked_at)
        || (option_eq ◌==◌ new.revoked_at old.revoked_at && same_bool new.is_active old.is_active))
      (ledger_error frozen_field)

unfoldable pub replace_key : ApiKey → List ApiKey → List ApiKey
replace_key k [] = []
replace_key k (x ∷ xs) = (if x.id == k.id then k else x) ∷ replace_key k xs

unfoldable pub key_update : ApiKey → ApiKey → Sql (Unit {0})
key_update old new = do
  fn_api_keys_before_update old new
  guard (key_checks new) check_violation
  write (λ d. record d { api_keys = replace_key new d.api_keys })

abbrev pub key_by_id : ℕ → ApiKey → Bool
key_by_id i k = k.id == i

module _ (hash_api_key : String → String) where
  -- The checks of the role before the insert.
  unfoldable pub role_matches : CreateApiKeyDto → Bool
  role_matches dto =
      if role_eq dto.role merchant then is_some dto.merchant_id else not (is_some dto.merchant_id)

  -- `raw_key` is the option of the seed script, or what generateApiKey draws.
  unfoldable pub create : CreateApiKeyDto → String → Call CreatedApiKey
  create dto raw_key env d =
      if role_matches dto
      then autocommit
          (do
            s ← session
            k ← key_insert (new_key s dto (hash_api_key raw_key))
            pure (record { api_key = k; raw_key = raw_key }))
          env d
      else (err bad_request, d)

  -- An active key with this hash.
  unfoldable pub validate : String → Database → Option ApiKey
  validate raw_key d =
      find (λ (k : ApiKey). str_eq k.hashed_key (hash_api_key raw_key) && k.is_active) d.api_keys

-- `findUnique`, then `update` with `isActive: false, revokedAt: new Date()`.
unfoldable pub revoked : ℕ → ApiKey → ApiKey
revoked now k = record k { is_active = false; revoked_at = some now }

abbrev pub revoke_found : Option ApiKey → Call (Unit {0})
revoke_found none env d = (err not_found, d)
revoke_found (some k) env d = autocommit (key_update k (revoked env.clock_now k)) env d

unfoldable pub revoke : ℕ → Call (Unit {0})
revoke i env d = revoke_found (find (key_by_id i) d.api_keys) env d
