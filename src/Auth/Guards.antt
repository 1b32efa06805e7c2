-- ===== src/Auth/Guards.antt =====
-- ApiKeyGuard and RolesGuard (auth/api-key.guard.ts, auth/roles.guard.ts, auth/auth-context.ts).
use Prim.Native.Char.{code}
use ledger_ops_api.Common.{
  ℕ, List, Option, String, some, Result, err, ok, ◌∷◌, none, unauthorized, if◌then◌else◌, any, ◌==◌,
  forbidden, [],
}
use ledger_ops_api.Database.Tables.{ApiKey, ApiRole, Database, role_eq}
use ledger_ops_api.Database.Checks.{codes}
use ledger_ops_api.Auth.Keys.{validate}

pub record AuthContext : Type 0 where
  pub api_key_id : ℕ
  pub role : ApiRole
  pub merchant_id : Option ℕ

-- What follows a prefix, which is given by its characters.
unfoldable pub strip : List ℕ → String → Option String
strip [] s = some s
strip (p ∷ ps) String.[] = none
strip (p ∷ ps) (String.◌∷◌ c s) = if code c == p then strip ps s else none

-- `header.slice(BEARER_PREFIX.length)`, where the header is there and starts with the prefix.
unfoldable pub bearer_key : Option String → Option String
unfolding strip
bearer_key none = none
bearer_key (some header) = strip (codes "Bearer ") header

abbrev pub context_of : ApiKey → AuthContext
context_of k = record { api_key_id = k.id; role = k.role; merchant_id = k.merchant_id }

module _ (hash_api_key : String → String) where
  unfoldable pub authenticated : Option ApiKey → Result AuthContext
  authenticated none = err unauthorized
  authenticated (some k) = ok (context_of k)

  abbrev pub guard_key : Option String → Database → Result AuthContext
  guard_key none d = err unauthorized
  guard_key (some raw_key) d = authenticated (validate hash_api_key raw_key d)

  -- ApiKeyGuard.canActivate on the header Authorization.
  unfoldable pub api_key_guard : Option String → Database → Result AuthContext
  api_key_guard header d = guard_key (bearer_key header) d

-- RolesGuard.canActivate; no roles on the route let every key through.
unfoldable pub roles_guard : List ApiRole → AuthContext → Result (Unit {0})
roles_guard [] auth = ok tt
roles_guard (r ∷ rs) auth = if any (role_eq auth.role) (r ∷ rs) then ok tt else err forbidden
