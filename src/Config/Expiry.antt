-- ===== src/Config/Expiry.antt =====
-- The delays that a validated environment gives to payments.
use ledger_ops_api.Config.{validate, expiry_ranges, expiry_config, EnvironmentVariables}
use ledger_ops_api.Common.{String, Bool, ◌≡◌, true, ◌≤◌, arith}
use ledger_ops_api.Payments.Util.{resolve_expiry_minutes}
use ledger_ops_api.Database.Tables.{Provider, orange_money, mtn_momo, wave, moov_money}

ranges-bounds :
    (e : EnvironmentVariables) (p : Provider)
    → expiry_ranges e ≡ true
    → (1 ≤ resolve_expiry_minutes (expiry_config e) p)
      × (resolve_expiry_minutes (expiry_config e) p ≤ 1440)
unfolding expiry_ranges resolve_expiry_minutes expiry_config
ranges-bounds e orange_money h = ground arith
ranges-bounds e mtn_momo h = ground arith
ranges-bounds e wave h = ground arith
ranges-bounds e moov_money h = ground arith

validate-ranges :
    (is_postgres_url is_redis_url : String → Bool) (e : EnvironmentVariables)
    → validate is_postgres_url is_redis_url e ≡ true
    → expiry_ranges e ≡ true
unfolding validate
validate-ranges is_postgres_url is_redis_url e h = ground arith

-- In an environment that the application starts with, the payments of every provider expire after at least one minute and at
-- most a day, whether the delay is the provider's own, the default one or the fallback.
pub resolve_expiry_minutes-bounds :
    (is_postgres_url is_redis_url : String → Bool) (e : EnvironmentVariables) (p : Provider)
    → validate is_postgres_url is_redis_url e ≡ true
    → (1 ≤ resolve_expiry_minutes (expiry_config e) p)
      × (resolve_expiry_minutes (expiry_config e) p ≤ 1440)
resolve_expiry_minutes-bounds is_postgres_url is_redis_url e p h =
    ranges-bounds e p (validate-ranges is_postgres_url is_redis_url e h)
