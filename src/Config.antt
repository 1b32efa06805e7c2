-- ===== src/Config.antt =====
-- The contract of the environment (config/env.validation.ts). The values are read after the implicit conversions of class-transformer; what
-- @IsUrl accepts, for the protocols of the variable, is a parameter.
pub mod Expiry
pub mod Cors
pub mod Switches
use ledger_ops_api.Common.{
  Option, Bool, ℕ, String, true, false, leb, str_eq, ◌&&◌, ◌||◌, length, some, none, ◌==◌, all,
}
use ledger_ops_api.Payments.Util.{ExpiryConfig}
use ledger_ops_api.Database.Tables.{Provider, orange_money, mtn_momo, wave, moov_money}
use ledger_ops_api.Database.Checks.{is_digit, codes}

pub record EnvironmentVariables : Type 0 where
  pub database_url : Option String
  pub app_database_url : Option String
  pub database_pool_max : Option ℕ
  pub redis_url : Option String
  pub port : Option ℕ
  pub payment_expiry_minutes_default : Option ℕ
  pub payment_expiry_minutes : Provider → Option ℕ
  pub provider_simulator_enabled : Option String
  pub provider_simulator_failure_rate : Option ℕ
  pub expiration_cron_enabled : Option String
  pub demo_merchant_api_key : Option String
  pub demo_analyst_api_key : Option String

abbrev pub optional : {A : Type 0} → (A → Bool) → Option A → Bool
optional p none = true
optional p (some a) = p a

abbrev pub required : {A : Type 0} → (A → Bool) → Option A → Bool
required p none = false
required p (some a) = p a

-- @IsInt() @Min(low) @Max(high)
abbrev pub between : ℕ → ℕ → ℕ → Bool
between low high n = leb low n && leb n high

-- @IsIn(["true", "false"])
abbrev true_or_false : String → Bool
true_or_false s = str_eq s "true" || str_eq s "false"

abbrev base64url_char : ℕ → Bool
base64url_char c =
    (leb b'A' c && leb c b'Z') || (leb b'a' c && leb c b'z') || is_digit c || c == b'_' || c == b'-'

-- ^[A-Za-z0-9_-]{43,}$
unfoldable pub api_key_format : String → Bool
api_key_format s = leb 43 (length (codes s)) && all base64url_char (codes s)

unfoldable pub expiry_ranges : EnvironmentVariables → Bool
expiry_ranges e =
    optional (between 1 1440) e.payment_expiry_minutes_default
    && optional (between 1 1440) (e.payment_expiry_minutes orange_money)
    && optional (between 1 1440) (e.payment_expiry_minutes mtn_momo)
    && optional (between 1 1440) (e.payment_expiry_minutes wave)
    && optional (between 1 1440) (e.payment_expiry_minutes moov_money)

-- Where this is false, `validate` throws and the application does not start.
unfoldable pub validate :
    (is_postgres_url is_redis_url : String → Bool) → EnvironmentVariables → Bool
unfolding expiry_ranges api_key_format
validate is_postgres_url is_redis_url e =
    optional is_postgres_url e.database_url
    && required is_postgres_url e.app_database_url
    && optional (between 1 100) e.database_pool_max
    && optional is_redis_url e.redis_url
    && optional (between 1 65535) e.port
    && expiry_ranges e
    && optional true_or_false e.provider_simulator_enabled
    && optional (between 0 100) e.provider_simulator_failure_rate
    && optional true_or_false e.expiration_cron_enabled
    && optional api_key_format e.demo_merchant_api_key
    && optional api_key_format e.demo_analyst_api_key

-- The configuration that the payments read.
unfoldable pub expiry_config : EnvironmentVariables → ExpiryConfig
expiry_config e = record {
  by_provider = e.payment_expiry_minutes;
  default_minutes = e.payment_expiry_minutes_default;
}
