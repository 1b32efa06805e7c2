-- ===== src/Config/Switches.antt =====
-- The modules that the environment switches (app.module.ts), and the bound of the pool of connections (database/prisma.ts, prisma.service.ts).
use ledger_ops_api.Common.{
  ℕ, String, Option, none, some, Bool, not, str_eq, option_eq, if◌then◌else◌,
}

-- registerWhen(ExpirationModule, ...)
unfoldable pub expiration_cron_on : Option String → Bool
expiration_cron_on enabled = not (option_eq str_eq enabled (some "false"))

-- registerWhen(ProviderSimulatorModule, ...)
unfoldable pub provider_simulator_on : Option String → Bool
provider_simulator_on enabled = option_eq str_eq enabled (some "true")

-- registerWhen(RateLimitModule, ...)
unfoldable pub rate_limit_on : Option String → Bool
rate_limit_on enabled = not (option_eq str_eq enabled (some "false"))

-- The default of `poolMax`.
abbrev pub default_pool_max : ℕ
default_pool_max = 5

-- `number` is Number(text). An empty text counts as not given.
unfoldable pub pool_max : (number : String → ℕ) → Option String → ℕ
pool_max number none = default_pool_max
pool_max number (some text) = if str_eq text "" then default_pool_max else number text
