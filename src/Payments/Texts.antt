-- ===== src/Payments/Texts.antt =====
-- The texts of payments.util.ts: references, the canonical bodies that are hashed, and the settings of the expiry. The random bytes, the date and
-- the hash are parameters.
use ledger_ops_api.Common.{
  ℕ, List, [], ◌∷◌, ◌++◌, String, not, ◌==◌, ◌-◌, ◌≡◌, ◌&&◌, filter, take, map, leb, if◌then◌else◌,
  refl, Text, ap, str_eq, sym, ◌∙◌,
}
use ledger_ops_api.Database.Checks.{codes}
use ledger_ops_api.Database.Tables.{Provider, orange_money, mtn_momo, wave, moov_money}
use ledger_ops_api.Payments.Util.{CreatePaymentDto, CreateRefundDto}

-- toUpperCase, on the digits of hexadecimal texts.
abbrev pub upper : ℕ → ℕ
upper c = if leb b'a' c && leb c b'z' then c - 32 else c

-- `date` is what toISOString gives, and `random_hex` the text of four random bytes.
unfoldable pub generate_transaction_reference : Text → Text → Text
generate_transaction_reference date random_hex =
    codes "TXN-"
    ++ filter (λ (c : ℕ). not (c == b'-')) (take 10 date)
    ++ b'-' ∷ take 6 (map upper random_hex)

-- EXPIRY_ENV_KEY_BY_PROVIDER
abbrev pub expiry_env_key : Provider → String
expiry_env_key orange_money = "PAYMENT_EXPIRY_MINUTES_ORANGE_MONEY"
expiry_env_key mtn_momo = "PAYMENT_EXPIRY_MINUTES_MTN_MOMO"
expiry_env_key wave = "PAYMENT_EXPIRY_MINUTES_WAVE"
expiry_env_key moov_money = "PAYMENT_EXPIRY_MINUTES_MOOV_MONEY"

abbrev provider_text : Provider → String
provider_text orange_money = "ORANGE_MONEY"
provider_text mtn_momo = "MTN_MOMO"
provider_text wave = "WAVE"
provider_text moov_money = "MOOV_MONEY"

-- A body with its keys in a fixed order.
abbrev pub Canonical : Type 0
Canonical = List (String × String)

unfoldable pub canonical_payment : CreatePaymentDto → Canonical
canonical_payment dto =
    ("provider", provider_text dto.provider)
    ∷ ("amount", dto.amount)
    ∷ ("currency", dto.currency)
    ∷ ("customerMsisdn", dto.customer_msisdn)
    ∷ []

unfoldable pub canonical_refund : String → CreateRefundDto → Canonical
canonical_refund parent_reference dto =
    ("parentReference", parent_reference) ∷ ("amount", dto.amount) ∷ []

module _ (sha256_hex_of_json : Canonical → String) where
  unfoldable pub fingerprint_of : CreatePaymentDto → String
  unfolding canonical_payment
  fingerprint_of dto = sha256_hex_of_json (canonical_payment dto)

  unfoldable pub refund_fingerprint_of : String → CreateRefundDto → String
  unfolding canonical_refund
  refund_fingerprint_of parent_reference dto =
      sha256_hex_of_json (canonical_refund parent_reference dto)

read_provider : String → Provider
read_provider s =
    if str_eq s "ORANGE_MONEY"
    then orange_money
    else if str_eq s "MTN_MOMO"
    then mtn_momo
    else if str_eq s "WAVE"
    then wave
    else moov_money

read_provider-provider_text : (p : Provider) → read_provider (provider_text p) ≡ p
unfolding read_provider str_eq
read_provider-provider_text orange_money = refl
read_provider-provider_text mtn_momo = refl
read_provider-provider_text wave = refl
read_provider-provider_text moov_money = refl

provider_text-injective : (p q : Provider) → provider_text p ≡ provider_text q → p ≡ q
provider_text-injective p q h =
    sym (read_provider-provider_text p) ∙ ap read_provider h ∙ read_provider-provider_text q

four :
    (a b : CreatePaymentDto)
    → canonical_payment a ≡ canonical_payment b
    → (provider_text a.provider ≡ provider_text b.provider)
      × (a.amount ≡ b.amount)
      × (a.currency ≡ b.currency)
      × (a.customer_msisdn ≡ b.customer_msisdn)
unfolding canonical_payment
four a b h = (cc, cc, cc, cc)

-- Payments with one canonical body are the same payment.
pub canonical_payment-injective :
    (a b : CreatePaymentDto) → canonical_payment a ≡ canonical_payment b → a ≡ b
unfolding canonical_payment
canonical_payment-injective a b h =
    let (p, m, c, k) = four a b h in
    let provider = provider_text-injective a.provider b.provider p in
    λ i. record { provider = provider i; amount = m i; currency = c i; customer_msisdn = k i }
