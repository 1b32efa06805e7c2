-- ===== src/Payments/Util.antt =====
-- Helpers of the payments (payments/payments.util.ts), the bodies of the requests (payments/dto), and
-- the amounts, which travel as strings of digits.
use ledger_ops_api.Common.{
  ℕ, String, List, Bool, Option, ◌+◌, all, false, ◌&&◌, Result, ◌*◌, some, ◌∷◌, leb, ◌-◌, err,
  bad_request, [], none, if◌then◌else◌, length, ◌==◌, ltb, ok, true,
}
use ledger_ops_api.Database.Tables.{Provider}
use ledger_ops_api.Database.Checks.{is_digit, codes, currency_iso, msisdn_e164}
use ledger_ops_api.Database.Rows.{or_else}

-- A body whose amount is still text.
pub record CreatePaymentDto : Type 0 where
  pub provider : Provider
  pub amount : String
  pub currency : String
  pub customer_msisdn : String

pub record CreateRefundDto : Type 0 where
  pub amount : String
  pub reason : Option String

digits_only : List ℕ → Bool
unfolding is_digit
digits_only cs = all is_digit cs

amount_codes : List ℕ → Bool
unfolding digits_only
amount_codes [] = false
amount_codes (c ∷ cs) = (leb b'1' c && leb c b'9') && digits_only cs

-- ^[1-9][0-9]*$
unfoldable pub amount_format : String → Bool
unfolding amount_codes
amount_format s = amount_codes (codes s)

-- The `@Matches` of CreatePaymentDto.
unfoldable pub payment_dto_valid : CreatePaymentDto → Bool
unfolding amount_format
payment_dto_valid dto =
    amount_format dto.amount && currency_iso dto.currency && msisdn_e164 dto.customer_msisdn

-- The checks of CreateRefundDto.
unfoldable pub refund_dto_valid : CreateRefundDto → Bool
refund_dto_valid dto =
    amount_format dto.amount
    && (elim dto.reason [ none ↦ true | some r ↦ leb (length (codes r)) 500 ])

unfoldable pub parse_digits : ℕ → List ℕ → ℕ
parse_digits acc [] = acc
parse_digits acc (c ∷ cs) = parse_digits (acc * 10 + (c - b'0')) cs

-- BigInt(text), on a string of digits.
unfoldable pub big_int : String → ℕ
unfolding parse_digits
big_int s = parse_digits 0 (codes s)

-- The checks of the header Idempotency-Key.
unfoldable pub require_idempotency_key : Option String → Result String
require_idempotency_key none = err bad_request
require_idempotency_key (some header) =
    if length (codes header) == 0
    then err bad_request
    else if ltb 100 (length (codes header))
    then err bad_request
    else ok header

abbrev pub fallback_expiry_minutes : ℕ
fallback_expiry_minutes = 15

-- The settings PAYMENT_EXPIRY_MINUTES_<PROVIDER> and PAYMENT_EXPIRY_MINUTES_DEFAULT.
pub record ExpiryConfig : Type 0 where
  pub by_provider : Provider → Option ℕ
  pub default_minutes : Option ℕ

unfoldable pub resolve_expiry_minutes : ExpiryConfig → Provider → ℕ
resolve_expiry_minutes config p = elim (config.by_provider p) [
  | some minutes ↦ minutes
  | none ↦ or_else config.default_minutes fallback_expiry_minutes
]

unfoldable pub compute_expires_at : ℕ → ℕ → ℕ
compute_expires_at now minutes = now + minutes * 60000
