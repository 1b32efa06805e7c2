-- ===== src/Scripts/Payments/Texts.antt =====
-- The texts of the scenarios of seed-demo.ts, and the decimal text of a number.
use ledger_ops_api.Common.{ℕ, String, ◌+◌, ◌-◌, ◌*◌, suc, ltb, length, ◌%◌, zero, ◌/◌, true, false}
use ledger_ops_api.Transactions.Booking.Accounts.{◌⧺◌}
use ledger_ops_api.Database.Checks.{codes}

-- One decimal digit.

unfoldable pub digit_text : ℕ → String
digit_text zero = "0"
digit_text (suc zero) = "1"
digit_text (suc (suc zero)) = "2"
digit_text (suc (suc (suc zero))) = "3"
digit_text (suc (suc (suc (suc zero)))) = "4"
digit_text (suc (suc (suc (suc (suc zero))))) = "5"
digit_text (suc (suc (suc (suc (suc (suc zero)))))) = "6"
digit_text (suc (suc (suc (suc (suc (suc (suc zero))))))) = "7"
digit_text (suc (suc (suc (suc (suc (suc (suc (suc zero)))))))) = "8"
digit_text (suc (suc (suc (suc (suc (suc (suc (suc (suc n))))))))) = "9"

-- On fuel: a number has fewer digits than its value, plus one.
unfoldable pub decimal_on : ℕ → ℕ → String
unfolding digit_text
decimal_on zero n = ""
decimal_on (suc fuel) n = elim (ltb n 10) [
  | true ↦ digit_text n
  | false ↦ decimal_on fuel (n / 10) ⧺ digit_text (n % 10)
]

-- String(n)
unfoldable pub decimal : ℕ → String
unfolding decimal_on
decimal n = decimal_on (n + 1) n

zeros : ℕ → String
zeros zero = ""
zeros (suc n) = "0" ⧺ zeros n

-- `padStart(width, "0")`
unfoldable pub pad_start : ℕ → String → String
unfolding zeros
pad_start width s = zeros (width - length (codes s)) ⧺ s

-- Math.round(spread / 100) * 100
unfoldable pub amount_value : ℕ → ℕ
amount_value index = (500 + index * 4173 % 49500 + 50) / 100 * 100

unfoldable pub amount_for_index : ℕ → String
unfolding amount_value decimal
amount_for_index index = decimal (amount_value index)

unfoldable pub msisdn_for_index : ℕ → String
unfolding decimal pad_start
msisdn_for_index index = "+2250700" ⧺ pad_start 6 (decimal index)

unfoldable pub idempotency_key_for_index : ℕ → String
unfolding decimal pad_start
idempotency_key_for_index index = "seed-demo-payment-" ⧺ pad_start 4 (decimal index)

unfoldable pub provider_reference_for_index : ℕ → String
unfolding decimal pad_start
provider_reference_for_index index = "SEED-OK-" ⧺ pad_start 4 (decimal index)
