-- ===== src/Scripts/Payments/RoundTrip.antt =====
-- The text of an amount, read back by BigInt.
use Prim.Native.String.append
use ledger_ops_api.Payments.Util.{parse_digits, big_int}
use ledger_ops_api.Common.{
  ℕ, List, ◌<◌, ◌++◌, ◌≡◌, ◌*◌, ◌∷◌, ◌+◌, ◌-◌, [], refl, String, arith, ap, ◌∙◌, suc, zero,
  Bool-cases, ltb, inl, ◌≤◌, inr, ◌%◌, ◌/◌, Bool, true, false,
}
use ledger_ops_api.Scripts.Payments.Texts.{
  digit_text, decimal_on, decimal, amount_for_index, amount_value,
}
use ledger_ops_api.Database.Checks.{codes}
use ledger_ops_api.Transactions.Booking.Accounts.{◌⧺◌}
use Prim.Native.Char.{code}
use ledger_ops_api.Scripts.Payments.{payment_of, TransactionScenario}

codes-append : (s t : String) → codes (s ⧺ t) ≡ codes s ++ codes t
codes-append String.[] t = ap codes (append.nil t)
codes-append (String.◌∷◌ c s) t =
    ap codes (append.cons c s t) ∙ ap (λ (cs : List ℕ). code c ∷ cs) (codes-append s t)

parse_digits-append :
    (acc : ℕ) (xs ys : List ℕ) → parse_digits acc (xs ++ ys) ≡ parse_digits (parse_digits acc xs) ys
unfolding parse_digits
parse_digits-append acc [] ys = refl
parse_digits-append acc (x ∷ xs) ys = parse_digits-append (acc * 10 + (x - b'0')) xs ys

-- One digit.
parse_digits-digit_text :
    (acc n : ℕ) → n < 10 → parse_digits acc (codes (digit_text n)) ≡ acc * 10 + n
unfolding parse_digits digit_text
parse_digits-digit_text acc zero h = omega arith
parse_digits-digit_text acc (suc zero) h = omega arith
parse_digits-digit_text acc (suc (suc zero)) h = omega arith
parse_digits-digit_text acc (suc (suc (suc zero))) h = omega arith
parse_digits-digit_text acc (suc (suc (suc (suc zero)))) h = omega arith
parse_digits-digit_text acc (suc (suc (suc (suc (suc zero))))) h = omega arith
parse_digits-digit_text acc (suc (suc (suc (suc (suc (suc zero)))))) h = omega arith
parse_digits-digit_text acc (suc (suc (suc (suc (suc (suc (suc zero))))))) h = omega arith
parse_digits-digit_text acc (suc (suc (suc (suc (suc (suc (suc (suc zero)))))))) h = omega arith
parse_digits-digit_text acc (suc (suc (suc (suc (suc (suc (suc (suc (suc n))))))))) h = omega arith

-- Whether a number has another digit.
decimal_on-unfold :
    (fuel n : ℕ) {b : Bool}
    → ltb n 10 ≡ b
    → decimal_on (suc fuel) n
      ≡ (elim b [ true ↦ digit_text n | false ↦ decimal_on fuel (n / 10) ⧺ digit_text (n % 10) ])
unfolding decimal_on
decimal_on-unfold fuel n h =
    ap
      (λ (c : Bool). elim c [
        | true ↦ digit_text n
        | false ↦ decimal_on fuel (n / 10) ⧺ digit_text (n % 10)
      ])
      h

decimal_on-parsed : (fuel n : ℕ) → n < fuel → parse_digits 0 (codes (decimal_on fuel n)) ≡ n
decimal_on-parsed zero n h = absurd (omega arith)
decimal_on-parsed (suc fuel) n h = elim (Bool-cases (ltb n 10)) [
  | inl small ↦
      ap (λ (t : String). parse_digits 0 (codes t)) (decimal_on-unfold fuel n small)
      ∙ parse_digits-digit_text 0 n (ground arith)
      ∙ omega arith
  | inr large ↦
      let big : 10 ≤ n = ground arith in
      let last : n % 10 < 10 = omega arith in
      ap (λ (t : String). parse_digits 0 (codes t)) (decimal_on-unfold fuel n large)
      ∙ ap (parse_digits 0) (codes-append (decimal_on fuel (n / 10)) (digit_text (n % 10)))
      ∙ parse_digits-append 0 (codes (decimal_on fuel (n / 10))) (codes (digit_text (n % 10)))
      ∙ ap (λ (acc : ℕ). parse_digits acc (codes (digit_text (n % 10))))
          (decimal_on-parsed fuel (n / 10) (omega arith))
      ∙ parse_digits-digit_text (n / 10) (n % 10) last
      ∙ omega arith
]

-- BigInt reads every number back from its decimal text.
pub big_int-decimal : (n : ℕ) → big_int (decimal n) ≡ n
unfolding big_int decimal
big_int-decimal n = decimal_on-parsed (n + 1) n (omega arith)

-- The amounts of the demonstration are whole hundreds, from 500 to 50000.
pub payment_of-amount :
    (scenario : TransactionScenario)
    → (big_int (payment_of scenario).amount ≡ amount_value scenario.index)
      × (500 ≤ big_int (payment_of scenario).amount)
      × (big_int (payment_of scenario).amount ≤ 50000)
unfolding payment_of amount_for_index amount_value
payment_of-amount scenario =
    let r = big_int-decimal (amount_value scenario.index) in
    (r, rw r (omega arith), rw r (omega arith))
