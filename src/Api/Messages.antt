-- ===== src/Api/Messages.antt =====
-- The codes in the messages of the database (database/ledger-errors.ts). A message is the list of its character codes.
pub mod Codes
use ledger_ops_api.Common.{
  ℕ, List, [], ◌∷◌, Option, some, none, Bool, ◌&&◌, ◌==◌, if◌then◌else◌, find, LedgerErrorCode,
  append_only, unbalanced_entry, currency_mismatch, sealed_entry, invalid_transition, frozen_field,
  missing_actor, invalid_reversal, inactive_account, business_rule, Text, trim, String, map_option,
  is_some,
}
use ledger_ops_api.Database.Checks.{codes, is_digit}
use ledger_ops_api.Api.Problem.{code_text}

abbrev pub text_eq : Text → Text → Bool
text_eq [] [] = Bool.true
text_eq [] (d ∷ ds) = Bool.false
text_eq (c ∷ cs) [] = Bool.false
text_eq (c ∷ cs) (d ∷ ds) = c == d && text_eq cs ds

-- KNOWN_CODES
abbrev pub known_codes : List LedgerErrorCode
known_codes =
    append_only ∷ unbalanced_entry ∷ currency_mismatch ∷ sealed_entry ∷ invalid_transition
    ∷ frozen_field ∷ missing_actor ∷ invalid_reversal ∷ inactive_account ∷ business_rule ∷ []

-- What the expression \[(LX\d{3})\] captures, and what follows the match.
pub record Match : Type 0 where
  pub code : Text
  pub rest : Text

-- One character of the expression, and what is left of the text after it.
abbrev pub expect : ℕ → Text → Option Text
expect c [] = none
expect c (d ∷ ds) = if d == c then some ds else none

abbrev pub digit : Text → Option (ℕ × Text)
digit [] = none
digit (d ∷ ds) = if is_digit d then some (d, ds) else none

abbrev pub then_match {ℓ κ} : {A : Type ℓ} → {B : Type κ} → Option A → (A → Option B) → Option B
then_match none f = none
then_match (some a) f = f a

-- The expression at the start of a text.
unfoldable pub match_here : Text → Option Match
match_here cs = then_match (expect b'[' cs) λ r₁. then_match (expect b'L' r₁) λ r₂.
    then_match (expect b'X' r₂) λ r₃. then_match (digit r₃) λ x. then_match (digit x.1) λ y.
      then_match (digit y.1) λ z.
        map_option
          (λ (rest : Text). record { code = b'L' ∷ b'X' ∷ x.0 ∷ y.0 ∷ z.0 ∷ []; rest = rest })
          (expect b']' z.1)

abbrev pub or_later : Option Match → Option Match → Option Match
or_later (some m) later = some m
or_later none later = later

-- CODE_IN_MESSAGE.exec: the first match in the text.
unfoldable pub code_in_message : Text → Option Match
unfolding match_here
code_in_message [] = none
code_in_message (c ∷ cs) = or_later (match_here (c ∷ cs)) (code_in_message cs)

unfoldable pub known_code : Text → Option LedgerErrorCode
known_code code = find (λ (k : LedgerErrorCode). text_eq (codes (code_text k)) code) known_codes

unfoldable pub extract_ledger_error_code : Text → Option LedgerErrorCode
unfolding code_in_message known_code
extract_ledger_error_code message = then_match (code_in_message message) λ m. known_code m.code

-- `code`, where it is given, must be the one that is found.
unfoldable pub is_ledger_error : Text → Option LedgerErrorCode → Bool
unfolding extract_ledger_error_code
is_ledger_error message expected = elim (extract_ledger_error_code message) [
  | none ↦ Bool.false
  | some found ↦ elim expected [
    | none ↦ Bool.true
    | some code ↦ text_eq (codes (code_text found)) (codes (code_text code))
  ]
]

-- `original` is meta.driverAdapterError.cause.originalMessage, where the error has it.
unfoldable pub extract_ledger_error_message : Option Text → Text → Option Text
unfolding code_in_message
extract_ledger_error_message original message =
    map_option (λ (m : Match). trim m.rest)
      (code_in_message (elim original [ none ↦ message | some text ↦ text ]))
