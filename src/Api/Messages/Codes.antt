-- ===== src/Api/Messages/Codes.antt =====
-- Reading the code of an error of the ledger from its message.
use ledger_ops_api.Common.{
  ℕ, [], ◌∷◌, ◌++◌, Option, some, none, ◌==◌, ◌≡◌, refl, LedgerErrorCode, append_only,
  unbalanced_entry, false, currency_mismatch, sealed_entry, invalid_transition, frozen_field,
  missing_actor, invalid_reversal, inactive_account, business_rule, Text, trim, any, arith,
  map_option, ◌∙◌, ap,
}
use ledger_ops_api.Database.Checks.{codes, is_digit}
use ledger_ops_api.Api.Problem.{code_text}
use ledger_ops_api.Api.Messages.{
  Match, match_here, code_in_message, extract_ledger_error_code, extract_ledger_error_message,
  known_code, then_match,
}

-- RAISE EXCEPTION '[LXnnn] ...', where a driver or Prisma may have put text in front.
abbrev pub raised : LedgerErrorCode → Text → Text
raised k text = b'[' ∷ codes (code_text k) ++ b']' ∷ text

raised-match :
    (k : LedgerErrorCode) (text : Text)
    → code_in_message (raised k text) ≡ some (record { code = codes (code_text k); rest = text })
unfolding code_in_message match_here is_digit
raised-match append_only text = refl
raised-match unbalanced_entry text = refl
raised-match currency_mismatch text = refl
raised-match sealed_entry text = refl
raised-match invalid_transition text = refl
raised-match frozen_field text = refl
raised-match missing_actor text = refl
raised-match invalid_reversal text = refl
raised-match inactive_account text = refl
raised-match business_rule text = refl

known_code-code_text : (k : LedgerErrorCode) → known_code (codes (code_text k)) ≡ some k
unfolding known_code
known_code-code_text append_only = refl
known_code-code_text unbalanced_entry = refl
known_code-code_text currency_mismatch = refl
known_code-code_text sealed_entry = refl
known_code-code_text invalid_transition = refl
known_code-code_text frozen_field = refl
known_code-code_text missing_actor = refl
known_code-code_text invalid_reversal = refl
known_code-code_text inactive_account = refl
known_code-code_text business_rule = refl

match_here-other : (c : ℕ) (cs : Text) → (c == b'[') ≡ false → match_here (c ∷ cs) ≡ none
unfolding match_here
match_here-other c cs h = rw h refl

-- Text without a bracket hides nothing.
code_in_message-after :
    (before text : Text)
    → any (λ (c : ℕ). c == b'[') before ≡ false
    → code_in_message (before ++ text) ≡ code_in_message text
unfolding code_in_message
code_in_message-after [] text h = refl
code_in_message-after (c ∷ before) text h =
    let n : (c == b'[') ≡ false = ground arith in
    rw (match_here-other c (before ++ text) n) (code_in_message-after before text (ground arith))

code_in_message-none :
    (cs : Text) → any (λ (c : ℕ). c == b'[') cs ≡ false → code_in_message cs ≡ none
unfolding code_in_message
code_in_message-none [] h = refl
code_in_message-none (c ∷ cs) h =
    let n : (c == b'[') ≡ false = ground arith in
    rw (match_here-other c cs n) (code_in_message-none cs (ground arith))

-- A message that the database raises with a code, behind any text without an opening bracket, gives that code and its own text, trimmed; a
-- message without an opening bracket gives neither.
pub raised-round_trip :
    (k : LedgerErrorCode) (before text : Text)
    → any (λ (c : ℕ). c == b'[') before ≡ false
    → (extract_ledger_error_code (before ++ raised k text) ≡ some k)
      × (extract_ledger_error_message none (before ++ raised k text) ≡ some (trim text))
      × (extract_ledger_error_code before ≡ none)
      × (extract_ledger_error_message none before ≡ none)
unfolding extract_ledger_error_code extract_ledger_error_message
raised-round_trip k before text h =
    let found = code_in_message-after before (raised k text) h ∙ raised-match k text in
    let nothing = code_in_message-none before h in
    (
      ap (λ (o : Option Match). then_match o (λ m. known_code m.code)) found
          ∙ known_code-code_text k,
      ap (λ (o : Option Match). map_option (λ m. trim m.rest) o) found,
      ap (λ (o : Option Match). then_match o (λ m. known_code m.code)) nothing,
      ap (λ (o : Option Match). map_option (λ m. trim m.rest) o) nothing,
    )
