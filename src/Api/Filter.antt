-- ===== src/Api/Filter.antt =====
-- The texts of the answers to errors: ProblemDetailsFilter (common/filters/problem-details.filter.ts). An HttpException and its body belong to
-- NestJS, and an error of the database to Prisma: they enter as what the filter reads of them.
pub mod Answers
use ledger_ops_api.Common.{
  ℕ, List, [], ◌∷◌, ◌++◌, Option, some, none, Bool, leb, if◌then◌else◌, String, Text, map, ◌&&◌,
  ◌+◌, LedgerErrorCode, append_only, unbalanced_entry, currency_mismatch, sealed_entry,
  invalid_transition, frozen_field, missing_actor, invalid_reversal, inactive_account,
  business_rule,
}
use ledger_ops_api.Database.Checks.{codes}
use ledger_ops_api.Api.Problem.{code_text, ledger_status}
use ledger_ops_api.Api.Messages.{text_eq, extract_ledger_error_code, extract_ledger_error_message}

-- The `message` of a body: one text, several, or none.
pub data Detail : Type 0 where
  one : Text → Detail
  several : List Text → Detail
  absent : Detail

-- What getResponse gives.
pub data Body : Type 0 where
  text_body : Text → Body
  object_body : Detail → Body

-- `original` is meta.driverAdapterError.cause.originalMessage, where the error has it.
pub data Thrown : Type 0 where
  http_exception : (status : ℕ) → (name message : Text) → Body → Thrown
  other_error : (message : Text) → (original : Option Text) → Thrown

pub record ProblemDetails : Type 0 where
  pub type_uri : Text
  pub title : Text
  pub status : ℕ
  pub detail : Option Text
  pub instance_path : String
  pub code : Option String

-- The titles of LX_ERROR_MAP.
abbrev pub ledger_title : LedgerErrorCode → String
ledger_title append_only = "Violation d'invariant interne (ajout seul)"
ledger_title unbalanced_entry = "Violation d'invariant interne (écriture déséquilibrée)"
ledger_title currency_mismatch = "Violation d'invariant interne (devise incohérente)"
ledger_title sealed_entry = "Violation d'invariant interne (écriture scellée)"
ledger_title invalid_transition = "Transition de statut interdite"
ledger_title frozen_field = "Violation d'invariant interne (champ figé)"
ledger_title missing_actor = "Violation d'invariant interne (acteur manquant)"
ledger_title invalid_reversal = "Violation d'invariant interne (contre-écriture non conforme)"
ledger_title inactive_account = "Compte comptable inactif"
ledger_title business_rule = "Règle métier violée"

abbrev pub message_of : Thrown → Text
message_of (http_exception status name message body) = message
message_of (other_error message original) = message

abbrev pub original_of : Thrown → Option Text
original_of (http_exception status name message body) = none
original_of (other_error message original) = original

-- toLowerCase, on the letters of a code.
abbrev pub lower : ℕ → ℕ
lower c = if leb b'A' c && leb c b'Z' then c + 32 else c

-- `...(detail ? { detail } : {})`: an empty text is left out.
abbrev pub shown : Option Text → Option Text
shown none = none
shown (some []) = none
shown (some (c ∷ cs)) = some (c ∷ cs)

-- join("; ")
unfoldable pub joined : List Text → Text
joined [] = []
joined (t ∷ []) = t
joined (t ∷ u ∷ ts) = t ++ b';' ∷ b' ' ∷ joined (u ∷ ts)

-- replace(/Exception$/, "")
unfoldable pub without_exception : Text → Text
without_exception [] = []
without_exception (c ∷ cs) =
    let rest = without_exception cs in if text_eq (c ∷ cs) (codes "Exception") then [] else c ∷ rest

unfoldable pub detail_of : Body → Option Text
unfolding joined
detail_of (text_body t) = some t
detail_of (object_body (one t)) = some t
detail_of (object_body (several ts)) = some (joined ts)
detail_of (object_body absent) = none

unfoldable pub ledger_problem_details : LedgerErrorCode → Thrown → String → ProblemDetails
ledger_problem_details k e path = record {
  type_uri = codes "https://ledger-ops.internal/errors/" ++ map lower (codes (code_text k));
  title = codes (ledger_title k);
  status = ledger_status k;
  detail = shown (
      if leb 500 (ledger_status k)
      then none
      else extract_ledger_error_message (original_of e) (message_of e));
  instance_path = path;
  code = some (code_text k);
}

unfoldable pub http_problem_details : ℕ → Text → Body → String → ProblemDetails
unfolding without_exception detail_of
http_problem_details status name body path = record {
  type_uri = codes "about:blank";
  title = without_exception name;
  status = status;
  detail = shown (detail_of body);
  instance_path = path;
  code = none;
}

abbrev pub internal_problem_details : String → ProblemDetails
internal_problem_details path = record {
  type_uri = codes "about:blank";
  title = codes "Internal Server Error";
  status = 500;
  detail = none;
  instance_path = path;
  code = none;
}

-- Without a code of the ledger in its message.
abbrev pub plain_problem_details : Thrown → String → ProblemDetails
plain_problem_details (http_exception status name message body) path =
    http_problem_details status name body path
plain_problem_details (other_error message original) path = internal_problem_details path

abbrev pub with_code : Option LedgerErrorCode → Thrown → String → ProblemDetails
with_code (some k) e path = ledger_problem_details k e path
with_code none e path = plain_problem_details e path

-- toProblem. The code is looked for first, in the message of an HttpException too.
unfoldable pub to_problem_details : Thrown → String → ProblemDetails
to_problem_details e path = with_code (extract_ledger_error_code (message_of e)) e path
