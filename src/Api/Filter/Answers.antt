-- ===== src/Api/Filter/Answers.antt =====
-- The answers of the filter against those that Api.Problem gives for the failures of the calls.
use ledger_ops_api.Common.{
  ℕ, ◌≡◌, [], ◌++◌, Option, some, none, is_some, true, false, any, inl, inr, Bool-cases, String,
  Text, trim, refl, sym, ap, ◌∙◌, LedgerErrorCode, Failure, ledger_error, bad_request, unauthorized,
  forbidden, not_found, conflict, precondition_failed, unprocessable_entity,
  reconciliation_required, unique_violation, check_violation, foreign_key_violation,
  numeric_out_of_range, value_too_long, record_not_found, plain_error, business_rule, leb, Bool,
  ◌==◌,
}
use ledger_ops_api.Api.Problem.{
  Problem, to_problem, ledger_status, from_ledger_error, from_http_exception, internal_error,
}
use ledger_ops_api.Api.Messages.{extract_ledger_error_code, extract_ledger_error_message}
use ledger_ops_api.Api.Messages.Codes.{raised, raised-round_trip}
use ledger_ops_api.Api.Filter.{
  Body, Thrown, http_exception, other_error, ProblemDetails, shown, detail_of, to_problem_details,
  original_of, message_of, plain_problem_details, with_code, ledger_problem_details,
  http_problem_details,
}

abbrev pub has_bracket : Text → Bool
has_bracket = any (λ (c : ℕ). c == b'[')

-- How a failure is answered: by the code of an error of the ledger, by the status of the class of an HttpException, or as an internal error.
pub data Manner : Type 0 where
  by_code : LedgerErrorCode → Manner
  by_status : ℕ → Manner
  internally : Manner

abbrev pub manner : Failure → Manner
manner (ledger_error k) = by_code k
manner bad_request = by_status 400
manner unauthorized = by_status 401
manner forbidden = by_status 403
manner not_found = by_status 404
manner conflict = by_status 409
manner precondition_failed = by_status 412
manner unprocessable_entity = by_status 422
manner (reconciliation_required i) = by_status 409
manner unique_violation = internally
manner check_violation = internally
manner foreign_key_violation = internally
manner numeric_out_of_range = internally
manner value_too_long = internally
manner record_not_found = internally
manner plain_error = internally

abbrev pub has_text : Option Text → Bool
has_text t = is_some (shown t)

-- What is thrown for a failure of a call. The database raises its code and a text that is not blank, perhaps with other text in front; where the
-- driver keeps the message of the database, the text is read there. Any other message has no opening bracket.
pub data Carries : Failure → Thrown → Type 0 where
  in_message :
      (k : LedgerErrorCode) (before text : Text)
      → has_bracket before ≡ false
      → has_text (some (trim text)) ≡ true
      → Carries (ledger_error k) (other_error (before ++ raised k text) none)
  in_original :
      (k : LedgerErrorCode) (before text rest : Text)
      → has_bracket before ≡ false
      → has_text (some (trim text)) ≡ true
      → Carries (ledger_error k) (other_error (before ++ raised k rest) (some (raised k text)))
  as_exception :
      (f : Failure) (status : ℕ) (name message : Text) (body : Body)
      → manner f ≡ by_status status
      → has_bracket message ≡ false
      → has_text (detail_of body) ≡ true
      → Carries f (http_exception status name message body)
  as_error :
      (f : Failure) (message : Text) (original : Option Text)
      → manner f ≡ internally
      → has_bracket message ≡ false
      → Carries f (other_error message original)

-- What Api.Problem keeps of an answer.
abbrev pub summary : ProblemDetails → Problem
summary p = record {
  status = p.status;
  has_detail = is_some p.detail;
  instance_path = p.instance_path;
  code = p.code;
}

abbrev pub by_manner : Manner → String → Problem
by_manner (by_code k) path = from_ledger_error k path
by_manner (by_status n) path = from_http_exception n path
by_manner internally path = internal_error path

to_problem-manner : (f : Failure) (path : String) → to_problem f path ≡ by_manner (manner f) path
unfolding to_problem
to_problem-manner (ledger_error k) path = refl
to_problem-manner bad_request path = refl
to_problem-manner unauthorized path = refl
to_problem-manner forbidden path = refl
to_problem-manner not_found path = refl
to_problem-manner conflict path = refl
to_problem-manner precondition_failed path = refl
to_problem-manner unprocessable_entity path = refl
to_problem-manner (reconciliation_required i) path = refl
to_problem-manner unique_violation path = refl
to_problem-manner check_violation path = refl
to_problem-manner foreign_key_violation path = refl
to_problem-manner numeric_out_of_range path = refl
to_problem-manner value_too_long path = refl
to_problem-manner record_not_found path = refl
to_problem-manner plain_error path = refl

-- An internal error of the ledger keeps its text to itself, another one shows it.
ledger_problem_details-summary :
    (k : LedgerErrorCode) (e : Thrown) (text : Text) (path : String)
    → extract_ledger_error_message (original_of e) (message_of e) ≡ some (trim text)
    → has_text (some (trim text)) ≡ true
    → summary (ledger_problem_details k e path) ≡ from_ledger_error k path
unfolding ledger_problem_details from_ledger_error
ledger_problem_details-summary k e text path h full =
    elim (Bool-cases (leb 500 (ledger_status k))) [
      | inl y ↦ rw y refl
      | inr n ↦ rw (n, h, full) refl
    ]

coded :
    (k : LedgerErrorCode) (e : Thrown) (path : String)
    → extract_ledger_error_code (message_of e) ≡ some k
    → to_problem_details e path ≡ ledger_problem_details k e path
unfolding to_problem_details
coded k e path h = ap (λ (o : Option LedgerErrorCode). with_code o e path) h

uncoded :
    (e : Thrown) (path : String)
    → has_bracket (message_of e) ≡ false
    → to_problem_details e path ≡ plain_problem_details e path
unfolding to_problem_details
uncoded e path h =
    let (_, _, none_found, _) = raised-round_trip business_rule (message_of e) [] h in
    ap (λ (o : Option LedgerErrorCode). with_code o e path) none_found

-- The answer to a thrown failure has the status, the code and the path that Api.Problem gives for the failure, and a detail exactly where that has
-- one, if the thrown error carries the failure: a code of the ledger is in the message behind text without an opening bracket, other messages
-- have no opening bracket, and texts that are shown are not blank.
pub to_problem_details-summary :
    (f : Failure) (e : Thrown) (path : String)
    → Carries f e
    → summary (to_problem_details e path) ≡ to_problem f path
unfolding http_problem_details internal_error from_http_exception extract_ledger_error_message
to_problem_details-summary f e path (in_message k before text h full) =
    let (code, message, _, _) = raised-round_trip k before text h in
    ap summary (coded k (other_error (before ++ raised k text) none) path code)
    ∙ ledger_problem_details-summary k (other_error (before ++ raised k text) none) text path
        message full
    ∙ sym (to_problem-manner (ledger_error k) path)
to_problem_details-summary f e path (in_original k before text rest h full) =
    let (code, _, _, _) = raised-round_trip k before rest h in
    let (_, message, _, _) = raised-round_trip k [] text refl in
    ap summary (coded k (other_error (before ++ raised k rest) (some (raised k text))) path code)
    ∙ ledger_problem_details-summary k
        (other_error (before ++ raised k rest) (some (raised k text))) text path message full
    ∙ sym (to_problem-manner (ledger_error k) path)
to_problem_details-summary f e path (as_exception g status name message body m h full) =
    ap summary (uncoded (http_exception status name message body) path h)
    ∙ rw full refl
    ∙ sym (to_problem-manner f path ∙ ap (λ (x : Manner). by_manner x path) m)
to_problem_details-summary f e path (as_error g message original m h) =
    ap summary (uncoded (other_error message original) path h)
    ∙ sym (to_problem-manner f path ∙ ap (λ (x : Manner). by_manner x path) m)
