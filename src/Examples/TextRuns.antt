-- ===== src/Examples/TextRuns.antt =====
-- Messages, keys, cursors and the repeated sweep at concrete inputs.
use ledger_ops_api.Common.{
  ℕ, ◌≡◌, ◌++◌, ◌*◌, ◌≤◌, ◌+◌, String, some, none, ok, refl, [], ◌∷◌, invalid_transition,
  ledger_error, Text, false, Result, Option, arith, Bool, List, ap,
}
use ledger_ops_api.Database.Checks.{codes}
use ledger_ops_api.Database.Tables.{Database, analyst, pending, ApiKey, debit}
use ledger_ops_api.Database.Sql.{◌>>=◌}
use ledger_ops_api.Database.Commit.{autocommit}
use ledger_ops_api.Database.Ledger.{commit_checks, check_entries}
use ledger_ops_api.Auth.Keys.{
  CreateApiKeyDto, CreatedApiKey, create, key_insert, key_checks, new_key, role_matches,
}
use ledger_ops_api.Auth.Guards.{api_key_guard}
use ledger_ops_api.Auth.Issuing.{create-api_key_guard}
use ledger_ops_api.Api.Messages.Codes.{raised}
use ledger_ops_api.Api.Problem.{to_problem}
use ledger_ops_api.Api.Filter.{
  Thrown, http_exception, other_error, object_body, one, to_problem_details,
}
use ledger_ops_api.Api.Filter.Answers.{summary, in_message, to_problem_details-summary}
use ledger_ops_api.Examples.Data.{demo_database, demo_env, demo_payment}
use ledger_ops_api.Transactions.Listing.Paging.{matching}
use ledger_ops_api.Transactions.Listing.Following.{crawl_texts, crawl_texts-matching}
use ledger_ops_api.Examples.ExpirationRuns.{one_by_one, two_payments, one_row, three_pages}
use ledger_ops_api.Transactions.Listing.Cursors.{NodeTexts, Inverse, Json}
use ledger_ops_api.Payments.Util.{big_int}
use ledger_ops_api.Scripts.Payments.Texts.{decimal}
use ledger_ops_api.Scripts.Payments.RoundTrip.{big_int-decimal}
use ledger_ops_api.Scripts.Sweep.{Rounds, settle_expired_batch}
use ledger_ops_api.Scripts.Sweep.Ends.{Outcome, settle_expired_batch-ends}
use ledger_ops_api.Transactions.Booking.Accounts.{◌⧺◌}
use ledger_ops_api.Scripts.Verification.{v_trial_balance_violations}

abbrev refused_move : Thrown
refused_move =
    other_error (codes "Raw query failed: " ++ raised invalid_transition (codes " interdite ")) none

to_problem_details-summary_example :
    summary (to_problem_details refused_move "/v1/payments")
    ≡ to_problem (ledger_error invalid_transition) "/v1/payments"
unfolding ledger_ops_api.Common.trim ledger_ops_api.Common.is_space
to_problem_details-summary_example =
    to_problem_details-summary (ledger_error invalid_transition) refused_move "/v1/payments"
      (in_message invalid_transition (codes "Raw query failed: ") (codes " interdite ") refl refl)

-- A reference that looks like a code turns "not found" into an internal error.
abbrev not_found_text : Text
not_found_text = codes "Transaction [LX001] introuvable"

disguised :
    (to_problem_details
      (http_exception 404
        (codes "NotFoundException")
        not_found_text
        (object_body (one not_found_text)))
      "/v1/transactions/[LX001]").status
    ≡ 500
unfolding to_problem_details ledger_ops_api.Api.Messages.extract_ledger_error_code
    ledger_ops_api.Database.Checks.is_digit ledger_ops_api.Api.Filter.ledger_problem_details
    ledger_ops_api.Api.Problem.ledger_status
disguised = refl

-- A stand-in for the hash.
abbrev same_text : String → String
same_text s = s

abbrev analyst_dto : CreateApiKeyDto
analyst_dto = record { label = "analyst"; role = analyst; merchant_id = none }

abbrev analyst_key : ApiKey
analyst_key = record {
  id = 99;
  label = "analyst";
  role = analyst;
  hashed_key = "secret";
  merchant_id = none;
  is_active = Bool.true;
  revoked_at = none;
  created_at = 1000;
}

abbrev no_keys : Database
no_keys = demo_database []

abbrev with_key : Database
with_key = record no_keys { api_keys = analyst_key ∷ [] }

abbrev created : CreatedApiKey
created = record { api_key = analyst_key; raw_key = "secret" }

created_run : create same_text analyst_dto "secret" demo_env no_keys ≡ (ok created, with_key)
unfolding create ◌>>=◌ autocommit commit_checks check_entries key_insert key_checks new_key
    role_matches
created_run = refl

create-api_key_guard_example :
    (created.raw_key ≡ "secret")
    × (api_key_guard same_text (some ("Bearer " ⧺ created.raw_key)) with_key
        ≡ ok (record { api_key_id = 99; role = analyst; merchant_id = none }))
create-api_key_guard_example =
    create-api_key_guard same_text analyst_dto "secret" demo_env no_keys {c = created}
      {d' = with_key} created_run

-- Stand-ins for the functions of Node.js: JSON values as their own texts, dates and ids as decimal numbers.
abbrev node : NodeTexts Json Json
node = record {
  stringify = λ j. j;
  parse = λ j. some j;
  to_base64url = λ t. t;
  from_base64url = λ t. t;
  to_iso_string = decimal;
  date_of = λ s. some (big_int s);
  text_of_id = decimal;
  id_of_text = λ s. some (big_int s);
}

node-Inverse : Inverse node
node-Inverse = record {
  json = λ c. refl;
  base64url = λ t. refl;
  date = λ n h. ap some (big_int-decimal n);
  id = λ n. ap some (big_int-decimal n);
}

abbrev one_pending : Database
one_pending = demo_database (demo_payment pending 0 ∷ [])

crawl_texts-matching_example :
    crawl_texts node 3 one_by_one none none two_payments
    ≡ ok (matching one_by_one none two_payments)
crawl_texts-matching_example =
    crawl_texts-matching node 3 one_by_one none two_payments node-Inverse (refl, (refl, tt))
      (omega arith, (omega arith, tt)) one_row three_pages

-- A second after the payment is due, nobody else is at work, and each round takes half a second.
abbrev rounds : Rounds
rounds = record {
  locked = λ round i. false;
  envs = λ round i. record demo_env { clock_now = 901000 };
  meanwhile = λ round d. d;
  now = λ round. 901000 + 500 * round;
}

settle_expired_batch-ends_example :
    Outcome
      ("TXN-20260922-8F3K2Q" ∷ [])
      (settle_expired_batch 61 rounds 901000 ("TXN-20260922-8F3K2Q" ∷ []) one_pending)
settle_expired_batch-ends_example =
    settle_expired_batch-ends rounds 901000 ("TXN-20260922-8F3K2Q" ∷ []) one_pending
      (λ round x k. k) (λ round. omega arith) (refl, tt)

-- The view leaves out a currency with postings on one side only.
one_sided :
    v_trial_balance_violations (
      record { entry_id = 1; account_id = 11; direction = debit; amount = 5; currency = "XOF" }
      ∷ [])
    ≡ []
unfolding v_trial_balance_violations ledger_ops_api.Common.str_eq
one_sided = refl
