-- ===== src/Examples/ScriptRuns.antt =====
-- The scripts at a concrete world.
use ledger_ops_api.Scripts.{World, call}
use ledger_ops_api.Scripts.Sweep.{Rounds}
use ledger_ops_api.Database.Tables.{TransactionStatus, Database, ApiKey, admin, mtn_momo}
use ledger_ops_api.Scripts.Keys.{bootstrap}
use ledger_ops_api.Examples.Data.{demo_payment, demo_env, demo_database, platform}
use ledger_ops_api.Common.{
  List, false, ◌*◌, ◌∷◌, ◌≡◌, ◌+◌, [], none, ok, true, str_eq, some, refl, ◌≤◌,
}
use ledger_ops_api.Auth.Keys.{new_key, key_insert, key_checks, role_matches}
use ledger_ops_api.Scripts.Bootstrap.{bootstrap-bootstrap}
use ledger_ops_api.Database.Commit.{autocommit}
use ledger_ops_api.Database.Ledger.{commit_checks, check_entries}
use ledger_ops_api.Scripts.Payments.{
  SeededTransaction, TransactionScenario, payment_of, ScenarioOutcome,
}
use ledger_ops_api.Payments.Util.{big_int}
use ledger_ops_api.Scripts.Payments.Texts.{amount_value}
use ledger_ops_api.Scripts.Payments.RoundTrip.{payment_of-amount}

abbrev world : World
world = record {
  env = λ n. record demo_env { txid_current = 50 + n; uuid = λ t. 99 + n };
  platform = λ n. platform;
  drawn_key = λ n. "drawn";
  hash_api_key = λ raw. raw;
}

abbrev fresh : Database
fresh = demo_database []

-- Payments of the demonstration, and a database with the first of them.
abbrev seeded : List SeededTransaction
seeded =
    record {
      reference = "TXN-20260922-8F3K2Q";
      status = TransactionStatus.succeeded;
      merchant_code = "boutique_akwaba";
    }
    ∷ record {
      reference = "TXN-20260922-000001";
      status = TransactionStatus.expired;
      merchant_code = "boutique_akwaba";
    }
    ∷ []

abbrev with_payment : Database
with_payment = demo_database (demo_payment TransactionStatus.succeeded 0 ∷ [])

-- Nobody else is at work, and each round of the sweep takes half a second.
abbrev rounds : Rounds
rounds = record {
  locked = λ round i. false;
  envs = λ round i. record demo_env { clock_now = 901000 };
  meanwhile = λ round d. d;
  now = λ round. 901000 + 500 * round;
}

-- The first run makes a key.
abbrev first_key : ApiKey
first_key = record {
  id = 99;
  label = "bootstrap admin";
  role = admin;
  hashed_key = "drawn";
  merchant_id = none;
  is_active = true;
  revoked_at = none;
  created_at = 1000;
}

abbrev bootstrapped : Database
bootstrapped = record fresh { api_keys = first_key ∷ [] }

first_run :
    bootstrap world 0 fresh
    ≡ (ok (some (record { api_key = first_key; raw_key = "drawn" })), (1, bootstrapped))
unfolding bootstrap ledger_ops_api.Scripts.◌>>=◌ call ledger_ops_api.Auth.Keys.create new_key
    key_insert key_checks ledger_ops_api.Database.Sql.◌>>=◌ autocommit commit_checks check_entries
    role_matches str_eq
first_run = refl

bootstrap-bootstrap_example : bootstrap world 7 bootstrapped ≡ (ok none, (7, bootstrapped))
bootstrap-bootstrap_example = bootstrap-bootstrap world world 0 7 fresh first_run

-- The first scenario.
abbrev first_scenario : TransactionScenario
first_scenario = record {
  index = 1;
  merchant_code = "pharmacie_plateau";
  provider = mtn_momo;
  outcome = ScenarioOutcome.succeeded;
}

payment_of-amount_example :
    (big_int (payment_of first_scenario).amount ≡ amount_value 1)
    × (500 ≤ big_int (payment_of first_scenario).amount)
    × (big_int (payment_of first_scenario).amount ≤ 50000)
payment_of-amount_example = payment_of-amount first_scenario
