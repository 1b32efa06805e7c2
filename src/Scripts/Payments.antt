-- ===== src/Scripts/Payments.antt =====
-- The payments of seed-demo.ts: the scenarios, their texts, and the calls that take a payment to its outcome.
pub mod Texts
pub mod RoundTrip
use ledger_ops_api.Common.{
  ℕ, String, List, if◌then◌else◌, [], ◌++◌, ◌%◌, some, suc, ◌==◌, ◌∷◌, none, zero, find, str_eq,
  plain_error,
}
use ledger_ops_api.Database.Tables.{
  Transaction, Provider, TransactionStatus, Merchant, orange_money, mtn_momo, wave, moov_money,
}
use ledger_ops_api.Scripts.Payments.Texts.{
  amount_for_index, provider_reference_for_index, idempotency_key_for_index, msisdn_for_index,
}
use ledger_ops_api.Transactions.Service.{TransitionStatusDto, transition}
use ledger_ops_api.Transactions.Idempotency.{IdempotentCreateResult}
use ledger_ops_api.Scripts.{Script, call, done, ◌>>=◌, or_fail}
use ledger_ops_api.Payments.Util.{CreatePaymentDto}

pub data ScenarioOutcome : Type 0 where
  succeeded failed expired pending : ScenarioOutcome

pub record TransactionScenario : Type 0 where
  pub index : ℕ
  pub merchant_code : String
  pub provider : Provider
  pub outcome : ScenarioOutcome

pub record SeededTransaction : Type 0 where
  pub reference : String
  pub status : TransactionStatus
  pub merchant_code : String

-- `merchantCodes[index % merchantCodes.length]`
abbrev pub merchant_code_for : ℕ → String
merchant_code_for index =
    if index % 3 == 0
    then "boutique_akwaba"
    else if index % 3 == 1
    then "pharmacie_plateau"
    else "maquis_chez_tantie"

-- `PROVIDERS[index % PROVIDERS.length]`
abbrev pub provider_for : ℕ → Provider
provider_for index =
    if index % 4 == 0
    then orange_money
    else if index % 4 == 1
    then mtn_momo
    else if index % 4 == 2
    then wave
    else moov_money

-- OUTCOME_COUNTS
abbrev pub outcome_count : ScenarioOutcome → ℕ
outcome_count succeeded = 58
outcome_count failed = 6
outcome_count expired = 4
outcome_count pending = 3

-- The scenarios of one outcome, from an index on.
unfoldable pub scenarios_of : ScenarioOutcome → ℕ → ℕ → List TransactionScenario
scenarios_of outcome zero index = []
scenarios_of outcome (suc count) index =
    record {
      index = index;
      merchant_code = merchant_code_for index;
      provider = provider_for index;
      outcome = outcome;
    }
    ∷ scenarios_of outcome count (suc index)

unfoldable pub build_scenarios : List TransactionScenario
unfolding scenarios_of
build_scenarios =
    scenarios_of succeeded (outcome_count succeeded) 0
    ++ scenarios_of failed (outcome_count failed) 58
    ++ scenarios_of expired (outcome_count expired) 64
    ++ scenarios_of pending (outcome_count pending) 68

abbrev pub failure_reason : ℕ → String
failure_reason index =
    if index % 4 == 0
    then "Solde insuffisant côté client"
    else if index % 4 == 1
    then "Timeout opérateur"
    else if index % 4 == 2
    then "Annulé par le client"
    else "PIN erroné (3 tentatives)"

unfoldable pub seeded : Transaction → TransactionScenario → SeededTransaction
seeded t scenario = record {
  reference = t.reference;
  status = t.status;
  merchant_code = scenario.merchant_code;
}

abbrev pub move_to : Transaction → TransitionStatusDto → Script Transaction
move_to t dto = call (λ w n. transition t.reference dto t.version)

unfoldable pub payment_of : TransactionScenario → CreatePaymentDto
unfolding amount_for_index msisdn_for_index
payment_of scenario = record {
  provider = scenario.provider;
  amount = amount_for_index scenario.index;
  currency = "XOF";
  customer_msisdn = msisdn_for_index scenario.index;
}

-- What follows the push: nothing for a payment that is to stay pending or to be swept.
unfoldable pub settle_payment :
    TransactionScenario → ScenarioOutcome → Transaction → Script Transaction
unfolding provider_reference_for_index
settle_payment scenario pending current = done current
settle_payment scenario expired current = done current
settle_payment scenario succeeded current = move_to current (record {
  status = TransactionStatus.succeeded;
  reason = some "Confirmation opérateur";
  provider_reference = some (provider_reference_for_index scenario.index);
})
settle_payment scenario failed current = move_to current (record {
  status = TransactionStatus.failed;
  reason = some (failure_reason scenario.index);
  provider_reference = none;
})

abbrev pub push : TransitionStatusDto
push = record {
  status = TransactionStatus.pending;
  reason = some "Push USSD envoyé";
  provider_reference = none;
}

-- A replay is left as it is.
abbrev pub after_creation : TransactionScenario → IdempotentCreateResult → Script SeededTransaction
after_creation scenario created =
    if created.replayed then done (seeded created.transaction scenario) else (do
      current ← move_to created.transaction push
      settled ← settle_payment scenario scenario.outcome current
      done (seeded settled scenario))

unfoldable pub seed_one_payment : Merchant → TransactionScenario → Script SeededTransaction
unfolding seeded payment_of settle_payment idempotency_key_for_index
seed_one_payment m scenario = do
  created ← call (λ w n.
      ledger_ops_api.Payments.Service.create (w.platform n) (payment_of scenario)
        (idempotency_key_for_index scenario.index) m.id)
  after_creation scenario created

-- `for (const scenario of ...)`, with the look-up of its merchant.
unfoldable pub seed_payments :
    List Merchant → List TransactionScenario → Script (List SeededTransaction)
unfolding seed_one_payment
seed_payments merchants [] = done []
seed_payments merchants (scenario ∷ scenarios) = do
  m ← or_fail (find (λ (x : Merchant). str_eq x.code scenario.merchant_code) merchants) plain_error
  first ← seed_one_payment m scenario
  rest ← seed_payments merchants scenarios
  done (first ∷ rest)
