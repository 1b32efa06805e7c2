-- ===== src/Payments/Creation.antt =====
-- What is created for a request that is no replay.
use ledger_ops_api.Payments.Service
use ledger_ops_api.Common.{
  Option, String, Failure, Result, ◌≡◌, some, ℕ, ok, find, true, false, none, arith, Bool-cases,
  err, inl, ◌==◌, inr, ==_iff, not_found,
}
use ledger_ops_api.Database.Tables.{Database, Transaction, system}
use ledger_ops_api.Database.Commit.{with_actor}
use ledger_ops_api.Database.Sql.{Env, Actor, Session, Sql}
use ledger_ops_api.Transactions.Idempotency.{
  create_transaction_idempotently, IdempotentCreateResult, recover_with, answer,
}
use ledger_ops_api.Payments.Service.{Platform, refund_of, refund_data, create_refund, payment_data}
use ledger_ops_api.Database.Commit.Cases.{
  session_of, sql_transaction_cases, then_call-eq-ok, autocommit-eq-ok,
}
use ledger_ops_api.Database.Rows.{TransactionData, transaction_create}
use ledger_ops_api.Payments.Util.{CreateRefundDto, CreatePaymentDto}
use ledger_ops_api.Transactions.Service.{
  by_reference, find_by_reference_or_throw, find_by_reference,
}
use ledger_ops_api.Database.Rows.Inserts.{Inserted, transaction_create-Inserted}
use ledger_ops_api.Transactions.Service.Runs.{find_by_reference-eq-ok}

recover_with-replayed :
    (o : Option Transaction) (fingerprint : String) (e : Failure) (d : Database)
    {r : IdempotentCreateResult} {d' : Database}
    → recover_with o fingerprint e d ≡ (ok r, d')
    → r.replayed ≡ true
recover_with-replayed none fingerprint e d h = cc
recover_with-replayed (some t) fingerprint e d {r} h = ground arith

answer-created :
    (meanwhile : Database → Database) (key fingerprint : String) (env : Env)
    (x : Result Transaction × Database) {r : IdempotentCreateResult} {d' : Database}
    → answer meanwhile key fingerprint env x ≡ (ok r, d')
    → r.replayed ≡ false
    → x ≡ (ok r.transaction, d')
answer-created meanwhile key fingerprint env (ok t, d) {r} h n = cc
answer-created meanwhile key fingerprint env (err e, d) {r} h n =
    let y = recover_with-replayed _ fingerprint e (meanwhile d) h in cc

with_actor-eq-ok :
    {A : Type 0} (actor : Actor) (body : Sql A) (env : Env) (d : Database) {a : A} {d' : Database}
    → with_actor actor body env d ≡ (ok a, d')
    → body (session_of env (some actor)) d ≡ ok (a, d')
unfolding with_actor
with_actor-eq-ok actor body env d {a} {d'} h =
    elim (sql_transaction_cases (some actor) body env d) [
      | inl (e, w) ↦ cc
      | inr (b, d₁, k, _, w) ↦ cc
    ]

abbrev pub payments_session : Env → Session
payments_session env =
    session_of env (some (record { type = system; id = "api:payments"; reason = none }))

created-Inserted :
    (meanwhile : Database → Database) (key fingerprint : String) (x : TransactionData) (env : Env)
    (d : Database) {r : IdempotentCreateResult} {d' : Database}
    → create_transaction_idempotently meanwhile "api:payments" key fingerprint
        (transaction_create x)
        env
        d
      ≡ (ok r, d')
    → r.replayed ≡ false
    → Inserted (payments_session env) x d r.transaction d'
unfolding create_transaction_idempotently
created-Inserted meanwhile key fingerprint x env d {r} {d'} h n =
    let a = answer-created meanwhile key fingerprint env _ h n in
    transaction_create-Inserted x (payments_session env) d
      (with_actor-eq-ok _ (transaction_create x) env d a)

-- A payment that is created, and not replayed, is one new row in the state initiated under the key of the request, for the
-- merchant of the key, with its first entry of history, and nothing else of the database changes.
pub create-Inserted :
    (p : Platform) (dto : CreatePaymentDto) (key : String) (m : ℕ) (env : Env) (d : Database)
    {r : IdempotentCreateResult} {d' : Database}
    → Service.create p dto key m env d ≡ (ok r, d')
    → r.replayed ≡ false
    → Inserted (payments_session env) (payment_data p env dto key m) d r.transaction d'
unfolding Service.create
create-Inserted p dto key m env d h n =
    created-Inserted p.meanwhile key (p.fingerprint_of dto) _ env d h n

-- The refund of a parent of the same merchant, which still has the amount.
pub record RefundCreated (p : Platform) (parent_reference : String) (dto : CreateRefundDto)
    (key : String) (m : ℕ) (env : Env) (d : Database) (t : Transaction) (d' : Database)
    : Type 0 where
  pub parent : Transaction
  pub parent_is : find (by_reference parent_reference) d.transactions ≡ some parent
  pub own : parent.merchant_id ≡ m
  pub inserted :
      Inserted
        (payments_session env)
        (refund_data p env parent_reference parent dto key)
        (p.before_insert d)
        t
        d'

refund_of-RefundCreated :
    (p : Platform) (parent_reference : String) (dto : CreateRefundDto) (key : String) (m : ℕ)
    (parent : Transaction) (env : Env) (d : Database) {r : IdempotentCreateResult} {d' : Database}
    → find (by_reference parent_reference) d.transactions ≡ some parent
    → refund_of p parent_reference dto key m parent env d ≡ (ok r, d')
    → r.replayed ≡ false
    → RefundCreated p parent_reference dto key m env d r.transaction d'
unfolding refund_of
refund_of-RefundCreated p parent_reference dto key m parent env d {r} {d'} f h n =
    elim (Bool-cases (parent.merchant_id == m)) [
      | inl y ↦ record {
        parent = parent;
        parent_is = f;
        own = (==_iff parent.merchant_id m).0 y;
        inserted =
            created-Inserted p.meanwhile key (p.refund_fingerprint_of parent_reference dto) _ env
              (p.before_insert d) (rw y at h) n;
      }
      | inr z ↦
          let w : ◌≡◌ {A = Result IdempotentCreateResult × Database} (err not_found, d) (ok r, d') =
            rw z at h in
          cc
    ]

-- A refund that is created, and not replayed, hangs on the payment that the reference names, which belongs to the caller's
-- merchant: it is one new row in the state initiated, and what the database asks of a refund held when it was inserted (a
-- known parent is a payment that is succeeded or partially refunded, and still has the amount).
pub create_refund-RefundCreated :
    (p : Platform) (parent_reference : String) (dto : CreateRefundDto) (key : String) (m : ℕ)
    (env : Env) (d : Database) {r : IdempotentCreateResult} {d' : Database}
    → create_refund p parent_reference dto key m env d ≡ (ok r, d')
    → r.replayed ≡ false
    → RefundCreated p parent_reference dto key m env d r.transaction d'
unfolding create_refund find_by_reference_or_throw
create_refund-RefundCreated p parent_reference dto key m env d {r} {d'} h n =
    let (parent, d₁, o, w) =
      then_call-eq-ok (find_by_reference_or_throw parent_reference env d)
        (λ x. refund_of p parent_reference dto key m x env) h in
    let (f, k) =
      find_by_reference-eq-ok parent_reference _ d
        (autocommit-eq-ok (find_by_reference parent_reference) env d o) in
    refund_of-RefundCreated p parent_reference dto key m parent env d f (rw k at w) n
