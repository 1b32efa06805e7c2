-- ===== src/Transactions/Idempotency/Replay.antt =====
-- The answer to an idempotency key that is taken.
use ledger_ops_api.Common.{
  ◌≡◌, List, String, find, ap, some, any, ◌≢◌, true, ok, if◌then◌else◌, Failure, str_eq, ◌∷◌, arith,
  err, unprocessable_entity, [], inl, none, inr, sym, ◌∙◌, Option,
}
use ledger_ops_api.Database.Rows.{collides, new_row, TransactionData, transaction_create}
use ledger_ops_api.Database.Commit.{with_actor}
use ledger_ops_api.Transactions.Idempotency.{
  create_transaction_idempotently, by_key, recover, answer, recover_with,
}
use ledger_ops_api.Database.Tables.{Transaction, Database, system}
use ledger_ops_api.Database.Sql.{Actor, Session, Sql, Env}
use ledger_ops_api.Database.Commit.Cases.{session_of, sql_transaction_cases}
use ledger_ops_api.Database.Rows.Inserts.{transaction_create-Inserted}
use mathlib.Core.Path.{subst}
use mathlib.Core.Bool.{false≢true}

collides_of_key :
    (t : Transaction) (ts : List Transaction) {x : Transaction}
    → find (by_key t.idempotency_key) ts ≡ some x
    → any (collides t) ts ≡ true
unfolding collides
collides_of_key t [] h = cc
collides_of_key t (y ∷ ts) {x} h = ground (arith, collides_of_key t ts {x = x})

new_row-key :
    (x : TransactionData) (s : Session) (t : Transaction)
    → t ≡ new_row s x
    → t.idempotency_key ≡ x.idempotency_key
unfolding new_row
new_row-key x s t h = ap (λ (r : Transaction). r.idempotency_key) h

with_actor_fails :
    {A : Type 0} (actor : Actor) (body : Sql A) (env : Env) (d : Database)
    → ((a : A) (d' : Database) → body (session_of env (some actor)) d ≢ ok (a, d'))
    → (e : Failure) × (with_actor actor body env d ≡ (err e, d))
unfolding with_actor
with_actor_fails actor body env d never = elim (sql_transaction_cases (some actor) body env d) [
  | inl w ↦ w
  | inr (a, d', h, _, _) ↦ absurd (never a d' h)
]

recover-found :
    (key fingerprint : String) (e : Failure) (env : Env) (d : Database) {t : Transaction}
    → find (by_key key) d.transactions ≡ some t
    → recover key fingerprint e env d ≡ (
        if str_eq t.request_fingerprint fingerprint
        then (ok (record { transaction = t; replayed = true }), d)
        else (err unprocessable_entity, d))
recover-found key fingerprint e env d h =
    ap (λ (o : Option Transaction). recover_with o fingerprint e d) h

-- Nothing is created under a key that a transaction has: the answer is that transaction where its
-- fingerprint is the body's, and unprocessable_entity where it is not, whatever the insert was.
pub create_transaction_replays :
    (meanwhile : Database → Database) (actor_id fingerprint : String) (x : TransactionData)
    (env : Env) (d : Database) {t : Transaction}
    → find (by_key x.idempotency_key) d.transactions ≡ some t
    → find (by_key x.idempotency_key) (meanwhile d).transactions ≡ some t
    → create_transaction_idempotently meanwhile actor_id x.idempotency_key fingerprint
        (transaction_create x)
        env
        d
      ≡ (if str_eq t.request_fingerprint fingerprint
          then (ok (record { transaction = t; replayed = true }), meanwhile d)
          else (err unprocessable_entity, meanwhile d))
unfolding create_transaction_idempotently
create_transaction_replays meanwhile actor_id fingerprint x env d {t} taken still =
    let never =
      λ (a : Transaction) (d' : Database)
          (h : transaction_create x
              (session_of env (some (record { type = system; id = actor_id; reason = none }))) d
            ≡ ok (a, d')).
        let i = transaction_create-Inserted x _ d h in
        let n = new_row-key x _ a i.row in
        let f : find (by_key a.idempotency_key) d.transactions ≡ some t =
          subst (λ (k : String). find (by_key k) d.transactions ≡ some t) (sym n) taken in
        let c = collides_of_key a d.transactions f in let u = i.unique in false≢true (sym u ∙ c) in
    let (e, w) = with_actor_fails _ (transaction_create x) env d never in
    ap (answer meanwhile x.idempotency_key fingerprint env) w
    ∙ recover-found x.idempotency_key fingerprint e env (meanwhile d) still
