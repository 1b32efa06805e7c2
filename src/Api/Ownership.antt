-- ===== src/Api/Ownership.antt =====
-- What a merchant can read of one transaction.
use ledger_ops_api.Common.{
  String, ◌≡◌, ok, ℕ, some, refl, arith, none, ap, sym, ◌∙◌, not, false, Bool, true,
}
use ledger_ops_api.Api.Controllers.{assert_ownership, owned, get_one, get_audit}
use ledger_ops_api.Database.Tables.{Database, Transaction, merchant, role_eq}
use ledger_ops_api.Auth.Guards.{AuthContext}
use ledger_ops_api.Database.Sql.{Env}
use ledger_ops_api.Transactions.Service.{find_by_reference_or_throw}
use ledger_ops_api.Transactions.Audit.{build, TransactionAudit}
use ledger_ops_api.Transactions.Presenter.{TransactionResponse, to_transaction_response}
use ledger_ops_api.Database.Commit.Cases.{then_call-eq-ok}

assert_ownership-eq-ok :
    (auth : AuthContext) (t : Transaction) (env : Env) (d : Database) {u : Transaction}
    {d' : Database} {m : ℕ}
    → auth.role ≡ merchant
    → auth.merchant_id ≡ some m
    → assert_ownership auth t env d ≡ (ok u, d')
    → (u ≡ t) × (u.merchant_id ≡ m)
unfolding assert_ownership
assert_ownership-eq-ok auth t env d {u} {d'} {m} r k h = ground arith

pub owned-merchant :
    (auth : AuthContext) (reference : String) (env : Env) (d : Database) {t : Transaction}
    {d' : Database} {m : ℕ}
    → auth.role ≡ merchant
    → auth.merchant_id ≡ some m
    → owned auth reference env d ≡ (ok t, d')
    → t.merchant_id ≡ m
unfolding owned
owned-merchant auth reference env d {t} {d'} {m} r k h =
    let (a, d₁, _, w) =
      then_call-eq-ok (find_by_reference_or_throw reference env d)
        (λ x. assert_ownership auth x env) h in
    (assert_ownership-eq-ok auth a env d₁ r k w).1

-- A key of the role MERCHANT is answered by reference only with transactions of its own merchant.
pub get_one-merchant :
    (auth : AuthContext) (reference : String) (env : Env) (d : Database)
    {answer : TransactionResponse} {d' : Database} {m : ℕ}
    → auth.role ≡ merchant
    → auth.merchant_id ≡ some m
    → get_one reference auth env d ≡ (ok answer, d')
    → answer.merchant_id ≡ m
unfolding get_one
get_one-merchant auth reference env d {answer} {d'} {m} r k h =
    let (t, d₁, o, w) =
      then_call-eq-ok (owned auth reference env d) (λ x d₂. (ok (to_transaction_response x), d₂))
        h in
    let own = owned-merchant auth reference env d r k o in
    let e : to_transaction_response t ≡ answer = cc in
    ap (λ (x : TransactionResponse). x.merchant_id) (sym e) ∙ own

build-hidden : (t : Transaction) (d : Database) → (build t false d).entries ≡ none
unfolding build
build-hidden t d = refl

build-transaction :
    (t : Transaction) (b : Bool) (d : Database)
    → (build t b d).transaction ≡ to_transaction_response t
unfolding build
build-transaction t b d = refl

audit_hidden :
    (b : Bool) (t : Transaction) (d : Database) {answer : TransactionAudit}
    → b ≡ true
    → build t (not b) d ≡ answer
    → answer.entries ≡ none
audit_hidden true t d h e = ap (λ (x : TransactionAudit). x.entries) (sym e) ∙ build-hidden t d
audit_hidden false t d h e = cc

-- The audit that a key of the role MERCHANT gets is that of a transaction of its own merchant, without the entries of the
-- journal.
pub get_audit-merchant :
    (auth : AuthContext) (reference : String) (env : Env) (d : Database) {answer : TransactionAudit}
    {d' : Database} {m : ℕ}
    → auth.role ≡ merchant
    → auth.merchant_id ≡ some m
    → get_audit reference auth env d ≡ (ok answer, d')
    → (answer.transaction.merchant_id ≡ m) × (answer.entries ≡ none)
unfolding get_audit
get_audit-merchant auth reference env d {answer} {d'} {m} r k h =
    let (t, d₁, o, w) =
      then_call-eq-ok (owned auth reference env d)
        (λ x d₂. (ok (build x (not (role_eq auth.role merchant)) d₂), d₂)) h in
    let own = owned-merchant auth reference env d r k o in
    let e : build t (not (role_eq auth.role merchant)) d₁ ≡ answer = cc in
    let merchant_key : role_eq auth.role merchant ≡ true = ground arith in
    (
      ap (λ (x : TransactionAudit). x.transaction.merchant_id) (sym e)
          ∙ ap (λ (x : TransactionResponse). x.merchant_id)
              (build-transaction t (not (role_eq auth.role merchant)) d₁)
          ∙ own,
      audit_hidden _ t d₁ merchant_key e,
    )
