-- ===== src/Scripts/Reaching.antt =====
-- The scripts as calls of the services, and the databases that these reach.
pub mod Keys
pub mod Payments
pub mod Exceptions
pub mod Sweep
use ledger_ops_api.System.Steps.{
  Reach, Reach-trans, Step, here, next, key_created, transitioned, merchant_created, key_revoked,
  payment_created, refund_created, discrepancy_reported, exception_resolved,
}
use ledger_ops_api.Scripts.{
  World, Script, done, look, call, ◌>>=◌, attempt, fail, throw_if, or_fail, continue, handled,
}
use ledger_ops_api.Database.Tables.{Database, Transaction}
use ledger_ops_api.Common.{
  ℕ, Failure, Result, Bool, Option, if◌then◌else◌, some, true, false, none, ok, err, String,
}
use ledger_ops_api.Auth.Keys.{CreateApiKeyDto}
use ledger_ops_api.Database.Commit.{Call, autocommit}
use ledger_ops_api.Scripts.Keys.{create_key}
use ledger_ops_api.Transactions.Service.{
  TransitionStatusDto, transition, find_by_reference_or_throw, find_by_reference,
}
use ledger_ops_api.Scripts.Payments.{move_to}
use ledger_ops_api.Merchants.{find_by_code_or_throw}
use ledger_ops_api.System.Preservation.{
  CallPreserves, sql_transaction-Preserves, >>=-Preserves, select-Preserves, or_throw-Preserves,
}
use ledger_ops_api.Scripts.Refunds.{read_transaction}
use ledger_ops_api.Database.Sql.{select}

-- What other requests do between two statements of a call is a run of the service.

abbrev pub Served : World → Type 0
Served w =
    (n : ℕ)
    → ((x : Database) → Reach x ((w.platform n).meanwhile x))
      × ((x : Database) → Reach x ((w.platform n).before_insert x))

module _ (w : World) (served : Served w) where
  unfoldable pub Reaches : {A : Type 0} → Script A → Type 0
  Reaches m = (n : ℕ) (d : Database) → Reach d (m w n d).1.1

  pub done-Reaches : {A : Type 0} (a : A) → Reaches (done a)
  unfolding Reaches
  done-Reaches a n d = here

  pub fail-Reaches : (A : Type 0) (e : Failure) → Reaches (fail {A = A} e)
  unfolding Reaches
  fail-Reaches A e n d = here

  pub look-Reaches : {A : Type 0} (f : World → Database → A) → Reaches (look f)
  unfolding Reaches
  look-Reaches f n d = here

  pub call-Reaches :
      {A : Type 0} (c : World → ℕ → Call A)
      → ((n : ℕ) (d : Database) → Reach d (c w n (w.env n) d).1)
      → Reaches (call c)
  unfolding Reaches call
  call-Reaches c h n d = h n d

  continue-Reach :
      {A B : Type 0} (s : Database) (r : Result A × (ℕ × Database))
      (f : A → ℕ → Database → Result B × (ℕ × Database))
      → Reach s r.1.1
      → ((a : A) (n : ℕ) (d : Database) → Reach d (f a n d).1.1)
      → Reach s (continue r f).1.1
  continue-Reach s (ok a, (n, d)) f h k = Reach-trans h (k a n d)
  continue-Reach s (err e, (n, d)) f h k = h

  pub >>=-Reaches :
      {A B : Type 0} (m : Script A) (f : A → Script B)
      → Reaches m
      → ((a : A) → Reaches (f a))
      → Reaches (m >>= f)
  unfolding Reaches ◌>>=◌
  >>=-Reaches m f h k n d = continue-Reach d (m w n d) _ (h n d) (λ a n' d'. k a n' d')

  handled-Reach :
      {A : Type 0} (s : Database) (r : Result A × (ℕ × Database))
      (f : Failure → ℕ → Database → Result A × (ℕ × Database))
      → Reach s r.1.1
      → ((e : Failure) (n : ℕ) (d : Database) → Reach d (f e n d).1.1)
      → Reach s (handled r f).1.1
  handled-Reach s (ok a, (n, d)) f h k = h
  handled-Reach s (err e, (n, d)) f h k = Reach-trans h (k e n d)

  pub attempt-Reaches :
      {A : Type 0} (m : Script A) (f : Failure → Script A)
      → Reaches m
      → ((e : Failure) → Reaches (f e))
      → Reaches (attempt m f)
  unfolding Reaches attempt
  attempt-Reaches m f h k n d = handled-Reach d (m w n d) _ (h n d) (λ e n' d'. k e n' d')

  pub throw_if-Reaches : (b : Bool) (e : Failure) → Reaches (throw_if b e)
  throw_if-Reaches true e = fail-Reaches _ e
  throw_if-Reaches false e = done-Reaches tt

  pub or_fail-Reaches : {A : Type 0} (o : Option A) (e : Failure) → Reaches (or_fail o e)
  or_fail-Reaches none e = fail-Reaches _ e
  or_fail-Reaches (some a) e = done-Reaches a

  pub if-Reaches :
      {A : Type 0} (b : Bool) (x y : Script A)
      → Reaches x
      → Reaches y
      → Reaches (if b then x else y)
  if-Reaches true x y h k = h
  if-Reaches false x y h k = k

  pub one : {s t : Database} → Step s t → Reach s t
  one st = next here st

  -- Readings.
  pub find_transaction-Reaches : (reference : String) → Reaches (read_transaction reference)
  unfolding find_by_reference_or_throw find_by_reference autocommit CallPreserves
  find_transaction-Reaches reference = call-Reaches _ λ n d.
      sql_transaction-Preserves (Reach d) none _
        (>>=-Preserves (Reach d) (select (λ x. x.transactions)) _ (select-Preserves (Reach d) _)
          λ ts. or_throw-Preserves (Reach d) _ _)
        (w.env n) d here

  pub find_merchant-Reaches : (code : String) → Reaches (call (λ w n. find_by_code_or_throw code))
  unfolding find_by_code_or_throw autocommit CallPreserves
  find_merchant-Reaches code = call-Reaches _ λ n d.
      sql_transaction-Preserves (Reach d) none _
        (>>=-Preserves (Reach d) (select (λ x. x.merchants)) _ (select-Preserves (Reach d) _)
          λ ms. or_throw-Preserves (Reach d) _ _)
        (w.env n) d here

  pub create_key-Reaches : (dto : CreateApiKeyDto) → Reaches (create_key dto)
  create_key-Reaches dto =
      call-Reaches _ λ n d. one (key_created w.hash_api_key dto (w.drawn_key n) (w.env n))

  pub transition-Reaches : (t : Transaction) (dto : TransitionStatusDto) → Reaches (move_to t dto)
  transition-Reaches t dto =
      call-Reaches _ λ n d. one (transitioned t.reference dto t.version (w.env n))

  -- A script part by part.
  pub step :
      {A B : Type 0} (m : Script A) (f : A → Script B)
      → Reaches m
      → ((a : A) → Reaches (f a))
      → Reaches (m >>= f)
  step m f = >>=-Reaches m f

  pub result : {A : Type 0} (a : A) → Reaches (done a)
  result = done-Reaches

  pub reading : {A : Type 0} (f : World → Database → A) → Reaches (look f)
  reading = look-Reaches
