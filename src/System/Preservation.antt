-- ===== src/System/Preservation.antt =====
-- A property of the database that statements and calls preserve, whatever they return.
use ledger_ops_api.Database.Tables.{Database}
use ledger_ops_api.Common.{
  Result, Bool, Option, ◌≡◌, Failure, if◌then◌else◌, ok, sym, err, true, some, false, refl, none,
}
use ledger_ops_api.Database.Sql.{
  Sql, ◌>>=◌, pure, Session, Env, and_then, when, Actor, guard, or_throw, session, write, select,
}
use ledger_ops_api.Database.Commit.{Call, finish, then_call, ◌>>>◌, sql_transaction}
use ledger_ops_api.Database.Ledger.{commit_checks}
use mathlib.Core.Path.{subst}
use ledger_ops_api.Database.Ledger.Statements.{commit_checks-keeps}

-- A statement that fails leaves nothing behind.

abbrev pub Holds : {A : Type 0} → (Database → Type 0) → Result (A × Database) → Type 0
Holds P (ok (a, d)) = P d
Holds P (err e) = Unit

module _ (P : Database → Type 0) where
  unfoldable pub Preserves : {A : Type 0} → Sql A → Type 0
  Preserves m = (s : Session) (d : Database) → P d → Holds P (m s d)

  unfoldable pub CallPreserves : {A : Type 0} → Call A → Type 0
  CallPreserves c = (env : Env) (d : Database) → P d → P (c env d).1

  -- From what a statement that succeeds writes.
  Holds-of_ok :
      {A : Type 0} (r : Result (A × Database))
      → ((a : A) (d : Database) → r ≡ ok (a, d) → P d)
      → Holds P r
  Holds-of_ok (ok (a, d)) h = h a d refl
  Holds-of_ok (err e) h = tt

  pub ok-Preserves :
      {A : Type 0} (m : Sql A)
      → ((s : Session) (d : Database) (a : A) (d' : Database) → m s d ≡ ok (a, d') → P d → P d')
      → Preserves m
  unfolding Preserves
  ok-Preserves m h s d p = Holds-of_ok (m s d) (λ a d' e. h s d a d' e p)

  and_then-Holds :
      {A B : Type 0} (r : Result (A × Database)) (f : A → Database → Result (B × Database))
      → Holds P r
      → ((a : A) (d : Database) → P d → Holds P (f a d))
      → Holds P (and_then r f)
  and_then-Holds (ok (a, d)) f h k = k a d h
  and_then-Holds (err e) f h k = tt

  pub >>=-Preserves :
      {A B : Type 0} (m : Sql A) (f : A → Sql B)
      → Preserves m
      → ((a : A) → Preserves (f a))
      → Preserves (m >>= f)
  unfolding ◌>>=◌ Preserves
  >>=-Preserves m f h k s d p = and_then-Holds (m s d) _ (h s d p) (λ a d'. k a s d')

  pub pure-Preserves : {A : Type 0} (a : A) → Preserves (pure a)
  unfolding Preserves
  pure-Preserves a s d p = p

  pub select-Preserves : {A : Type 0} (f : Database → A) → Preserves (select f)
  unfolding Preserves
  select-Preserves f s d p = p

  pub session-Preserves : Preserves session
  unfolding Preserves
  session-Preserves s d p = p

  pub write-Preserves :
      (f : Database → Database) → ((d : Database) → P d → P (f d)) → Preserves (write f)
  unfolding Preserves
  write-Preserves f h s d p = h d p

  pub guard-Preserves : (b : Bool) (e : Failure) → Preserves (guard b e)
  unfolding Preserves
  guard-Preserves true e s d p = p
  guard-Preserves false e s d p = tt

  pub or_throw-Preserves : {A : Type 0} (o : Option A) (e : Failure) → Preserves (or_throw o e)
  unfolding Preserves
  or_throw-Preserves none e s d p = tt
  or_throw-Preserves (some a) e s d p = p

  pub if-Preserves :
      {A : Type 0} (b : Bool) (m n : Sql A)
      → Preserves m
      → Preserves n
      → Preserves (if b then m else n)
  unfolding Preserves
  if-Preserves true m n h k = h
  if-Preserves false m n h k = k

  pub when-Preserves : (b : Bool) (m : Sql (Unit {0})) → Preserves m → Preserves (when b m)
  unfolding Preserves
  when-Preserves true m h s d p = h s d p
  when-Preserves false m h s d p = p

  pub commit_checks-Preserves : Preserves commit_checks
  commit_checks-Preserves =
      ok-Preserves commit_checks λ s d a d' e p. subst P (sym (commit_checks-keeps s d e)) p

  finish-Holds :
      {A : Type 0} (d : Database) (r : Result (A × Database)) → P d → Holds P r → P (finish d r).1
  finish-Holds d (ok (a, d')) p h = h
  finish-Holds d (err e) p h = p

  -- A SQL transaction whose body preserves the property, committed or rolled back.
  pub sql_transaction-Preserves :
      {A : Type 0} (actor : Option Actor) (body : Sql A)
      → Preserves body
      → CallPreserves (sql_transaction actor body)
  unfolding Preserves CallPreserves
  sql_transaction-Preserves actor body h env d p = finish-Holds d _ p (
      >>=-Preserves body _ h
        (λ a. >>=-Preserves commit_checks _ commit_checks-Preserves (λ _. pure-Preserves a)) _ d p)

  then_call-P :
      {A B : Type 0} (r : Result A × Database) (f : A → Database → Result B × Database)
      → P r.1
      → ((a : A) (d : Database) → P d → P (f a d).1)
      → P (then_call r f).1
  then_call-P (ok a, d) f h k = k a d h
  then_call-P (err e, d) f h k = h

  pub >>>-CallPreserves :
      {A B : Type 0} (m : Call A) (f : A → Call B)
      → CallPreserves m
      → ((a : A) → CallPreserves (f a))
      → CallPreserves (m >>> f)
  unfolding CallPreserves
  >>>-CallPreserves m f h k env d p = then_call-P (m env d) _ (h env d p) (λ a d'. k a env d')
