-- ===== src/Database/Sql/Inversion.antt =====
-- What a successful chain of statements says of its parts.
use ledger_ops_api.Common.{
  if◌then◌else◌, Bool, true, false, Option, none, some, Result, ok, err, Failure, ◌≡◌, refl,
}
use ledger_ops_api.Database.Tables.{Database}
use ledger_ops_api.Database.Sql.{Sql, Session, and_then, ◌>>=◌, guard, or_throw, when}

and_then-eq-ok :
    {A B : Type 0} (r : Result (A × Database)) (f : A → Database → Result (B × Database)) {b : B}
    {d'' : Database}
    → and_then r f ≡ ok (b, d'')
    → (a : A) × (d' : Database) × (r ≡ ok (a, d')) × (f a d' ≡ ok (b, d''))
and_then-eq-ok (ok (a, d')) f h = (a, d', refl, h)
and_then-eq-ok (err e) f h = cc

-- A chain that succeeds has a first part that succeeds, and a rest that does from there.
pub >>=-eq-ok :
    {A B : Type 0} (m : Sql A) (f : A → Sql B) (s : Session) (d : Database) {b : B} {d'' : Database}
    → (m >>= f) s d ≡ ok (b, d'')
    → (a : A) × (d' : Database) × (m s d ≡ ok (a, d')) × (f a s d' ≡ ok (b, d''))
unfolding ◌>>=◌
>>=-eq-ok m f s d h = and_then-eq-ok (m s d) (λ a d₁. f a s d₁) h

pub guard-eq-ok :
    (b : Bool) (e : Failure) (s : Session) (d : Database) {u : Unit {0}} {d' : Database}
    → guard b e s d ≡ ok (u, d')
    → (b ≡ true) × (d' ≡ d)
guard-eq-ok true e s d h = (refl, cc)
guard-eq-ok false e s d h = cc

pub or_throw-eq-ok :
    {A : Type 0} (o : Option A) (e : Failure) (s : Session) (d : Database) {a : A} {d' : Database}
    → or_throw o e s d ≡ ok (a, d')
    → (o ≡ some a) × (d' ≡ d)
or_throw-eq-ok none e s d h = cc
or_throw-eq-ok (some x) e s d h = (cc, cc)

-- The same as an elimination, which keeps the parts abstract.
pub bind-elim :
    {A B P : Type 0} (m : Sql A) (f : A → Sql B) (s : Session) (d : Database) {b : B}
    {d'' : Database}
    → (m >>= f) s d ≡ ok (b, d'')
    → ((a : A) (d' : Database) → m s d ≡ ok (a, d') → f a s d' ≡ ok (b, d'') → P)
    → P
bind-elim m f s d h k = let (a, d₁, e, r) = >>=-eq-ok m f s d h in k a d₁ e r

pub when-elim :
    {P : Type 0} (b : Bool) (m : Sql (Unit {0})) (s : Session) (d : Database) {u : Unit {0}}
    {d' : Database}
    → when b m s d ≡ ok (u, d')
    → (b ≡ true → m s d ≡ ok (u, d') → P)
    → (b ≡ false → d' ≡ d → P)
    → P
when-elim true m s d h t f = t refl h
when-elim false m s d h t f = f refl (cc)

pub if-elim :
    {A P : Type 0} (b : Bool) (m n : Sql A) (s : Session) (d : Database) {a : A} {d' : Database}
    → (if b then m else n) s d ≡ ok (a, d')
    → (b ≡ true → m s d ≡ ok (a, d') → P)
    → (b ≡ false → n s d ≡ ok (a, d') → P)
    → P
if-elim true m n s d h t f = t refl h
if-elim false m n s d h t f = f refl h
