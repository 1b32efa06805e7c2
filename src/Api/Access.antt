-- ===== src/Api/Access.antt =====
-- What a request that passes both guards has shown.
use ledger_ops_api.Common.{
  String, List, Bool, find, Option, ◌≡◌, some, ok, str_eq, any, true, ◌==◌, Option-cases, ◌∷◌,
  arith, inl, [], ◌&&◌, find_sound, Result, none, Failure, false, err, inr, refl, ◌⊎◌, Bool-cases,
}
use ledger_ops_api.Database.Tables.{ApiKey, ApiRole, Database, role_eq}
use mathlib.Core.Path.{subst}
use ledger_ops_api.Auth.Guards.{
  api_key_guard, authenticated, AuthContext, bearer_key, context_of, roles_guard, guard_key,
}
use ledger_ops_api.Auth.Keys.{validate}
use ledger_ops_api.Api.Controllers.{route, authenticated_route, authorized}
use ledger_ops_api.Database.Commit.{Call}
use ledger_ops_api.Database.Sql.{Env}

-- A role that a list has.
pub data Among (role : ApiRole) : List ApiRole → Type 0 where
  first : {r : ApiRole} {rs : List ApiRole} → role ≡ r → Among role (r ∷ rs)
  later : {r : ApiRole} {rs : List ApiRole} → Among role rs → Among role (r ∷ rs)

-- A route without required roles is open to every role.
abbrev pub Permitted : List ApiRole → ApiRole → Type 0
Permitted required role = (required ≡ []) ⊎ Among role required

role_eq→≡ : (a b : ApiRole) → role_eq a b ≡ true → a ≡ b
role_eq→≡ a b h = ground arith

any-Among :
    (role : ApiRole) (rs : List ApiRole)
    → any (λ (r : ApiRole). role_eq role r) rs ≡ true
    → Among role rs
any-Among role [] h = cc
any-Among role (r ∷ rs) h = elim (Bool-cases (role_eq role r)) [
  | inl y ↦ first (role_eq→≡ role r y)
  | inr n ↦ later (any-Among role rs (ground arith))
]

roles_guard-Permitted :
    (required : List ApiRole) (auth : AuthContext)
    → roles_guard required auth ≡ ok tt
    → Permitted required auth.role
unfolding roles_guard
roles_guard-Permitted [] auth h = inl refl
roles_guard-Permitted (r ∷ rs) auth h = inr (any-Among auth.role (r ∷ rs) (ground arith))

pub record Admitted (hash_api_key : String → String) (required : List ApiRole)
    (header : Option String) (auth : AuthContext) (d : Database) : Type 0 where
  pub raw_key : String
  pub key : ApiKey
  pub presented : bearer_key header ≡ some raw_key
  pub hashed : str_eq key.hashed_key (hash_api_key raw_key) ≡ true
  pub active : key.is_active ≡ true
  pub context : auth ≡ context_of key
  pub stored : any (λ (x : ApiKey). x.id == key.id) d.api_keys ≡ true
  pub permitted : Permitted required key.role

and_left : (a b : Bool) → a && b ≡ true → a ≡ true
and_left true b h = refl
and_left false b h = h

and_right : (a b : Bool) → a && b ≡ true → b ≡ true
and_right true b h = h
and_right false b h = cc

any-find :
    (p : ApiKey → Bool) (xs : List ApiKey) {k : ApiKey}
    → find p xs ≡ some k
    → any (λ (x : ApiKey). x.id == k.id) xs ≡ true
any-find p [] {k} h = cc
any-find p (x ∷ xs) {k} h = ground (arith, any-find p xs {k = k})

api_key_guard-eq-ok :
    (hash_api_key : String → String) (header : Option String) (d : Database) {auth : AuthContext}
    → api_key_guard hash_api_key header d ≡ ok auth
    → (raw : String) × (k : ApiKey) × (bearer_key header ≡ some raw)
      × (validate hash_api_key raw d ≡ some k)
      × (auth ≡ context_of k)
unfolding api_key_guard authenticated
api_key_guard-eq-ok hash_api_key header d {auth} h = elim (Option-cases (bearer_key header)) [
  | inl n ↦ let w : guard_key hash_api_key none d ≡ ok auth = rw n at h in cc
  | inr (raw, n) ↦
      let w : guard_key hash_api_key (some raw) d ≡ ok auth = rw n at h in
      elim (Option-cases (validate hash_api_key raw d)) [
        | inl m ↦ let v : authenticated hash_api_key none ≡ ok auth = rw m at w in cc
        | inr (k, m) ↦
            let v : authenticated hash_api_key (some k) ≡ ok auth = rw m at w in (raw, k, n, m, cc)
      ]
]

api_key_guard-Admitted :
    (hash_api_key : String → String) (required : List ApiRole) (header : Option String)
    (d : Database) {auth : AuthContext}
    → api_key_guard hash_api_key header d ≡ ok auth
    → roles_guard required auth ≡ ok tt
    → Admitted hash_api_key required header auth d
unfolding validate
api_key_guard-Admitted hash_api_key required header d {auth} h r =
    let (raw, k, n, m, c) = api_key_guard-eq-ok hash_api_key header d h in
    let t =
      find_sound (λ (x : ApiKey). str_eq x.hashed_key (hash_api_key raw) && x.is_active) d.api_keys
        m in
    record {
      raw_key = raw;
      key = k;
      presented = n;
      hashed = and_left _ _ t;
      active = and_right _ _ t;
      context = c;
      stored = any-find _ d.api_keys m;
      permitted =
          subst (λ (x : AuthContext). Permitted required x.role) c
            (roles_guard-Permitted required auth r);
    }

Result-elim : {A : Type 0} (r : Result A) → ((e : Failure) × (r ≡ err e)) ⊎ ((a : A) × (r ≡ ok a))
Result-elim (ok a) = inr (a, refl)
Result-elim (err e) = inl (e, refl)

-- A route answers with a result only to a caller who presented an active key of the table, by its hash, whose role is one of
-- those that the route requires, where it requires any; and then what it does is what the handler does for that key's context.
pub route_admits :
    {A : Type 0} (hash_api_key : String → String) (required : List ApiRole)
    (handler : AuthContext → Call A) (header : Option String) (env : Env) (d : Database) {a : A}
    {d' : Database}
    → route hash_api_key required handler header env d ≡ (ok a, d')
    → (auth : AuthContext) × Admitted hash_api_key required header auth d
      × (handler auth env d ≡ (ok a, d'))
unfolding route
route_admits hash_api_key required handler header env d {a} {d'} h =
    elim (Result-elim (api_key_guard hash_api_key header d)) [
      | inl (e, n) ↦
          let w : authenticated_route hash_api_key required handler (err e) env d ≡ (ok a, d') =
            rw n at h in
          cc
      | inr (auth, n) ↦
          let w : authenticated_route hash_api_key required handler (ok auth) env d ≡ (ok a, d') =
            rw n at h in
          elim (Result-elim (roles_guard required auth)) [
            | inl (e, m) ↦
                let v : authorized hash_api_key (err e) (handler auth) env d ≡ (ok a, d') =
                  rw m at w in
                cc
            | inr (tt, m) ↦
                let v : authorized hash_api_key (ok tt) (handler auth) env d ≡ (ok a, d') =
                  rw m at w in
                (auth, api_key_guard-Admitted hash_api_key required header d n m, v)
          ]
    ]
