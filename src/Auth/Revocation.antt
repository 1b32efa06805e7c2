-- ===== src/Auth/Revocation.antt =====
-- What the revocation of a key leaves.
use ledger_ops_api.Auth.Keys.{
  key_update, replace_key, fn_api_keys_before_update, same_key, revoke, validate, revoked,
  key_by_id, revoke_found,
}
use ledger_ops_api.Database.Sql.{Env, ◌>>=◌, Session}
use ledger_ops_api.Database.Tables.{ApiKey, Database}
use ledger_ops_api.Common.{
  Bool, List, ◌≡◌, ok, false, ◌==◌, find, none, true, some, ◌∷◌, ◌&&◌, arith, inl, inr, [], String,
  ℕ, Option-cases, find_sound, str_eq, refl,
}
use ledger_ops_api.Database.Commit.Cases.{autocommit-eq-ok}

key_update-writes :
    (old new : ApiKey) (s : Session) (d : Database) {u : Unit {0}} {d' : Database}
    → key_update old new s d ≡ ok (u, d')
    → (d'.api_keys ≡ replace_key new d.api_keys)
unfolding key_update fn_api_keys_before_update same_key ◌>>=◌
key_update-writes old new s d {u} {d'} h = ground arith

and_false : (b : Bool) → b && false ≡ false
and_false true = refl
and_false false = refl

-- No key that passes the test has the id of an inactive replacement.
find-replace_key :
    (p : ApiKey → Bool) (k : ApiKey) (xs : List ApiKey) {x : ApiKey}
    → p k ≡ false
    → find p (replace_key k xs) ≡ some x
    → x.id == k.id ≡ false
unfolding replace_key
find-replace_key p k [] {x} i h = cc
find-replace_key p k (y ∷ xs) {x} i h = ground (arith, find-replace_key p k xs {x = x})

-- In the database that a revocation leaves, no raw key is validated as the revoked key.
pub revoke-validate :
    (hash_api_key : String → String) (i : ℕ) (env : Env) (d : Database) {u : Unit {0}}
    {d' : Database}
    → revoke i env d ≡ (ok u, d')
    → (raw_key : String) {k : ApiKey} → validate hash_api_key raw_key d' ≡ some k
    → k.id == i ≡ false
unfolding revoke validate revoked
revoke-validate hash_api_key i env d {u} {d'} h raw_key {k} v =
    elim (Option-cases (find (key_by_id i) d.api_keys)) [
      | inl n ↦ let w : revoke_found none env d ≡ (ok u, d') = rw n at h in cc
      | inr (old, n) ↦
          let w : revoke_found (some old) env d ≡ (ok u, d') = rw n at h in
          let b = autocommit-eq-ok (key_update old (revoked env.clock_now old)) env d w in
          let keys = key_update-writes old (revoked env.clock_now old) _ d b in
          let same = find_sound (key_by_id i) d.api_keys n in
          let inactive : (str_eq old.hashed_key (hash_api_key raw_key) && false) ≡ false =
            and_false _ in
          let v' : find _ (replace_key (revoked env.clock_now old) d.api_keys) ≡ some k =
            rw keys at v in
          let r = find-replace_key _ (revoked env.clock_now old) d.api_keys inactive v' in
          let e : old.id == i ≡ true = same in let g : k.id == old.id ≡ false = r in ground arith
    ]
