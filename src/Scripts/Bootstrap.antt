-- ===== src/Scripts/Bootstrap.antt =====
-- The script of the first administrator's key, and another run right after it.
use ledger_ops_api.Auth.Keys.{key_insert, CreateApiKeyDto, CreatedApiKey, new_key, role_matches}
use ledger_ops_api.Auth.Issuing.{keys_create-writes}
use ledger_ops_api.Common.{
  ℕ, ◌≡◌, Option, ok, none, Option-cases, find, inl, inr, sym, refl, Result, err, some, suc, ap,
}
use ledger_ops_api.Scripts.Keys.{bootstrap, active_admin, admin_dto}
use ledger_ops_api.Database.Tables.{Database}
use ledger_ops_api.Scripts.{◌>>=◌, World, call, continue}

created-eq-ok :
    (r : Result CreatedApiKey × Database) (n : ℕ) {o : Option CreatedApiKey} {n' : ℕ}
    {d' : Database}
    → continue (r.0, (n, r.1)) (λ c k x. (ok (some c), (k, x))) ≡ (ok o, (n', d'))
    → (c : CreatedApiKey) × (r ≡ (ok c, d'))
created-eq-ok (ok c, d) n h = (c, cc)
created-eq-ok (err e, d) n {o} {n'} {d'} h = cc

-- In the database that a bootstrap leaves when it returns, another run of the script returns without a new key, and changes nothing.
pub bootstrap-bootstrap :
    (w w' : World) (n m : ℕ) (d : Database) {o : Option CreatedApiKey} {n' : ℕ} {d' : Database}
    → bootstrap w n d ≡ (ok o, (n', d'))
    → bootstrap w' m d' ≡ (ok none, (m, d'))
unfolding bootstrap ◌>>=◌ call new_key
bootstrap-bootstrap w w' n m d {o} {n'} {d'} h =
    elim (Option-cases (find active_admin d.api_keys)) [
      | inl e ↦
          let (c, created) =
            created-eq-ok
              (ledger_ops_api.Auth.Keys.create w.hash_api_key admin_dto (w.drawn_key n) (w.env n) d)
              (suc n) (rw e at h) in
          let (_, written) =
            keys_create-writes w.hash_api_key admin_dto (w.drawn_key n) (w.env n) d created in
          let found = ap (λ (x : Database). find active_admin x.api_keys) written in rw found refl
      | inr (k, e) ↦
          let same : d ≡ d' =
            (let h' : ◌≡◌ {A = Result (Option CreatedApiKey) × (ℕ × Database)} (ok none, (n, d))
                  (ok o, (n', d')) =
                rw e at h in
              cc) in
          rw (sym same) (rw e refl)
    ]
