-- ===== src/Auth/Issuing.antt =====
-- What the issue of a key writes, and the guard that reads the key.
use Prim.Native.String.append
use Prim.Native.Char.{code}
use ledger_ops_api.Database.Checks.{codes}
use ledger_ops_api.Auth.Keys.{
  key_insert, CreateApiKeyDto, CreatedApiKey, new_key, role_matches, validate,
}
use ledger_ops_api.Common.{
  String, ◌≡◌, ok, ◌∷◌, none, arith, Bool-cases, inl, inr, sym, refl, Result, ◌∙◌, err, some,
  bad_request, ap, str_eq_refl, ==_refl,
}
use ledger_ops_api.Database.Tables.{ApiKey, Database}
use ledger_ops_api.Database.Sql.{Session, Env}
use ledger_ops_api.Database.Commit.Cases.{session_of, autocommit-eq-ok}
use ledger_ops_api.Database.Sql.Inversion.{bind-elim}
use ledger_ops_api.Auth.Guards.{api_key_guard, bearer_key, strip, authenticated}
use ledger_ops_api.Transactions.Booking.Accounts.{◌⧺◌}

key_insert-writes :
    (k : ApiKey) (s : Session) (d : Database) {x : ApiKey} {d' : Database}
    → key_insert k s d ≡ ok (x, d')
    → (x ≡ k) × (d' ≡ record d { api_keys = k ∷ d.api_keys })
unfolding key_insert ledger_ops_api.Database.Sql.◌>>=◌
key_insert-writes k s d {x} {d'} h = ground arith

pub keys_create-writes :
    (hash_api_key : String → String) (dto : CreateApiKeyDto) (raw_key : String) (env : Env)
    (d : Database) {c : CreatedApiKey} {d' : Database}
    → ledger_ops_api.Auth.Keys.create hash_api_key dto raw_key env d ≡ (ok c, d')
    → (c ≡ record {
      api_key = new_key (session_of env none) dto (hash_api_key raw_key);
      raw_key = raw_key;
    })
      × (d' ≡ record d {
        api_keys = new_key (session_of env none) dto (hash_api_key raw_key) ∷ d.api_keys;
      })
unfolding ledger_ops_api.Auth.Keys.create
keys_create-writes hash_api_key dto raw_key env d {c} {d'} h =
    elim (Bool-cases (role_matches hash_api_key dto)) [
      | inl y ↦
          let ran = autocommit-eq-ok _ env d (rw y at h) in
          bind-elim _ _ (session_of env none) d ran λ s d₁ h₁ r₁.
            bind-elim _ _ (session_of env none) d₁ r₁ λ k d₂ h₂ r₂.
              let own : s ≡ session_of env none = cc in
              let same : d₁ ≡ d = cc in
              let (is, written) = key_insert-writes _ _ d₁ h₂ in
              let last : d₂ ≡ d' = cc in
              let shown : record { api_key = k; raw_key = raw_key } ≡ c = cc in
              (sym shown ∙ rw (is, own) refl, sym last ∙ written ∙ rw (same, own) refl)
      | inr n ↦
          let thrown : ◌≡◌ {A = Result CreatedApiKey × Database} (err bad_request, d) (ok c, d') =
            rw n at h in
          cc
    ]

strip-append : (p t : String) → strip (codes p) (p ⧺ t) ≡ some t
unfolding strip
strip-append String.[] t = rw (append.nil t) refl
strip-append (String.◌∷◌ c p) t = rw (append.cons c p t) (rw (==_refl (code c)) (strip-append p t))

bearer_key-Bearer : (raw_key : String) → bearer_key (some ("Bearer " ⧺ raw_key)) ≡ some raw_key
unfolding bearer_key
bearer_key-Bearer raw_key = strip-append "Bearer " raw_key

-- Right after a key is created, its raw value in the header Authorization is admitted, with the role and the merchant that the key was created for.
pub create-api_key_guard :
    (hash_api_key : String → String) (dto : CreateApiKeyDto) (raw_key : String) (env : Env)
    (d : Database) {c : CreatedApiKey} {d' : Database}
    → ledger_ops_api.Auth.Keys.create hash_api_key dto raw_key env d ≡ (ok c, d')
    → (c.raw_key ≡ raw_key)
      × (api_key_guard hash_api_key (some ("Bearer " ⧺ c.raw_key)) d'
          ≡ ok (record {
            api_key_id = c.api_key.id;
            role = dto.role;
            merchant_id = dto.merchant_id;
          }))
unfolding api_key_guard validate authenticated new_key
create-api_key_guard hash_api_key dto raw_key env d {c} {d'} h =
    let (shown, written) = keys_create-writes hash_api_key dto raw_key env d h in
    let raw : c.raw_key ≡ raw_key = ap (λ (x : CreatedApiKey). x.raw_key) shown in
    let id : c.api_key.id ≡ (new_key (session_of env none) dto (hash_api_key raw_key)).id =
      ap (λ (x : CreatedApiKey). x.api_key.id) shown in
    (raw, rw (raw, written, bearer_key-Bearer raw_key, str_eq_refl (hash_api_key raw_key), id) refl)
