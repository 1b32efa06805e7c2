-- ===== src/Scripts/Reaching/Keys.antt =====
-- The merchants and the keys of the scripts, as calls of the services.
use ledger_ops_api.System.Steps.{key_created, merchant_created, key_revoked}
use ledger_ops_api.Scripts.{World}
use ledger_ops_api.Scripts.Reaching.{
  Served, Reaches, attempt-Reaches, call-Reaches, one, create_key-Reaches, find_merchant-Reaches,
  or_fail-Reaches, fail-Reaches, throw_if-Reaches, result, step, reading,
}
use ledger_ops_api.Database.Tables.{ApiKey, ApiRole}
use ledger_ops_api.Common.{Option, Failure, List, String, ◌∷◌, ℕ, [], some, none, unique_violation}
use ledger_ops_api.Scripts.Keys.{
  bootstrap, create_merchants, revoke_all, resolve_api_key, seed_merchants_and_keys,
  get_or_create_merchant, resolve_fixed_api_key, reissue_api_key, read_fixed_key_env,
  bootstrap_with, recover_merchant, fixed_key, key_for, demo_merchants, admin_dto,
}
use ledger_ops_api.Merchants.{CreateMerchantDto}

module _ (w : World) (served : Served w) where
  bootstrap_with-Reaches : (o : Option ApiKey) → Reaches w served (bootstrap_with o)
  bootstrap_with-Reaches (some k) = result w served none
  bootstrap_with-Reaches none =
      step w served _ _ (create_key-Reaches w served admin_dto) λ c. result w served (some c)

  pub bootstrap-Reaches : Reaches w served bootstrap
  unfolding bootstrap
  bootstrap-Reaches = step w served _ _ (reading w served _) bootstrap_with-Reaches

  recover_merchant-Reaches :
      (dto : CreateMerchantDto) (e : Failure) → Reaches w served (recover_merchant dto e)
  recover_merchant-Reaches dto unique_violation = find_merchant-Reaches w served dto.code
  recover_merchant-Reaches dto e = fail-Reaches w served _ e

  create_merchants-Reaches :
      (dtos : List CreateMerchantDto) → Reaches w served (create_merchants dtos)
  unfolding create_merchants get_or_create_merchant
  create_merchants-Reaches [] = result w served []
  create_merchants-Reaches (dto ∷ dtos) =
      step w served _ _
        (attempt-Reaches w served _ _
          (call-Reaches w served _ λ n d. one w served (merchant_created dto (w.env n)))
          (recover_merchant-Reaches dto))
        λ m. step w served _ _ (create_merchants-Reaches dtos) λ ms. result w served (m ∷ ms)

  revoke_all-Reaches : (ks : List ApiKey) → Reaches w served (revoke_all ks)
  unfolding revoke_all
  revoke_all-Reaches [] = result w served tt
  revoke_all-Reaches (k ∷ ks) =
      step w served _ _ (call-Reaches w served _ λ n d. one w served (key_revoked k.id (w.env n)))
        λ _. revoke_all-Reaches ks

  fixed_key-Reaches :
      (o : Option ApiKey) (label : String) (role : ApiRole) (raw_key : String)
      (merchant_id : Option ℕ)
      → Reaches w served (fixed_key o label role raw_key merchant_id)
  fixed_key-Reaches (some k) label role raw_key merchant_id =
      step w served _ _ (throw_if-Reaches w served _ _)
        λ _. step w served _ _ (throw_if-Reaches w served _ _) λ _. result w served _
  fixed_key-Reaches none label role raw_key merchant_id =
      step w served _ _ (reading w served _) λ ks. step w served _ _ (revoke_all-Reaches ks) λ _.
        call-Reaches w served _ λ n d. one w served (key_created w.hash_api_key _ raw_key (w.env n))

  key_for-Reaches :
      (o : Option String) (label : String) (role : ApiRole) (merchant_id : Option ℕ)
      → Reaches w served (key_for o label role merchant_id)
  unfolding resolve_fixed_api_key reissue_api_key
  key_for-Reaches (some raw_key) label role merchant_id =
      step w served _ _ (reading w served _) λ o. fixed_key-Reaches o label role raw_key merchant_id
  key_for-Reaches none label role merchant_id =
      step w served _ _ (reading w served _)
        λ ks. step w served _ _ (revoke_all-Reaches ks) λ _. create_key-Reaches w served _

  resolve_api_key-Reaches :
      (label : String) (role : ApiRole) (value : Option String) (merchant_id : Option ℕ)
      → Reaches w served (resolve_api_key label role value merchant_id)
  unfolding resolve_api_key
  resolve_api_key-Reaches label role value merchant_id =
      key_for-Reaches (read_fixed_key_env value) label role merchant_id

  pub seed_merchants_and_keys-Reaches :
      (m a : Option String) → Reaches w served (seed_merchants_and_keys m a)
  unfolding seed_merchants_and_keys
  seed_merchants_and_keys-Reaches m a =
      step w served _ _ (create_merchants-Reaches demo_merchants) λ ms.
        step w served _ _ (or_fail-Reaches w served _ _) λ target.
          step w served _ _ (throw_if-Reaches w served _ _) λ _.
            step w served _ _ (resolve_api_key-Reaches _ _ m _)
              λ mk. step w served _ _ (resolve_api_key-Reaches _ _ a none) λ ak. result w served _
