-- ===== src/Routes/StorageConfigs/Added.antt =====
-- No handler but the one that stores a new configuration adds any.
use pichost.Common.{
  ℕ, ◌+◌, ◌≤◌, String, Option, none, some, Bool, true, false, ◌==◌, arith, if◌then◌else◌, get_or,
  map_err, ◌=ₛ◌,
}
use pichost.Prog.{ret, send, run}
use pichost.Prog.Costs.{Costs, Costs-then_free, Costs-after_free, run-Costs}
use pichost.TaskQueue.{Uuid}
use pichost.Crypto.{Ciphers, mask_token, decode_key}
use pichost.Upload.{Fault, panicked, api, error_json, bad_request}
use pichost.Routes.{conflict}
use pichost.Storage.{◌⧺◌}
use pichost.Routes.StorageConfigs.{
  ConfigRow, Tables, Outside, exec, CreateConfigRequest, UpdateConfigRequest, name_exists,
  select_config, insert_config, set_config, count_images, make_default, get_repo, as_str,
}
use pichost.Routes.StorageConfigs.Handlers.{
  Handler, Settings, guard, or_fault, or_internal, build_response, check_name_unique,
  unset_other_defaults, fetch_user_config, verify_repo_access, encrypt_token_from_config,
  store_config, create_within_limit, update_config, delete_config, set_default, unset_if,
  rename_check, new_token, merge_config_detail, build_config_json, api_base_for_provider,
  unreachable, internal_error, key_missing,
}
use pichost.Routes.StorageConfigs.Owned.{owned, added, exec-adds}

module _ (outside : Outside) (v : Uuid) where
  guard-Free : (b : Bool) (f : Fault) → Costs (added v) 0 (guard b f)
  unfolding Costs
  guard-Free true f = tt
  guard-Free false f = tt

  or_fault-Free : {A : Type 0} (f : Fault) (o : Option A) → Costs (added v) 0 (or_fault f o)
  unfolding Costs
  or_fault-Free f none = tt
  or_fault-Free f (some a) = tt

  build_response-Free : (c : ConfigRow) → Costs (added v) 0 (build_response c)
  unfolding build_response Costs
  build_response-Free c =
      Costs-after_free (added v) 0
        (or_fault panicked (mask_token (get_or (as_str "token_encrypted" c.config) ""))) _
        (or_fault-Free panicked _) (λ _. tt)

  verify_repo_access-Free :
      (show_num : ℕ → String) (provider token repo : String)
      → Costs (added v) 0 (verify_repo_access show_num provider token repo)
  unfolding verify_repo_access Costs
  verify_repo_access-Free show_num provider token repo =
      Costs-after_free (added v) 0
        (or_fault (api (error_json bad_request "storage_config.unsupported_type"))
          (api_base_for_provider provider))
        _ (or_fault-Free _ _)
        λ base.
          Costs-after_free (added v) 0 (send (get_repo (base ⧺ "/repos/" ⧺ repo) token) unreachable)
            _ (omega arith, λ _. tt) (λ _. tt)

  fetch_user_config-Free : (i u : Uuid) → Costs (added v) 0 (fetch_user_config i u)
  unfolding fetch_user_config Costs
  fetch_user_config-Free i u =
      Costs-after_free (added v) 0 (send (select_config i u) or_internal) _ (omega arith, λ _. tt)
        (λ o. or_fault-Free _ o)

  check_name_unique-Free : (u : Uuid) (n : String) → Costs (added v) 0 (check_name_unique u n)
  unfolding check_name_unique Costs
  check_name_unique-Free u n =
      Costs-after_free (added v) 0 (send (name_exists u n) or_internal) _ (omega arith, λ _. tt)
        (λ o. guard-Free _ _)

  unset_other_defaults-Free : (u : Uuid) → Costs (added v) 0 (unset_other_defaults u)
  unfolding unset_other_defaults Costs
  unset_other_defaults-Free u = (omega arith, λ _. tt)

  unset_if-Free : (b : Bool) (u : Uuid) → Costs (added v) 0 (unset_if b u)
  unfolding Costs
  unset_if-Free true u = unset_other_defaults-Free u
  unset_if-Free false u = tt

  rename_check-Free : (b : Bool) (u : Uuid) (n : String) → Costs (added v) 0 (rename_check b u n)
  unfolding Costs
  rename_check-Free true u n = tt
  rename_check-Free false u n = check_name_unique-Free u n

  module _ (ciphers : Ciphers) (show_num : ℕ → String) (settings : Settings) where
    encrypt-Free :
        (token key : String)
        → Costs (added v) 0 (encrypt_token_from_config ciphers show_num settings token key)
    unfolding encrypt_token_from_config Costs
    encrypt-Free token key =
        Costs-after_free (added v) 0 (ret (map_err (λ _. internal_error) (decode_key ciphers key)))
          _ tt (λ k. (omega arith, λ _. tt))

    new_token-Free : (o : Option String) → Costs (added v) 0 (new_token ciphers show_num settings o)
    unfolding Costs
    new_token-Free none = tt
    new_token-Free (some token) =
        Costs-after_free (added v) 0
          (or_fault (key_missing ciphers show_num settings) settings.token_encryption_key) _
          (or_fault-Free _ _)
          λ key.
            Costs-after_free (added v) 0
              (encrypt_token_from_config ciphers show_num settings token key) _
              (encrypt-Free token key) (λ _. tt)

    pub update_config-Free :
        (user id : Uuid) (req : UpdateConfigRequest)
        → Costs (added v) 0 (update_config ciphers show_num settings user id req)
    unfolding update_config Costs
    update_config-Free user id req =
        Costs-after_free (added v) 0 (fetch_user_config id user) _ (fetch_user_config-Free id user)
          λ c.
            let name = get_or req.name c.name in
            Costs-after_free (added v) 0 (rename_check (name =ₛ c.name) user name) _
              (rename_check-Free _ user name)
              λ _.
                Costs-after_free (added v) 0 (new_token ciphers show_num settings req.token) _
                  (new_token-Free req.token)
                  λ e.
                    Costs-after_free (added v) 0
                      (send (set_config name (merge_config_detail c.config req e) id user)
                        or_internal)
                      _ (omega arith, λ _. tt) build_response-Free

    -- Storing a new configuration adds one at most, to its user.
    store_config-Costs :
        (user : Uuid) (req : CreateConfigRequest)
        → Costs
            (added v)
            (if user == v then 1 else 0)
            (store_config ciphers show_num settings user req)
    unfolding store_config Costs
    store_config-Costs user req =
        let n = if user == v then 1 else 0 in
        let default = get_or req.is_default false in
        Costs-after_free (added v) n
          (or_fault (key_missing ciphers show_num settings) settings.token_encryption_key) _
          (or_fault-Free _ _)
          λ key.
            Costs-after_free (added v) n
              (encrypt_token_from_config ciphers show_num settings req.token key) _
              (encrypt-Free req.token key)
              λ e.
                Costs-after_free (added v) n (unset_if default user) _ (unset_if-Free default user)
                  λ _.
                    Costs-then_free (added v) n
                      (send
                        (insert_config user req.name req.provider default (build_config_json req e))
                        or_internal)
                      _ (omega arith, λ _. tt) build_response-Free

    pub create_within_limit-Costs :
        (user : Uuid) (req : CreateConfigRequest)
        → Costs
            (added v)
            (if user == v then 1 else 0)
            (create_within_limit ciphers show_num settings user req)
    unfolding create_within_limit
    create_within_limit-Costs user req =
        let n = if user == v then 1 else 0 in
        Costs-after_free (added v) n (check_name_unique user req.name) _
          (check_name_unique-Free user req.name)
          λ _.
            Costs-after_free (added v) n
              (verify_repo_access show_num req.provider req.token req.repo) _
              (verify_repo_access-Free show_num req.provider req.token req.repo)
              (λ _. store_config-Costs user req)

  pub delete_config-Free : (user id : Uuid) → Costs (added v) 0 (delete_config user id)
  unfolding delete_config Costs
  delete_config-Free user id =
      Costs-after_free (added v) 0 (fetch_user_config id user) _ (fetch_user_config-Free id user)
        λ _.
          Costs-after_free (added v) 0 (send (count_images id user) or_internal) _
            (omega arith, λ _. tt)
            λ n.
              Costs-after_free (added v) 0
                (guard (n == 0) (api (error_json conflict "storage_config.in_use"))) _
                (guard-Free _ _) λ _. (omega arith, λ _. tt)

  pub set_default-Free : (user id : Uuid) → Costs (added v) 0 (set_default user id)
  unfolding set_default Costs
  set_default-Free user id =
      Costs-after_free (added v) 0 (fetch_user_config id user) _ (fetch_user_config-Free id user)
        λ _.
          Costs-after_free (added v) 0 (unset_other_defaults user) _
            (unset_other_defaults-Free user)
            λ _.
              Costs-after_free (added v) 0 (send (make_default id user) or_internal) _
                (omega arith, λ _. tt) build_response-Free

  pub owned-run :
      {A : Type 0} (n : ℕ) (p : Handler A) (t : Tables)
      → Costs (added v) n p
      → owned v (run (exec outside) p t).1 ≤ owned v t + n
  owned-run n p t h = run-Costs (added v) (exec outside) (owned v) (exec-adds outside v) n p t h
