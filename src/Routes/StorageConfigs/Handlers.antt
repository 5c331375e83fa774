-- ===== src/Routes/StorageConfigs/Handlers.antt =====
-- The handlers of storage configurations.
use pichost.Common.{
  ℕ, String, List, [], ◌∷◌, Option, none, some, Result, ok, err, map_err, Bool, true, false, not,
  ◌||◌, ◌==◌, ◌=ₛ◌, if◌then◌else◌, ltb, get_or,
}
use pichost.Prog.{Prog, ret, send, ◌>>=◌, ◌>>◌, pure, throw}
use pichost.TaskQueue.{Uuid}
use pichost.Storage.{◌⧺◌}
use pichost.Crypto.{Ciphers, encrypt_token, decode_key, mask_token}
use pichost.Upload.{
  error_json, error_json_args, bad_request, internal_server_error, Fault, api, panicked,
}
use pichost.Routes.{not_found, conflict}
use pichost.Routes.StorageConfigs.{
  Detail, as_str, set_key, ConfigRow, CreateConfigRequest, UpdateConfigRequest, HttpResponse, Call,
  Answer, count_configs, name_exists, unset_defaults, select_config, select_configs, insert_config,
  set_config, count_images, delete_row, make_default, get_repo, draw_nonce,
}

pub record Settings : Type 0 where
  pub storage_max_user_configs : Option ℕ
  pub token_encryption_key : Option String

pub record UserStorageConfigResponse : Type 0 where
  pub id : Uuid
  pub name : String
  pub provider : String
  pub repo : String
  pub branch : String
  pub path_prefix : Option String
  pub is_default : Bool
  pub token_masked : String
  pub created_at : ℕ
  pub updated_at : ℕ

abbrev pub Handler : Type 0 → Type 0
Handler A = Prog Call Answer (Result Fault A)

abbrev pub internal_error : Fault
internal_error = api (error_json internal_server_error "common.internal_error")

abbrev pub or_internal : {A : Type 0} → Result String A → Handler A
or_internal r = ret (map_err (λ _. internal_error) r)

abbrev pub guard : Bool → Fault → Handler (Unit {0})
guard true f = pure tt
guard false f = throw f

abbrev pub or_fault : {A : Type 0} → Fault → Option A → Handler A
or_fault f none = throw f
or_fault f (some a) = pure a

abbrev pub response_of : ConfigRow → String → UserStorageConfigResponse
response_of c masked = record {
  id = c.id;
  name = c.name;
  provider = c.provider;
  repo = get_or (as_str "repo" c.config) "";
  branch = get_or (as_str "branch" c.config) "main";
  path_prefix = as_str "path_prefix" c.config;
  is_default = c.is_default;
  token_masked = masked;
  created_at = c.created_at;
  updated_at = c.updated_at;
}

-- Masking a token slices it, which can panic.
unfoldable pub build_response : ConfigRow → Handler UserStorageConfigResponse
build_response c = do
  masked ← or_fault panicked (mask_token (get_or (as_str "token_encrypted" c.config) ""))
  pure (response_of c masked)

abbrev pub build_all : List ConfigRow → Handler (List UserStorageConfigResponse)
build_all [] = pure []
build_all (c ∷ cs) = do r ← build_response c; rs ← build_all cs; pure (r ∷ rs)

abbrev pub max_of : Option ℕ → ℕ
max_of o = get_or o 5

unfoldable pub check_config_limit : (ℕ → String) → Option ℕ → Uuid → Handler (Unit {0})
check_config_limit show_num max_configs user_id = do
  count ← send (count_configs user_id) or_internal
  guard (ltb count (max_of max_configs)) (
      api (error_json_args bad_request "storage_config.limit" (show_num (max_of max_configs) ∷ [])))

unfoldable pub check_name_unique : Uuid → String → Handler (Unit {0})
check_name_unique user_id name = do
  exists ← send (name_exists user_id name) or_internal
  guard (not exists) (api (error_json conflict "storage_config.name_exists"))

unfoldable pub unset_other_defaults : Uuid → Handler (Unit {0})
unset_other_defaults user_id = send (unset_defaults user_id) or_internal

unfoldable pub fetch_user_config : Uuid → Uuid → Handler ConfigRow
fetch_user_config config_id user_id = do
  row ← send (select_config config_id user_id) or_internal
  or_fault (api (error_json not_found "storage_config.not_found")) row

unfoldable pub build_config_json : CreateConfigRequest → String → Detail
build_config_json req encrypted =
    ("token_encrypted", some encrypted)
    ∷ ("repo", some req.repo)
    ∷ ("branch", some (get_or req.branch "main"))
    ∷ ("path_prefix", req.path_prefix)
    ∷ []

abbrev set_if : String → Option String → Detail → Detail
set_if key none detail = detail
set_if key (some value) detail = set_key key value detail

unfoldable pub merge_config_detail : Detail → UpdateConfigRequest → Option String → Detail
merge_config_detail detail req encrypted_token = set_if "token_encrypted" encrypted_token (
    set_if "path_prefix" req.path_prefix
      (set_if "branch" req.branch (set_if "repo" req.repo detail)))

unfoldable pub api_base_for_provider : String → Option String
api_base_for_provider provider =
    if provider =ₛ "github"
    then some "https://api.github.com"
    else if provider =ₛ "gitcode"
    then some "https://api.gitcode.com/api/v5"
    else none

abbrev pub check_status : (ℕ → String) → HttpResponse → Result Fault (Unit {0})
check_status show_num resp =
    let n = resp.status in
    if n == 200 || n == 302
    then ok tt
    else if n == 401 || n == 403
    then err (api (error_json bad_request "storage_config.token_invalid"))
    else if n == 404
    then err (api (error_json bad_request "storage_config.repo_not_found"))
    else err (
        api (
          error_json_args bad_request "storage_config.repo_verify_failed"
            (show_num n ∷ get_or resp.body "" ∷ [])))

abbrev pub unreachable : {A : Type 0} → Result String A → Handler A
unreachable r =
    ret (
      map_err (λ e. api (error_json_args bad_request "storage_config.repo_unreachable" (e ∷ []))) r)

unfoldable pub verify_repo_access : (ℕ → String) → String → String → String → Handler (Unit {0})
verify_repo_access show_num provider token repo = do
  base ←
      or_fault (api (error_json bad_request "storage_config.unsupported_type"))
        (api_base_for_provider provider)
  resp ← send (get_repo (base ⧺ "/repos/" ⧺ repo) token) unreachable
  ret (check_status show_num resp)

abbrev pub unset_if : Bool → Uuid → Handler (Unit {0})
unset_if false user = pure tt
unset_if true user = unset_other_defaults user

abbrev pub rename_check : Bool → Uuid → String → Handler (Unit {0})
rename_check true user name = pure tt
rename_check false user name = check_name_unique user name

module _ (ciphers : Ciphers) (show_num : ℕ → String) (settings : Settings) where
  abbrev pub key_missing : Fault
  key_missing = api (error_json internal_server_error "storage_config.encryption_key_missing")

  unfoldable pub encrypt_token_from_config : String → String → Handler String
  encrypt_token_from_config token encryption_key = do
    key_bytes ← ret (map_err (λ _. internal_error) (decode_key ciphers encryption_key))
    send draw_nonce
        (λ nonce. ret (map_err (λ _. internal_error) (encrypt_token ciphers token key_bytes nonce)))

  -- What comes after the checks of a new configuration.
  unfoldable pub store_config : Uuid → CreateConfigRequest → Handler UserStorageConfigResponse
  unfolding encrypt_token_from_config build_config_json unset_other_defaults build_response
  store_config user req = do
    encryption_key ← or_fault key_missing settings.token_encryption_key
    encrypted ← encrypt_token_from_config req.token encryption_key
    unset_if (get_or req.is_default false) user
    config ←
        send
          (insert_config user req.name req.provider (get_or req.is_default false)
            (build_config_json req encrypted))
          or_internal
    build_response config

  -- What comes after the limit, and from the limit on.
  unfoldable pub create_within_limit :
      Uuid → CreateConfigRequest → Handler UserStorageConfigResponse
  unfolding check_name_unique verify_repo_access store_config
  create_within_limit user req = do
    check_name_unique user req.name
    verify_repo_access show_num req.provider req.token req.repo
    store_config user req

  unfoldable pub create_supported : Uuid → CreateConfigRequest → Handler UserStorageConfigResponse
  unfolding check_config_limit create_within_limit
  create_supported user req = do
    check_config_limit show_num settings.storage_max_user_configs user
    create_within_limit user req

  unfoldable pub create_config : Uuid → CreateConfigRequest → Handler UserStorageConfigResponse
  unfolding create_supported
  create_config user req = do
    guard (req.provider =ₛ "github" || req.provider =ₛ "gitcode")
        (api (error_json bad_request "storage_config.unsupported_provider"))
    create_supported user req

  abbrev pub new_token : Option String → Handler (Option String)
  new_token none = pure none
  new_token (some token) = do
    encryption_key ← or_fault key_missing settings.token_encryption_key
    encrypted ← encrypt_token_from_config token encryption_key
    pure (some encrypted)

  unfoldable pub update_config :
      Uuid → Uuid → UpdateConfigRequest → Handler UserStorageConfigResponse
  unfolding fetch_user_config check_name_unique encrypt_token_from_config merge_config_detail
      build_response
  update_config user id req = do
    existing ← fetch_user_config id user
    rename_check (get_or req.name existing.name =ₛ existing.name) user
        (get_or req.name existing.name)
    encrypted ← new_token req.token
    updated ←
        send
          (set_config (get_or req.name existing.name)
            (merge_config_detail existing.config req encrypted) id user)
          or_internal
    build_response updated

unfoldable pub list_configs : Uuid → Handler (List UserStorageConfigResponse)
unfolding build_response
list_configs user = do configs ← send (select_configs user) or_internal; build_all configs

unfoldable pub get_config : Uuid → Uuid → Handler UserStorageConfigResponse
unfolding fetch_user_config build_response
get_config user id = do config ← fetch_user_config id user; build_response config

unfoldable pub delete_config : Uuid → Uuid → Handler (Unit {0})
unfolding fetch_user_config
delete_config user id = do
  _existing ← fetch_user_config id user
  ref_count ← send (count_images id user) or_internal
  guard (ref_count == 0) (api (error_json conflict "storage_config.in_use"))
  send (delete_row id user) or_internal

unfoldable pub set_default : Uuid → Uuid → Handler UserStorageConfigResponse
unfolding fetch_user_config unset_other_defaults build_response
set_default user id = do
  _existing ← fetch_user_config id user
  unset_other_defaults user
  config ← send (make_default id user) or_internal
  build_response config
