-- ===== src/Upload/Checks.antt =====
-- What an upload checks before it stores anything: size and quota, duplicates, and the storage
-- configurations that it goes to.
pub mod Laws
use pichost.Common.{
  ℕ, ◌+◌, ◌^◌, String, List, [], ◌∷◌, Option, none, some, Bool, true, false, not, Result, ok, err,
  map_err, ltb, leb, length, any, ◌=ₛ◌, if◌then◌else◌,
}
use pichost.Prog.{Prog, ret, send, ◌>>=◌, ◌>>◌, pure, throw}
use pichost.Storage.{UserStorageConfig}
use pichost.TaskQueue.{Uuid}
use pichost.Upload.{
  Bytes, ApiError, error_json, error_json_extra, bad_request, payload_too_large,
  internal_server_error, Fault, api, AuthUser, UploadResult, from_row, ImageRow,
}
use pichost.Upload.Calls.{
  Call, Answer, sum_file_size, image_exists, select_duplicate, select_configs, select_default,
  utc_now,
}

abbrev pub Request : Type 0 → Type 0
Request A = Prog Call Answer (Result Fault A)

abbrev pub api_error : Fault
api_error = api (error_json internal_server_error "common.internal_error")

-- `map_err` to the answer 500 that every failed statement gives.
abbrev pub or_internal : {A : Type 0} → Result String A → Request A
or_internal r = ret (map_err (λ _. api_error) r)

abbrev pub require : Bool → Fault → Request (Unit {0})
require true f = pure tt
require false f = throw f

pub record UploadConfig : Type 0 where
  pub max_file_size_admin : ℕ
  pub max_file_size_user : ℕ
  pub public_url : String
  pub token_encryption_key : Option String

unfoldable pub max_size : UploadConfig → AuthUser → ℕ
max_size config user =
    if user.is_admin then config.max_file_size_admin else config.max_file_size_user

-- `current_usage + new_file_size > quota` on `i64`: from 2 ^ 63 the sum is negative, which is
-- above no quota.
unfoldable pub exceeds : ℕ → ℕ → ℕ → Bool
exceeds used size quota = if leb (2 ^ 63) (used + size) then false else ltb quota (used + size)

abbrev pub quota_error : ℕ → ℕ → ℕ → Fault
quota_error quota used size = api (
    error_json_extra payload_too_large "upload.quota_exceeded"
      (("quota_bytes", quota) ∷ ("used_bytes", used) ∷ ("file_bytes", size) ∷ []))

abbrev pub check_quota : AuthUser → ℕ → Option ℕ → Request (Unit {0})
check_quota user size none = pure tt
check_quota user size (some quota) = do
  used ← send (sum_file_size user.id) or_internal
  require (not (exceeds used size quota)) (quota_error quota used size)

unfoldable pub check_upload_quotas : UploadConfig → AuthUser → ℕ → Request (Unit {0})
unfolding max_size exceeds
check_upload_quotas config user file_size = do
  require (not (ltb (max_size config user) file_size))
      (api (error_json payload_too_large "upload.file_too_large"))
  check_quota user file_size user.storage_quota

unfoldable pub dedup_exists : Uuid → String → Option Uuid → Request Bool
dedup_exists user_id sha256 config_id = send (image_exists user_id sha256 config_id) or_internal

unfoldable pub fetch_dedup_row : Uuid → String → Option Uuid → Request ImageRow
fetch_dedup_row user_id sha256 config_id =
    send (select_duplicate user_id sha256 config_id) or_internal

abbrev pub existing : Uuid → String → Option Uuid → Bool → Request (Option UploadResult)
existing user_id sha256 config_id false = pure none
existing user_id sha256 config_id true = do
  row ← fetch_dedup_row user_id sha256 config_id
  pure (some (from_row row))

unfoldable pub try_dedup : Uuid → String → Option Uuid → Request (Option UploadResult)
unfolding dedup_exists fetch_dedup_row
try_dedup user_id sha256 config_id = do
  found ← dedup_exists user_id sha256 config_id
  existing user_id sha256 config_id found

abbrev pub some_match : List UserStorageConfig → Request (List UserStorageConfig)
some_match [] = throw (api (error_json bad_request "upload.configs_none_match"))
some_match (c ∷ cs) = pure (c ∷ cs)

unfoldable pub fetch_configs_by_ids : Uuid → List Uuid → Request (List UserStorageConfig)
fetch_configs_by_ids user_id ids = do
  configs ← send (select_configs user_id ids) or_internal
  some_match configs

unfoldable pub fetch_default_config : Uuid → Request (Option UserStorageConfig)
fetch_default_config user_id = send (select_default user_id) or_internal

abbrev pub nil_uuid : Uuid
nil_uuid = 0

unfoldable pub local_fallback_config : Uuid → ℕ → UserStorageConfig
local_fallback_config user_id now = record {
  id = nil_uuid;
  user_id = user_id;
  name = "Local Storage";
  provider = "local";
  is_default = false;
  config = "{}";
  created_at = now;
  updated_at = now;
}

abbrev pub default_or_local : Uuid → Option UserStorageConfig → Request (List UserStorageConfig)
default_or_local user_id (some config) = pure (config ∷ [])
default_or_local user_id none = do
  now ← send utc_now pure
  pure (local_fallback_config user_id now ∷ [])

unfoldable pub resolve_upload_configs : Uuid → Option (List Uuid) → Request (List UserStorageConfig)
unfolding fetch_configs_by_ids fetch_default_config local_fallback_config
resolve_upload_configs user_id (some []) = pure []
resolve_upload_configs user_id (some (id ∷ ids)) = fetch_configs_by_ids user_id (id ∷ ids)
resolve_upload_configs user_id none = do
  config ← fetch_default_config user_id
  default_or_local user_id config

abbrev pub is_local : UserStorageConfig → Bool
is_local c = c.provider =ₛ "local"

unfoldable pub validate_upload_configs : List UserStorageConfig → Request (Unit {0})
validate_upload_configs configs = do
  require (not (ltb 2 (length configs))) (api (error_json bad_request "upload.configs_too_many"))
  require (any is_local configs) (api (error_json bad_request "upload.configs_need_local"))
