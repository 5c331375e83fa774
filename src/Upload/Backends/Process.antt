-- ===== src/Upload/Backends/Process.antt =====
-- A whole upload request.
use pichost.Common.{ℕ, String, List, Option, none, some, Bool, map_err, length}
use pichost.Common.{replicate, get_or}
use pichost.Prog.{ret, ◌>>=◌, ◌>>◌, pure}
use pichost.TaskQueue.{Uuid}
use pichost.Upload.{
  Bytes, error_json, bad_request, internal_server_error, api, AuthUser, UploadResult,
}
use pichost.Upload.Checks.{
  Request, require, UploadConfig, check_upload_quotas, resolve_upload_configs,
  validate_upload_configs,
}
use pichost.Upload.Backends.{run_backend_uploads, Media, UploadCtx}

module _ (media : Media) where
  abbrev pub resolve_encryption_key : Option String → Request Bytes
  resolve_encryption_key none = pure (replicate 32 0)
  resolve_encryption_key (some encoded) = ret (
      map_err (λ e. api (error_json internal_server_error "upload.encryption_key_invalid"))
        (media.decode_key encoded))

  abbrev detect_mime : Bytes → String
  detect_mime bytes = get_or (media.mime bytes) "application/octet-stream"

  abbrev width_of : Option (ℕ × ℕ) → Option ℕ
  width_of none = none
  width_of (some d) = some d.0

  abbrev height_of : Option (ℕ × ℕ) → Option ℕ
  height_of none = none
  height_of (some d) = some d.1

  abbrev pub context : UploadConfig → AuthUser → Bytes → String → ℕ → Bytes → UploadCtx
  context settings user bytes file_name rounds key = record {
    settings = settings;
    user = user;
    encryption_key = key;
    bytes = bytes;
    file_name = file_name;
    sha256 = media.sha256 bytes;
    mime_type = detect_mime bytes;
    width = width_of (media.dimensions bytes);
    height = height_of (media.dimensions bytes);
    rounds = rounds;
  }

  -- What `process_upload` does after its checks of the file.
  abbrev pub uploads :
      List Bool
      → ℕ
      → UploadConfig
      → AuthUser
      → Bytes
      → String
      → Option (List Uuid)
      → Request (List UploadResult)
  uploads turns rounds settings user bytes file_name config_ids = do
    configs ← resolve_upload_configs user.id config_ids
    validate_upload_configs configs
    key ← resolve_encryption_key settings.token_encryption_key
    run_backend_uploads media turns (context settings user bytes file_name rounds key) configs

  unfoldable pub process_upload :
      List Bool
      → ℕ
      → UploadConfig
      → AuthUser
      → Bytes
      → String
      → Option (List Uuid)
      → Request (List UploadResult)
  process_upload turns rounds settings user bytes file_name config_ids = do
    require (media.is_image bytes) (api (error_json bad_request "upload.not_an_image"))
    check_upload_quotas settings user (length bytes)
    uploads turns rounds settings user bytes file_name config_ids
