-- ===== src/Upload/Backends.antt =====
-- An upload to one or two backends: writing the object, inserting the row, enqueueing the task.
pub mod Laws
pub mod Process
pub mod Dedup
pub mod Budget
pub mod Quota
use pichost.Common.{
  ℕ, zero, suc, ◌+◌, ◌/◌, ◌%◌, ◌^◌, String, List, [], ◌∷◌, Option, none, some, Bool, true, false,
  Result, ok, err, map_err, length, ◌==◌, ◌=ₛ◌, if◌then◌else◌, not,
}
use pichost.Common.{replicate, get_or}
use pichost.Prog.{Prog, ret, send, bind, join, ◌>>=◌, ◌>>◌, pure, throw}
use pichost.Storage.{
  StorageError, not_found, write_failed, read_failed, connection_failed, config, payload_too_large,
  display, UserStorageConfig, Backend, backend_name, public_url, trim_slashes, ◌⧺◌,
}
use pichost.TaskQueue.{Uuid, TaskPayload}
use pichost.Upload.{
  Bytes, ApiError, error_json, error_json_args, bad_request, payload_too_large as too_large_status,
  internal_server_error, Fault, api, panicked, hung, AuthUser, UploadResult, StorageConfigInfo,
  markdown_link, html_link, bbcode_link,
}
use pichost.Upload.Calls.{
  Call, Answer, NewImage, key_exists, insert_image, resolve_backend, put_object, enqueue,
  random_u32, new_uuid, utc_now,
}
use pichost.Upload.Checks.{
  Request, or_internal, require, UploadConfig, nil_uuid, check_upload_quotas, try_dedup,
  resolve_upload_configs, validate_upload_configs,
}
use pichost.Upload.PublicKeys.{hex6, generate_public_key, storage_error_response, image_url}

-- What an upload takes from the `infer`, `sha2` and `image` crates, from `uuid` and from
-- `crypto.rs`.
pub record Media : Type 0 where
  pub is_image : Bytes → Bool
  pub sha256 : Bytes → String
  pub mime : Bytes → Option String
  pub dimensions : Bytes → Option (ℕ × ℕ)
  pub show_uuid : Uuid → String
  pub decode_key : String → Result String Bytes

-- The parameters of `UploadCtx`, with the parts of the state's configuration that are read.
pub record UploadCtx : Type 0 where
  pub settings : UploadConfig
  pub user : AuthUser
  pub encryption_key : Bytes
  pub bytes : Bytes
  pub file_name : String
  pub sha256 : String
  pub mime_type : String
  pub width : Option ℕ
  pub height : Option ℕ
  pub rounds : ℕ  -- the fuel of `generate_public_key`

-- What one backend got: `(image_id, storage_key, backend_name, public_key, url)`.
pub record Persisted : Type 0 where
  pub image_id : Uuid
  pub storage_key : String
  pub backend : String
  pub public_key : String
  pub url : String

abbrev pub resolved : Option (Result StorageError Backend) → Request Backend
resolved none = throw panicked
resolved (some r) =
    ret (map_err (λ e. api (error_json internal_server_error "upload.backend_resolve_failed")) r)

abbrev pub config_id : UserStorageConfig → Option Uuid
config_id c = if c.id == nil_uuid then none else some c.id

abbrev config_info : UserStorageConfig → StorageConfigInfo
config_info c = record { id = c.id; name = c.name; provider = c.provider }

module _ (media : Media) where
  open media use {show_uuid}

  -- The storage key and the URL; the third part of the source's triple is the backend's name.
  unfoldable pub write_to_storage :
      Backend → String → Uuid → String → Bytes → String → Request (String × String)
  unfolding storage_error_response
  write_to_storage storage base user_id public_key bytes mime_type = do
    storage_key ←
        send (put_object storage (show_uuid user_id ⧺ "/" ⧺ public_key) bytes mime_type)
          (λ r. ret (map_err (λ e. api (storage_error_response e)) r))
    pure (storage_key, image_url base storage public_key storage_key)

  -- "local", or the id of the configuration, by which the router finds a cached backend.
  abbrev pub db_backend : UserStorageConfig → String
  db_backend c = if c.provider =ₛ "local" then "local" else show_uuid c.id

  abbrev pub new_image : UploadCtx → UserStorageConfig → String → String × String → NewImage
  new_image ctx c public_key written = record {
    user_id = ctx.user.id;
    public_key = public_key;
    original_name = ctx.file_name;
    storage_key = written.0;
    storage_backend = db_backend c;
    mime_type = ctx.mime_type;
    file_size = length ctx.bytes;
    width = ctx.width;
    height = ctx.height;
    sha256 = ctx.sha256;
    url = written.1;
    storage_config_id = config_id c;
  }

  unfoldable pub insert_image_record : NewImage → Request Uuid
  insert_image_record n =
      send (insert_image n)
        λ r. ret (map_err (λ e. api (error_json internal_server_error "upload.save_failed")) r)

  -- The object, then the row.
  unfoldable pub store_under : UploadCtx → UserStorageConfig → Backend → String → Request Persisted
  unfolding write_to_storage insert_image_record
  store_under ctx c storage public_key = do
    written ←
        write_to_storage storage ctx.settings.public_url ctx.user.id public_key ctx.bytes
          ctx.mime_type
    image_id ← insert_image_record (new_image ctx c public_key written)
    pure (record {
      image_id = image_id;
      storage_key = written.0;
      backend = backend_name storage;
      public_key = public_key;
      url = written.1;
    })

  unfoldable pub persist_image_for_config : UploadCtx → UserStorageConfig → Request Persisted
  persist_image_for_config ctx c = do
    storage ← send (resolve_backend c ctx.encryption_key) resolved
    public_key ← generate_public_key ctx.rounds
    store_under ctx c storage public_key

  -- A failure to enqueue is logged and ignored.
  unfoldable pub enqueue_processing_task :
      Uuid → Uuid → String → String → String → Option Uuid → Request (Unit {0})
  enqueue_processing_task image_id user_id storage_key mime_type backend config_id = do
    task_id ← send new_uuid pure
    send
        (enqueue (record {
          task_id = task_id;
          image_id = image_id;
          user_id = user_id;
          storage_backend = backend;
          storage_config_id = config_id;
          storage_backend_name = backend;
          source_key = storage_key;
          source_mime = mime_type;
          retry_count = 0;
          max_retries = 3;
        }))
        λ _. pure tt

  abbrev pub build_result : UploadCtx → UserStorageConfig → Persisted → ℕ → UploadResult
  build_result ctx c p now = record {
    id = p.image_id;
    public_key = p.public_key;
    original_name = ctx.file_name;
    url = p.url;
    markdown = markdown_link ctx.file_name p.url;
    html = html_link ctx.file_name p.url;
    bbcode = bbcode_link p.url;
    sha256 = ctx.sha256;
    file_size = length ctx.bytes;
    mime_type = ctx.mime_type;
    width = ctx.width;
    height = ctx.height;
    status = "active";
    thumbnail_url = none;
    webp_url = none;
    category_id = none;
    created_at = now;
    storage_config = some (config_info c);
  }

  -- What follows the row: the task for the worker, and the answer.
  unfoldable pub announce : UploadCtx → UserStorageConfig → Persisted → Request UploadResult
  unfolding enqueue_processing_task
  announce ctx c p = do
    enqueue_processing_task p.image_id ctx.user.id p.storage_key ctx.mime_type p.backend
        (config_id c)
    now ← send utc_now pure
    pure (build_result ctx c p now)

  unfoldable pub upload_new : UploadCtx → UserStorageConfig → Request UploadResult
  upload_new ctx c = do p ← persist_image_for_config ctx c; announce ctx c p

  abbrev pub unless_found : Option UploadResult → Request UploadResult → Request UploadResult
  unless_found (some r) m = pure r
  unless_found none m = m

  unfoldable pub upload_to_single_backend : UploadCtx → UserStorageConfig → Request UploadResult
  upload_to_single_backend ctx c = do
    found ← try_dedup ctx.user.id ctx.sha256 (config_id c)
    unless_found found (upload_new ctx c)

  abbrev pub both :
      Result Fault UploadResult × Result Fault UploadResult → Result Fault (List UploadResult)
  both (err f, r) = err f
  both (ok a, err f) = err f
  both (ok a, ok b) = ok (a ∷ b ∷ [])

  -- With two configurations the uploads run at the same time, in the order of the schedule.
  unfoldable pub run_backend_uploads :
      List Bool → UploadCtx → List UserStorageConfig → Request (List UploadResult)
  unfolding upload_to_single_backend join
  run_backend_uploads turns ctx [] = throw panicked
  run_backend_uploads turns ctx (c ∷ []) = do
    result ← upload_to_single_backend ctx c
    pure (result ∷ [])
  run_backend_uploads turns ctx (c0 ∷ c1 ∷ cs) =
      bind (join turns (upload_to_single_backend ctx c0) (upload_to_single_backend ctx c1))
        λ rs. ret (both rs)
