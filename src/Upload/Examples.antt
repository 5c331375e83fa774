-- ===== src/Upload/Examples.antt =====
-- Uploads and listings on small data.
use pichost.Common.{
  ℕ, zero, suc, ◌+◌, ◌≤◌, ◌<◌, ◌≡◌, refl, [], ◌∷◌, none, some, true, false, ok, err, All, arith,
  length,
}
use pichost.Prog.{run}
use pichost.Storage.{backend_name, trim_slashes, UserStorageConfig, Backend, local}
use pichost.Storage.Router.{Vault, StorageRouter, for_config}
use pichost.Upload.{AuthUser, UploadResult, api, error_json, internal_server_error}
use pichost.Upload.Calls.{
  Image, World, Filing, exec, Services, AreUp, usage, fits, row_of, order_by_time, insert_by_time,
}
use pichost.Upload.Checks.{UploadConfig, check_upload_quotas, resolve_upload_configs}
use pichost.Upload.Checks.Laws.{IsOwnedBy, resolve_upload_configs-IsOwnedBy}
use pichost.Upload.Backends.{Media, UploadCtx, upload_to_single_backend, build_result}
use pichost.Upload.PublicKeys.{hex6}
use pichost.Upload.Backends.Laws.{left_over, candidate, IsTaken, IsFree, persisted, uploaded}
use pichost.Upload.Backends.Dedup.{upload-other_config, upload-new, upload-twice}
use pichost.Upload.Checks.{validate_upload_configs, try_dedup}
use pichost.Upload.Backends.{
  run_backend_uploads, upload_new, persist_image_for_config, store_under, announce,
}
use pichost.Upload.PublicKeys.{generate_public_key}
use pichost.Upload.Backends.Process.{process_upload}
use pichost.Upload.Backends.Quota.{process_upload-usage}

abbrev vault : Vault
vault = record {
  show_uuid = λ n. "uuid";
  parse_detail = λ s. err "no JSON";
  decrypt_token = λ t k. ok t;
}

abbrev filing : Filing
filing = λ b k m. k

abbrev media : Media
media = record {
  is_image = λ b. true;
  sha256 = λ b. "hash";
  mime = λ b. some "image/png";
  dimensions = λ b. some (4, 2);
  show_uuid = λ n. "user";
  decode_key = λ s. ok [];
}

abbrev settings : UploadConfig
settings = record {
  max_file_size_admin = 100;
  max_file_size_user = 50;
  public_url = "https://img.example/";
  token_encryption_key = none;
}

abbrev user : AuthUser
user = record { id = 1; is_admin = false; storage_quota = some 40 }

abbrev fallback : UserStorageConfig
fallback = record {
  id = 0;
  user_id = 1;
  name = "Local Storage";
  provider = "local";
  is_default = false;
  config = "{}";
  created_at = 9;
  updated_at = 9;
}

-- Another user's image has the first key that will be drawn.
abbrev others_image : Image
others_image =
    row_of
      (record {
        user_id = 2;
        public_key = hex6 10;
        original_name = "b.png";
        storage_key = "user2/b";
        storage_backend = "local";
        mime_type = "image/png";
        file_size = 30;
        width = none;
        height = none;
        sha256 = "hash-b";
        url = "https://img.example/u/b";
        storage_config_id = none;
      })
      5 6

abbrev disk : Backend
disk = local "/data" "https://img.example"

abbrev router : StorageRouter
router = record { backends = ("local", disk) ∷ []; default = "local"; poisoned = false }

abbrev world : World
world = record {
  images = others_image ∷ [];
  configs =
      record fallback { id = 3; name = "Mine" } ∷ record fallback { id = 4; user_id = 2 } ∷ [];
  objects = [];
  queued = [];
  router = router;
  randoms = λ n. n + 10;
  drawn = 0;
  next_uuid = 20;
  clock = 9;
  postgres = true;
}

abbrev services : Services
services = record { Db = World; view = λ w. w; handle = exec vault filing }

abbrev services_are_up : AreUp vault filing services
services_are_up = λ c w. (refl, refl)

abbrev ctx : UploadCtx
ctx = record {
  settings = settings;
  user = user;
  encryption_key = [];
  bytes = 1 ∷ 2 ∷ 3 ∷ [];
  file_name = "a.png";
  sha256 = "hash";
  mime_type = "image/png";
  width = some 4;
  height = some 2;
  rounds = 8;
}

resolves : for_config vault router fallback [] ≡ some (ok disk, router)
unfolding for_config
resolves = refl

taken : (j : ℕ) → j < 1 → IsTaken world (candidate world j)
unfolding hex6
taken zero h = refl
taken (suc j) h = absurd (omega arith)

free : IsFree world (candidate world 1)
unfolding hex6
free = refl

upload-new_example :
    let done = run services.handle (upload_to_single_backend media ctx fallback) world in
    (done.0
      ≡ ok (
          build_result media ctx fallback
            (persisted vault filing media ctx fallback disk router 1 world)
            9))
    × (done.1 ≡ uploaded vault filing media ctx fallback disk router 1 world)
unfolding fits hex6 backend_name trim_slashes
upload-new_example =
    upload-new vault filing media ctx fallback services services_are_up world disk router 1 resolves
      (omega arith) taken free refl refl

upload-twice_example :
    let once = run services.handle (upload_to_single_backend media ctx fallback) world in
    let twice = run services.handle (upload_to_single_backend media ctx fallback) once.1 in
    (a : UploadResult) × (b : UploadResult) × (once.0 ≡ ok a)
    × (twice.0 ≡ ok b)
    × (a.id ≡ b.id)
    × (a.public_key ≡ b.public_key)
    × (a.url ≡ b.url)
    × (a.file_size ≡ b.file_size)
    × (twice.1 ≡ once.1)
unfolding fits hex6 backend_name trim_slashes
upload-twice_example =
    upload-twice vault filing media ctx fallback services services_are_up world disk router 1
      resolves (omega arith) taken free refl refl

abbrev my_image : Image
my_image =
    row_of (record others_image.new { user_id = 1; sha256 = "hash"; storage_config_id = none }) 7 8

abbrev with_mine : World
with_mine = record world { images = others_image ∷ my_image ∷ [] }

resolve_upload_configs-IsOwnedBy_example :
    All (IsOwnedBy 1) (record fallback { id = 3; name = "Mine" } ∷ [])
unfolding resolve_upload_configs run exec order_by_time insert_by_time
resolve_upload_configs-IsOwnedBy_example =
    resolve_upload_configs-IsOwnedBy vault filing services services_are_up 1 (some (4 ∷ 3 ∷ []))
      world (record fallback { id = 3; name = "Mine" } ∷ []) refl

abbrev two_configs : World
two_configs = record world {
  configs =
      record fallback { id = 3; name = "Mine" } ∷ record fallback { id = 6; name = "Backup" } ∷ [];
}

abbrev tight : AuthUser
tight = record user { storage_quota = some 5 }

process_upload-usage_example :
    let p =
      process_upload media
        (true ∷ [])
        8
        settings
        tight
        (1 ∷ 2 ∷ 3 ∷ [])
        "a.png"
        (some (3 ∷ 6 ∷ [])) in
    usage 1 (run services.handle p two_configs).1.images ≤ 5
unfolding usage
process_upload-usage_example =
    process_upload-usage vault filing media services services_are_up (true ∷ []) 8 settings tight
      (1 ∷ 2 ∷ 3 ∷ []) "a.png" (some (3 ∷ 6 ∷ [])) two_configs 5 refl (omega arith) (omega arith)

-- Two configurations: the second INSERT is refused, so the request fails, with one row stored and
-- both objects.
second_refused :
    let p = process_upload media [] 8 settings tight (1 ∷ 2 ∷ 3 ∷ []) "a.png" (some (3 ∷ 6 ∷ [])) in
    let after = run services.handle p two_configs in
    (after.0 ≡ err (api (error_json internal_server_error "upload.save_failed")))
    × (usage 1 after.1.images ≡ 3)
    × (length after.1.objects ≡ 2)
unfolding usage process_upload run exec check_upload_quotas resolve_upload_configs order_by_time
    validate_upload_configs run_backend_uploads try_dedup upload_new persist_image_for_config
    for_config generate_public_key store_under announce fits hex6 backend_name trim_slashes
second_refused = (refl, refl, refl)

-- The contents are there under a configuration.
abbrev filed_elsewhere : World
filed_elsewhere = record world {
  images = others_image ∷ row_of (record my_image.new { storage_config_id = some 3 }) 7 8 ∷ [];
}

taken_elsewhere : (j : ℕ) → j < 1 → IsTaken filed_elsewhere (candidate filed_elsewhere j)
unfolding hex6
taken_elsewhere zero h = refl
taken_elsewhere (suc j) h = absurd (omega arith)

upload-other_config_example :
    let done = run services.handle (upload_to_single_backend media ctx fallback) filed_elsewhere in
    (done.0 ≡ err (api (error_json internal_server_error "upload.save_failed")))
    × (done.1 ≡ left_over vault filing media ctx fallback disk router 1 filed_elsewhere)
unfolding hex6
upload-other_config_example =
    upload-other_config vault filing media ctx fallback services services_are_up filed_elsewhere
      disk router 1 resolves (omega arith) taken_elsewhere refl refl refl
