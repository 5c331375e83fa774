-- ===== src/Upload/Backends/Budget.antt =====
-- How much an upload may add to what its user stores.
use pichost.Common.{
  ℕ, zero, suc, ◌+◌, ◌≤◌, String, List, [], ◌∷◌, Option, none, some, Bool, true, false, Result, not,
  any, map_err, arith, length, ◌==◌, if◌then◌else◌, ltb, ◌≡◌, eq_refl, eq_iff, ◌=ₛ◌, ◌&&◌,
}
use pichost.Prog.{ret, send, ◌>>=◌, pure}
use pichost.Prog.Costs.{Costs, Costs-map, Costs-then_free, Costs-after_free, Costs-join}
use pichost.Storage.{◌⧺◌, StorageError, UserStorageConfig, Backend}
use pichost.Storage.Router.{Vault}
use pichost.TaskQueue.{Uuid}
use pichost.Upload.{api, error_json, bad_request, Bytes, AuthUser, Fault, UploadResult}
use pichost.Upload.Calls.{
  NewImage, Image, has_content, fits, World, Call, insert_image, sum_file_size, image_exists,
  select_duplicate, key_exists, select_configs, select_default, resolve_backend, put_object,
  enqueue, random_u32, new_uuid, utc_now, usage, exec, Filing,
}
use pichost.Upload.Checks.{
  is_local, local_fallback_config, Request, require, or_internal, existing, check_quota, some_match,
  default_or_local, quota_error, UploadConfig, check_upload_quotas, try_dedup, dedup_exists,
  fetch_dedup_row, resolve_upload_configs, validate_upload_configs, fetch_configs_by_ids,
  fetch_default_config,
}
use pichost.Upload.Backends.{
  new_image, Media, resolved, unless_found, both, UploadCtx, Persisted, write_to_storage,
  insert_image_record, store_under, persist_image_for_config, enqueue_processing_task, announce,
  upload_new, upload_to_single_backend, run_backend_uploads,
}
use pichost.Upload.PublicKeys.{image_url, storage_error_response, hex6, generate_public_key}
use pichost.Upload.Backends.Process.{resolve_encryption_key, uploads, context}

-- What a call may add to the bytes that the user `u` stores, beside those of one file.
abbrev pub added : Uuid → String → ℕ → Call → ℕ
added u hash bytes (insert_image n) =
    if n.user_id == u && not (n.sha256 =ₛ hash && n.file_size == bytes) then n.file_size else 0
added u hash bytes _ = 0

abbrev pub Adds : Uuid → String → ℕ → {A : Type 0} → ℕ → Request A → Type 0
Adds u hash bytes n p = Costs (added u hash bytes) n p

-- The user's bytes, and those of the file as long as the user does not have its contents: the
-- unique index lets them in once.
unfoldable pub reserved : Uuid → String → ℕ → List Image → ℕ
reserved u hash bytes images =
    usage u images + (if any (has_content u hash) images then 0 else bytes)

module _ (u : Uuid) (file_hash : String) (file_bytes : ℕ) where
  after :
      {A B : Type 0} (n : ℕ) (p : Request A) (f : A → Request B)
      → Adds u file_hash file_bytes 0 p
      → ((x : A) → Adds u file_hash file_bytes n (f x))
      → Adds u file_hash file_bytes n (p >>= f)
  after n p f h k = Costs-after_free (added u file_hash file_bytes) n p f h k

  before :
      {A B : Type 0} (n : ℕ) (p : Request A) (f : A → Request B)
      → Adds u file_hash file_bytes n p
      → ((x : A) → Adds u file_hash file_bytes 0 (f x))
      → Adds u file_hash file_bytes n (p >>= f)
  before n p f h k = Costs-then_free (added u file_hash file_bytes) n p f h k

  require-Adds : (b : Bool) (f : Fault) → Adds u file_hash file_bytes 0 (require b f)
  unfolding Costs
  require-Adds true f = tt
  require-Adds false f = tt

  existing-Adds :
      (i : Uuid) (h : String) (c : Option Uuid) (b : Bool)
      → Adds u file_hash file_bytes 0 (existing i h c b)
  unfolding Costs fetch_dedup_row
  existing-Adds i h c false = tt
  existing-Adds i h c true = after 0 (fetch_dedup_row i h c) _ (omega arith, λ r. tt) (λ row. tt)

  try_dedup-Adds :
      (i : Uuid) (h : String) (c : Option Uuid) → Adds u file_hash file_bytes 0 (try_dedup i h c)
  unfolding try_dedup Costs dedup_exists
  try_dedup-Adds i h c = after 0 (dedup_exists i h c) _ (omega arith, λ r. tt) (existing-Adds i h c)

  again_if :
      (again : Request String) (key : String)
      → Adds u file_hash file_bytes 0 again
      → (taken : Bool) → Adds u file_hash file_bytes 0 (if taken then again else pure key)
  unfolding Costs
  again_if again key h true = h
  again_if again key h false = tt

  generate-Adds : (rounds : ℕ) → Adds u file_hash file_bytes 0 (generate_public_key rounds)
  unfolding generate_public_key Costs
  generate-Adds zero = tt
  generate-Adds (suc rounds) =
      after 0 (send random_u32 pure)
        (λ n. send (key_exists (hex6 n)) or_internal >>= λ taken.
          if taken then generate_public_key rounds else pure (hex6 n))
        (omega arith, λ n. tt)
        λ n.
          after 0 (send (key_exists (hex6 n)) or_internal)
            (λ taken. if taken then generate_public_key rounds else pure (hex6 n))
            (omega arith, λ r. tt)
            (again_if (generate_public_key rounds) (hex6 n) (generate-Adds rounds))

  check_quota-Adds :
      (user : AuthUser) (size : ℕ) (quota : Option ℕ)
      → Adds u file_hash file_bytes 0 (check_quota user size quota)
  unfolding Costs
  check_quota-Adds user size none = tt
  check_quota-Adds user size (some quota) =
      after 0 (send (sum_file_size user.id) or_internal) _ (omega arith, λ r. tt)
        λ used. require-Adds _ (quota_error quota used size)

  check_upload_quotas-Adds :
      (settings : UploadConfig) (user : AuthUser) (size : ℕ)
      → Adds u file_hash file_bytes 0 (check_upload_quotas settings user size)
  unfolding check_upload_quotas
  check_upload_quotas-Adds settings user size =
      after 0 (require _ _) _ (require-Adds _ _) λ _. check_quota-Adds user size user.storage_quota

  some_match-Adds : (cs : List UserStorageConfig) → Adds u file_hash file_bytes 0 (some_match cs)
  unfolding Costs
  some_match-Adds [] = tt
  some_match-Adds (c ∷ cs) = tt

  default_or_local-Adds :
      (i : Uuid) (o : Option UserStorageConfig)
      → Adds u file_hash file_bytes 0 (default_or_local i o)
  unfolding Costs
  default_or_local-Adds i (some c) = tt
  default_or_local-Adds i none =
      after 0 (send utc_now pure) (λ now. pure (local_fallback_config i now ∷ []))
        (omega arith, λ r. tt) (λ now. tt)

  resolve_upload_configs-Adds :
      (i : Uuid) (ids : Option (List Uuid))
      → Adds u file_hash file_bytes 0 (resolve_upload_configs i ids)
  unfolding resolve_upload_configs fetch_configs_by_ids fetch_default_config Costs
  resolve_upload_configs-Adds i (some []) = tt
  resolve_upload_configs-Adds i (some (id ∷ ids)) =
      after 0 (send (select_configs i (id ∷ ids)) or_internal) _ (omega arith, λ r. tt)
        some_match-Adds
  resolve_upload_configs-Adds i none =
      after 0 (send (select_default i) or_internal) _ (omega arith, λ r. tt)
        (default_or_local-Adds i)

  validate-Adds :
      (cs : List UserStorageConfig) → Adds u file_hash file_bytes 0 (validate_upload_configs cs)
  unfolding validate_upload_configs
  validate-Adds cs =
      after 0
        (require (not (ltb 2 (length cs))) (api (error_json bad_request "upload.configs_too_many")))
        (λ _. require (any is_local cs) (api (error_json bad_request "upload.configs_need_local")))
        (require-Adds _ _) (λ _. require-Adds _ _)

  resolved-Adds :
      (o : Option (Result StorageError Backend)) → Adds u file_hash file_bytes 0 (resolved o)
  unfolding Costs
  resolved-Adds none = tt
  resolved-Adds (some r) = tt

  module _ (media : Media) where
    write-Adds :
        (b : Backend) (base : String) (i : Uuid) (key : String) (bytes : Bytes) (mime : String)
        → Adds u file_hash file_bytes 0 (write_to_storage media b base i key bytes mime)
    unfolding write_to_storage Costs
    write-Adds b base i key bytes mime =
        after 0
          (send (put_object b (media.show_uuid i ⧺ "/" ⧺ key) bytes mime)
            (λ r. ret (map_err (λ e. api (storage_error_response e)) r)))
          (λ k. pure (k, image_url base b key k)) (omega arith, λ r. tt) (λ k. tt)

    insert-Adds :
        (n : NewImage)
        → n.sha256 ≡ file_hash
        → n.file_size ≡ file_bytes
        → Adds u file_hash file_bytes 0 (insert_image_record media n)
    unfolding insert_image_record Costs
    insert-Adds n same long = (ground (arith, same, long, eq_refl file_hash), λ r. tt)

    store_under-Adds :
        (ctx : UploadCtx) (same : ctx.sha256 ≡ file_hash) (long : length ctx.bytes ≡ file_bytes)
        (c : UserStorageConfig) (b : Backend) (key : String)
        → Adds u file_hash file_bytes 0 (store_under media ctx c b key)
    unfolding store_under Costs
    store_under-Adds ctx same long c b key =
        after 0
          (write_to_storage media b ctx.settings.public_url ctx.user.id key ctx.bytes ctx.mime_type)
          _ (write-Adds b ctx.settings.public_url ctx.user.id key ctx.bytes ctx.mime_type)
          λ written.
            before 0 (insert_image_record media (new_image media ctx c key written)) _
              (insert-Adds (new_image media ctx c key written) same long) (λ id. tt)

    announce-Adds :
        (ctx : UploadCtx) (c : UserStorageConfig) (p : Persisted)
        → Adds u file_hash file_bytes 0 (announce media ctx c p)
    unfolding announce enqueue_processing_task Costs
    announce-Adds ctx c p = (omega arith, λ r. (omega arith, λ r. (omega arith, λ r. tt)))

    upload_new-Adds :
        (ctx : UploadCtx) (same : ctx.sha256 ≡ file_hash) (long : length ctx.bytes ≡ file_bytes)
        (c : UserStorageConfig)
        → Adds u file_hash file_bytes 0 (upload_new media ctx c)
    unfolding upload_new persist_image_for_config Costs
    upload_new-Adds ctx same long c =
        before 0 (persist_image_for_config media ctx c) _
          (after 0 (send (resolve_backend c ctx.encryption_key) resolved) _
            (omega arith, resolved-Adds)
            λ storage.
              after 0 (generate_public_key ctx.rounds) _ (generate-Adds ctx.rounds)
                λ key. store_under-Adds ctx same long c storage key)
          (announce-Adds ctx c)

    unless_found-Adds :
        (o : Option UploadResult) (n : ℕ) (p : Request UploadResult)
        → Adds u file_hash file_bytes n p
        → Adds u file_hash file_bytes n (unless_found media o p)
    unfolding Costs
    unless_found-Adds none n p h = h
    unless_found-Adds (some r) n p h = tt

    single-Adds :
        (ctx : UploadCtx) (same : ctx.sha256 ≡ file_hash) (long : length ctx.bytes ≡ file_bytes)
        (c : UserStorageConfig)
        → Adds u file_hash file_bytes 0 (upload_to_single_backend media ctx c)
    unfolding upload_to_single_backend
    single-Adds ctx same long c = after 0 (try_dedup _ _ _) _ (try_dedup-Adds _ _ _) λ found.
        unless_found-Adds found 0 (upload_new media ctx c) (upload_new-Adds ctx same long c)

    run_backend_uploads-Adds :
        (turns : List Bool) (ctx : UploadCtx) (same : ctx.sha256 ≡ file_hash)
        (long : length ctx.bytes ≡ file_bytes) (cs : List UserStorageConfig)
        → Adds u file_hash file_bytes 0 (run_backend_uploads media turns ctx cs)
    unfolding run_backend_uploads Costs
    run_backend_uploads-Adds turns ctx same long [] = tt
    run_backend_uploads-Adds turns ctx same long (c ∷ []) =
        before 0 (upload_to_single_backend media ctx c) _ (single-Adds ctx same long c) (λ r. tt)
    run_backend_uploads-Adds turns ctx same long (c0 ∷ c1 ∷ cs) =
        Costs-map (added u file_hash file_bytes) 0 _ (both media) (
          Costs-join (added u file_hash file_bytes) turns 0 0 _ _ (single-Adds ctx same long c0)
            (single-Adds ctx same long c1))

    resolve_key-Adds :
        (o : Option String) → Adds u file_hash file_bytes 0 (resolve_encryption_key media o)
    unfolding Costs
    resolve_key-Adds none = tt
    resolve_key-Adds (some s) = tt

    pub uploads-Adds :
        (turns : List Bool) (rounds : ℕ) (settings : UploadConfig) (user : AuthUser) (bytes : Bytes)
        (name : String) (ids : Option (List Uuid))
        → media.sha256 bytes ≡ file_hash
        → length bytes ≡ file_bytes
        → Adds u file_hash file_bytes 0 (uploads media turns rounds settings user bytes name ids)
    uploads-Adds turns rounds settings user bytes name ids same long =
        let n : ℕ = 0 in
        after n (resolve_upload_configs user.id ids) _ (resolve_upload_configs-Adds user.id ids)
          λ configs. after n (validate_upload_configs configs) _ (validate-Adds configs) λ _.
            after n (resolve_encryption_key media settings.token_encryption_key) _
              (resolve_key-Adds settings.token_encryption_key)
              λ key.
                run_backend_uploads-Adds turns (context media settings user bytes name rounds key)
                  same long configs

pub images_added :
    (vault : Vault) (filing : Filing) (u : Uuid) (hash : String) (bytes : ℕ) (c : Call) (w : World)
    → reserved u hash bytes (exec vault filing c w).1.images
      ≤ reserved u hash bytes w.images + added u hash bytes c
unfolding exec usage reserved fits
images_added vault filing u hash bytes (sum_file_size i) w = omega arith
images_added vault filing u hash bytes (image_exists i h o) w = omega arith
images_added vault filing u hash bytes (select_duplicate i h o) w = omega arith
images_added vault filing u hash bytes (key_exists k) w = omega arith
images_added vault filing u hash bytes (select_configs i ids) w = omega arith
images_added vault filing u hash bytes (select_default i) w = omega arith
images_added vault filing u hash bytes (insert_image n) w = ground (arith, eq_iff n.sha256 hash)
images_added vault filing u hash bytes (resolve_backend c k) w = ground arith
images_added vault filing u hash bytes (put_object b k d m) w = omega arith
images_added vault filing u hash bytes (enqueue t) w = omega arith
images_added vault filing u hash bytes random_u32 w = omega arith
images_added vault filing u hash bytes new_uuid w = omega arith
images_added vault filing u hash bytes utc_now w = omega arith
