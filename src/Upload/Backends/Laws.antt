-- ===== src/Upload/Backends/Laws.antt =====
-- What an upload of a new file to one backend stores.
use pichost.Common.{
  ℕ, zero, suc, ◌+◌, ◌<◌, ◌≡◌, refl, ◌∙◌, subst, ◌∷◌, some, true, false, ok, err, arith, any,
  String, List, [], Option, not, ◌&&◌,
}
use pichost.Prog.{run, ◌>>=◌}
use pichost.Prog.Laws.{run->>=_ok, run->>=_err}
use pichost.Upload.{api, error_json, internal_server_error}
use pichost.Storage.{UserStorageConfig, Backend, backend_name, ◌⧺◌}
use pichost.Storage.Router.{Vault, StorageRouter, for_config}
use pichost.TaskQueue.{Uuid, TaskPayload}
use pichost.Upload.Calls.{
  Image, World, Stored, Filing, exec, row_of, is_duplicate, has_content, has_key, fits,
}
use pichost.Upload.Checks.{try_dedup}
use pichost.Upload.Backends.{
  Media, UploadCtx, Persisted, config_id, new_image, store_under, persist_image_for_config,
  announce, upload_new, upload_to_single_backend, build_result,
}
use pichost.Upload.PublicKeys.{generate_public_key, hex6, image_url}

-- The keys that are drawn, from the next on.
abbrev pub candidate : World → ℕ → String
candidate w k = hex6 (w.randoms (w.drawn + k))

abbrev pub IsTaken : World → String → Type 0
IsTaken w key = any (has_key key) w.images ≡ true

abbrev pub IsFree : World → String → Type 0
IsFree w key = any (has_key key) w.images ≡ false

-- Contents that the user has under no configuration are new for each.
unseen-new :
    (u : Uuid) (h : String) (o : Option Uuid) (images : List Image)
    → any (has_content u h) images ≡ false
    → any (is_duplicate u h o) images ≡ false
unseen-new u h o [] e = refl
unseen-new u h o (i ∷ images) e = ground (arith, e, unseen-new u h o images)

module _ (vault : Vault) (filing : Filing) where
  generate-exec :
      (rounds k : ℕ) (w : World)
      → k < rounds
      → ((j : ℕ) → j < k → IsTaken w (candidate w j))
      → IsFree w (candidate w k)
      → run (exec vault filing) (generate_public_key rounds) w
        ≡ (ok (candidate w k), record w { drawn = w.drawn + suc k })
  unfolding generate_public_key run exec
  generate-exec zero k w h taken free = elim h [ ]
  generate-exec (suc rounds) zero w h taken free =
      let here : w.drawn + 0 ≡ w.drawn = omega arith in
      let open_key = subst (λ n. any (has_key (hex6 (w.randoms n))) w.images ≡ false) here free in
      rw here (ground (arith, open_key))
  generate-exec (suc rounds) (suc k) w h taken free =
      let w' : World = record w { drawn = w.drawn + 1 } in
      let here : w.drawn + 0 ≡ w.drawn = omega arith in
      let shift : (j : ℕ) → w.drawn + suc j ≡ w.drawn + 1 + j = λ j. omega arith in
      let first_taken =
        subst (λ n. any (has_key (hex6 (w.randoms n))) w.images ≡ true) here
          (taken 0 (omega arith)) in
      let ih =
        generate-exec rounds k w' (omega arith)
          (λ j below.
            subst (λ n. any (has_key (hex6 (w.randoms n))) w.images ≡ true) (shift j)
              (taken (suc j) (omega arith)))
          (subst (λ n. any (has_key (hex6 (w.randoms n))) w.images ≡ false) (shift k) free) in
      rw (shift k) (ground (arith, ih, first_taken, shift (suc k)))

module _ (vault : Vault) (filing : Filing) (media : Media) (ctx : UploadCtx) (c : UserStorageConfig)
    (storage : Backend) (r : StorageRouter) (k : ℕ) (w : World) where
  abbrev pub object_key : String
  object_key = media.show_uuid ctx.user.id ⧺ "/" ⧺ candidate w k

  abbrev pub filed_key : String
  filed_key = filing storage object_key ctx.mime_type

  abbrev pub shared_url : String
  shared_url = image_url ctx.settings.public_url storage (candidate w k) filed_key

  -- What the caller learns of the stored image.
  abbrev pub persisted : Persisted
  persisted = record {
    image_id = w.next_uuid;
    storage_key = filed_key;
    backend = backend_name storage;
    public_key = candidate w k;
    url = shared_url;
  }

  abbrev pub new_row : Image
  new_row =
      row_of (new_image media ctx c (candidate w k) (filed_key, shared_url)) w.next_uuid w.clock

  abbrev pub new_object : Stored
  new_object = record { storage = storage; key = filed_key; bytes = ctx.bytes }

  abbrev pub new_task : TaskPayload
  new_task = record {
    task_id = w.next_uuid + 1;
    image_id = w.next_uuid;
    user_id = ctx.user.id;
    storage_backend = backend_name storage;
    storage_config_id = config_id c;
    storage_backend_name = backend_name storage;
    source_key = filed_key;
    source_mime = ctx.mime_type;
    retry_count = 0;
    max_retries = 3;
  }

  abbrev stored_world : World
  stored_world = record w {
    images = new_row ∷ w.images;
    objects = new_object ∷ w.objects;
    router = r;
    drawn = w.drawn + suc k;
    next_uuid = w.next_uuid + 1;
  }

  -- The object is there, and no row of it.
  abbrev pub left_over : World
  left_over = record w { objects = new_object ∷ w.objects; router = r; drawn = w.drawn + suc k }

  -- One row, one object and one task more; everything else is as it was.
  abbrev pub uploaded : World
  uploaded = record w {
    images = new_row ∷ w.images;
    objects = new_object ∷ w.objects;
    queued = new_task ∷ w.queued;
    router = r;
    drawn = w.drawn + suc k;
    next_uuid = w.next_uuid + 1 + 1;
  }

  module _ (resolves : for_config vault w.router c ctx.encryption_key ≡ some (ok storage, r))
      (enough : k < ctx.rounds) (taken : (j : ℕ) → j < k → IsTaken w (candidate w j))
      (free : IsFree w (candidate w k)) where
    resolve-exec :
        run (exec vault filing) (persist_image_for_config media ctx c) w
        ≡ run
            (exec vault filing)
            (generate_public_key ctx.rounds >>= store_under media ctx c storage)
            (record w { router = r })
    unfolding persist_image_for_config run exec
    resolve-exec = ground arith

    module _ (unseen : any (has_content ctx.user.id ctx.sha256) w.images ≡ false)
        (fitting : (w.postgres && not (fits new_row.new)) ≡ false) where
      store-exec :
          run
            (exec vault filing)
            (store_under media ctx c storage (candidate w k))
            (record w { router = r; drawn = w.drawn + suc k })
          ≡ (ok persisted, stored_world)
      unfolding store_under run exec
      store-exec = ground (arith, free, unseen, fitting)

      persist-exec :
          run (exec vault filing) (persist_image_for_config media ctx c) w
          ≡ (ok persisted, stored_world)
      persist-exec =
          resolve-exec
          ∙ run->>=_ok (exec vault filing) _ _ _ _ _
              (generate-exec vault filing ctx.rounds k (record w { router = r }) enough taken free)
          ∙ store-exec

      announce-exec :
          run (exec vault filing) (announce media ctx c persisted) stored_world
          ≡ (ok (build_result media ctx c persisted w.clock), uploaded)
      unfolding announce run exec
      announce-exec = refl

      upload_new-exec :
          run (exec vault filing) (upload_new media ctx c) w
          ≡ (ok (build_result media ctx c persisted w.clock), uploaded)
      unfolding upload_new
      upload_new-exec = run->>=_ok (exec vault filing) _ _ _ _ _ persist-exec ∙ announce-exec

      pub upload-exec :
          run (exec vault filing) (upload_to_single_backend media ctx c) w
          ≡ (ok (build_result media ctx c persisted w.clock), uploaded)
      unfolding upload_to_single_backend try_dedup run exec
      upload-exec =
          let new = unseen-new ctx.user.id ctx.sha256 (config_id c) w.images unseen in
          ground (arith, upload_new-exec, new)

    -- Contents that the user has under another configuration.
    module _ (seen : any (has_content ctx.user.id ctx.sha256) w.images ≡ true)
        (new : any (is_duplicate ctx.user.id ctx.sha256 (config_id c)) w.images ≡ false) where
      refused-exec :
          run
            (exec vault filing)
            (store_under media ctx c storage (candidate w k))
            (record w { router = r; drawn = w.drawn + suc k })
          ≡ (err (api (error_json internal_server_error "upload.save_failed")), left_over)
      unfolding store_under run exec
      refused-exec = ground (arith, seen)

      persist_refused :
          run (exec vault filing) (persist_image_for_config media ctx c) w
          ≡ (err (api (error_json internal_server_error "upload.save_failed")), left_over)
      persist_refused =
          resolve-exec
          ∙ run->>=_ok (exec vault filing) _ _ _ _ _
              (generate-exec vault filing ctx.rounds k (record w { router = r }) enough taken free)
          ∙ refused-exec

      new_refused :
          run (exec vault filing) (upload_new media ctx c) w
          ≡ (err (api (error_json internal_server_error "upload.save_failed")), left_over)
      unfolding upload_new
      new_refused = run->>=_err (exec vault filing) _ _ _ _ _ persist_refused

      pub upload_refused :
          run (exec vault filing) (upload_to_single_backend media ctx c) w
          ≡ (err (api (error_json internal_server_error "upload.save_failed")), left_over)
      unfolding upload_to_single_backend try_dedup run exec
      upload_refused = ground (arith, new_refused, new)
