-- ===== src/Upload/Backends/Dedup.antt =====
-- Uploading a new file and a duplicate to one backend.
use pichost.Common.{
  ℕ, ◌<◌, ◌≡◌, refl, ap, ◌∙◌, List, [], ◌∷◌, some, Bool, true, false, ok, err, arith, any, eq_refl,
  Option, none, not, ◌&&◌,
}
use pichost.Prog.{run}
use pichost.Prog.Laws.{run-view}
use pichost.Storage.{UserStorageConfig, Backend}
use pichost.Storage.Router.{Vault, StorageRouter, for_config}
use pichost.TaskQueue.{Uuid}
use pichost.Upload.{api, error_json, internal_server_error, UploadResult, from_row}
use pichost.Upload.Calls.{
  Image, World, Filing, exec, has_content, fits, Services, AreUp, first, is_duplicate, joined,
  same_config,
}
use pichost.Upload.Checks.{try_dedup}
use pichost.Upload.Backends.{Media, UploadCtx, config_id, upload_to_single_backend, build_result}
use pichost.Upload.Backends.Laws.{
  candidate, IsTaken, IsFree, left_over, upload_refused, persisted, new_row, uploaded, upload-exec,
}

any-first : (p : Image → Bool) (xs : List Image) (x : Image) → first p xs ≡ some x → any p xs ≡ true
unfolding first
any-first p [] x e = cc
any-first p (y ∷ ys) x e = ground (arith, any-first p ys x)

same_config_refl : (o : Option Uuid) → same_config o o ≡ true
same_config_refl none = refl
same_config_refl (some a) = ground arith

module _ (vault : Vault) (filing : Filing) (media : Media) (ctx : UploadCtx)
    (c : UserStorageConfig) where
  abbrev pub matching : Image → Bool
  matching = is_duplicate ctx.user.id ctx.sha256 (config_id c)

  duplicate-exec :
      (i : Image) (w : World)
      → first matching w.images ≡ some i
      → run (exec vault filing) (upload_to_single_backend media ctx c) w
        ≡ (ok (from_row (joined w.configs i)), w)
  unfolding upload_to_single_backend try_dedup run exec
  duplicate-exec i w e = ground (arith, any-first matching w.images i e)

  module _ (S : Services) (up : AreUp vault filing S) (d : S.Db) where
    -- On services that are up: if the user already has an image of the same content for the same
    -- configuration, the upload answers with that image, and nothing is stored, drawn or
    -- enqueued.
    pub upload-duplicate :
        (i : Image)
        → first matching (S.view d).images ≡ some i
        → let done = run S.handle (upload_to_single_backend media ctx c) d in
          (done.0 ≡ ok (from_row (joined (S.view d).configs i))) × (S.view done.1 ≡ S.view d)
    upload-duplicate i e =
        let (same, after) =
          run-view S.handle (exec vault filing) S.view up (upload_to_single_backend media ctx c)
            d in
        let found = duplicate-exec i (S.view d) e in
        (same ∙ ap (λ x. x.0) found, after ∙ ap (λ x. x.1) found)

    module _ (storage : Backend) (r : StorageRouter) (k : ℕ)
        (resolves : for_config vault (S.view d).router c ctx.encryption_key ≡ some (ok storage, r))
        (enough : k < ctx.rounds)
        (taken : (j : ℕ) → j < k → IsTaken (S.view d) (candidate (S.view d) j))
        (free : IsFree (S.view d) (candidate (S.view d) k)) where
      module _ (unseen : any (has_content ctx.user.id ctx.sha256) (S.view d).images ≡ false)
          (fitting : ((S.view d).postgres
              && not (fits (new_row vault filing media ctx c storage r k (S.view d)).new))
            ≡ false) where
        -- On services that are up, a file whose contents the user does not have under any
        -- configuration, with a backend that resolves, a free key among those that the loop may
        -- draw, and values that fit the columns where the database checks their widths, is stored:
        -- the upload succeeds, and adds one object with the file's bytes, one row that refers to it
        -- and one task for that row; nothing else changes.
        pub upload-new :
            let done = run S.handle (upload_to_single_backend media ctx c) d in
            (done.0
              ≡ ok (
                  build_result media ctx c
                    (persisted vault filing media ctx c storage r k (S.view d))
                    (S.view d).clock))
            × (S.view done.1 ≡ uploaded vault filing media ctx c storage r k (S.view d))
        upload-new =
            let (same, after) =
              run-view S.handle (exec vault filing) S.view up (upload_to_single_backend media ctx c)
                d in
            let stored =
              upload-exec vault filing media ctx c storage r k (S.view d) resolves enough taken free
                unseen fitting in
            (same ∙ ap (λ x. x.0) stored, after ∙ ap (λ x. x.1) stored)

        first-new_row :
            (xs : List Image)
            → first matching (new_row vault filing media ctx c storage r k (S.view d) ∷ xs)
              ≡ some (new_row vault filing media ctx c storage r k (S.view d))
        unfolding first
        first-new_row xs = ground (arith, eq_refl ctx.sha256, same_config_refl (config_id c))

        -- On services that are up, after an upload of contents that the user does not have under any
        -- configuration, with a backend that resolves, a free key among those that the loop
        -- may draw, and values that fit the columns, the same upload once more answers with the same
        -- image id, public key, URL and size, and stores nothing.
        pub upload-twice :
            let once = run S.handle (upload_to_single_backend media ctx c) d in
            let twice = run S.handle (upload_to_single_backend media ctx c) once.1 in
            (a : UploadResult) × (b : UploadResult) × (once.0 ≡ ok a)
            × (twice.0 ≡ ok b)
            × (a.id ≡ b.id)
            × (a.public_key ≡ b.public_key)
            × (a.url ≡ b.url)
            × (a.file_size ≡ b.file_size)
            × (S.view twice.1 ≡ S.view once.1)
        unfolding from_row joined
        upload-twice =
            let once = run S.handle (upload_to_single_backend media ctx c) d in
            let row = new_row vault filing media ctx c storage r k (S.view d) in
            let (answer, state) = upload-new in
            let found : first matching (S.view once.1).images ≡ some row =
              ap (λ (w : World). first matching w.images) state ∙ first-new_row (S.view d).images in
            let (again, still) =
              run-view S.handle (exec vault filing) S.view up (upload_to_single_backend media ctx c)
                once.1 in
            let dup = duplicate-exec row (S.view once.1) found in
            (
              _,
              _,
              answer,
              again ∙ ap (λ x. x.0) dup,
              refl,
              refl,
              refl,
              refl,
              still ∙ ap (λ x. x.1) dup,
            )

      -- On services that are up, a file whose contents the user has under another configuration only,
      -- with a backend that resolves and a free key among those that the loop may draw, is refused
      -- with an internal error: its object is stored and stays, without a row, and no task is
      -- enqueued.
      pub upload-other_config :
          any (has_content ctx.user.id ctx.sha256) (S.view d).images ≡ true
          → any matching (S.view d).images ≡ false
          → let done = run S.handle (upload_to_single_backend media ctx c) d in
            (done.0 ≡ err (api (error_json internal_server_error "upload.save_failed")))
            × (S.view done.1 ≡ left_over vault filing media ctx c storage r k (S.view d))
      upload-other_config seen new =
          let (same, after) =
            run-view S.handle (exec vault filing) S.view up (upload_to_single_backend media ctx c)
              d in
          let refused =
            upload_refused vault filing media ctx c storage r k (S.view d) resolves enough taken
              free seen new in
          (same ∙ ap (λ x. x.0) refused, after ∙ ap (λ x. x.1) refused)
