-- ===== src/Routes/Images/Removal.antt =====
-- The handlers that remove images, with the files in their backend.
use pichost.Common.{ℕ, ◌-◌, String, List, [], ◌∷◌, Option, none, some, length}
use pichost.Prog.{send, ◌>>=◌, ◌>>◌, pure}
use pichost.Storage.{Backend}
use pichost.Storage.Router.{StorageRouter}
use pichost.TaskQueue.{Uuid}
use pichost.Upload.{AuthUser, internal_server_error}
use pichost.Routes.Images.{
  Target, select_target, select_targets, delete_row, delete_rows, remove_object, Handler,
}
use pichost.Routes.Images.Handlers.{
  failure, not_found_error, or_fail, or_none, internal, forget, forget_all, backend_for,
  validate_batch_ids,
}

unfoldable pub fetch_delete_target : Uuid → AuthUser → Handler Target
fetch_delete_target id user = do
  found ← send (select_target id user.id user.is_admin) (or_fail internal)
  or_none not_found_error found

module _ (router : StorageRouter) where
  abbrev remove_some : Backend → Option String → Handler (Unit {0})
  remove_some b none = pure tt
  remove_some b (some key) = send (remove_object b key) λ _. pure tt

  -- What the backend answers is ignored.
  unfoldable pub cleanup_storage_files : Target → Handler (Unit {0})
  cleanup_storage_files t = do
    storage ← backend_for router t.storage_backend
    send (remove_object storage t.storage_key)
        λ _. do remove_some storage t.thumbnail_key; remove_some storage t.webp_key

  -- The answer names the image.
  unfoldable pub delete_image : AuthUser → Uuid → Handler Uuid
  unfolding fetch_delete_target cleanup_storage_files
  delete_image user id = do
    target ← fetch_delete_target id user
    cleanup_storage_files target
    deleted ← send (delete_row id) (or_fail (failure internal_server_error "image.delete_failed"))
    forget id id

  unfoldable pub cleanup_all : List Target → Handler (Unit {0})
  unfolding cleanup_storage_files
  cleanup_all [] = pure tt
  cleanup_all (t ∷ ts) = cleanup_storage_files t >> cleanup_all ts

  -- The counts of deleted and of failed images.
  unfoldable pub batch_delete : AuthUser → List Uuid → Handler (ℕ × ℕ)
  unfolding validate_batch_ids cleanup_all forget_all
  batch_delete user ids = do
    validate_batch_ids ids
    rows ← send (select_targets ids user.id user.is_admin) (or_fail internal)
    cleanup_all rows
    deleted ←
        send (delete_rows ids) (or_fail (failure internal_server_error "image.batch_delete_failed"))
    forget_all ids (deleted, length ids - deleted)
