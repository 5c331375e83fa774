-- ===== src/Routes/Images/Serving.antt =====
-- The handlers that serve an image, its thumbnail and its WebP form to anybody.
use pichost.Common.{ℕ, String, Option, get_or}
use pichost.Prog.{send, ◌>>=◌, ◌>>◌, pure}
use pichost.Storage.{◌⧺◌}
use pichost.Storage.Router.{StorageRouter}
use pichost.TaskQueue.{Uuid}
use pichost.Upload.{Bytes, Fault, internal_server_error}
use pichost.Routes.{not_found}
use pichost.Routes.Images.{
  select_public, select_thumb, select_thumb_by_key, select_webp, read_object, get_bytes, set_bytes,
  Handler,
}
use pichost.Routes.Images.Handlers.{
  failure, not_found_error, or_fail, or_none, guard, internal, hit_or, backend_for,
  check_image_status,
}

-- What a browser gets, with its headers.
pub record Response : Type 0 where
  pub content_type : String
  pub cache_control : String
  pub body : Bytes

abbrev pub respond : String → Bytes → Response
respond mime bytes = record {
  content_type = mime;
  cache_control = "public, max-age=31536000, immutable";
  body = bytes;
}

unfoldable pub cached_thumb : String → ℕ → Handler Bytes → Handler Bytes
cached_thumb cache_key ttl fetch =
    let key = "pichost:thumb:" ⧺ cache_key in
    send (get_bytes key) λ r. hit_or r (fetch >>= λ val. send (set_bytes key val ttl) λ _. pure val)

module _ (router : StorageRouter) where
  unfoldable pub public_get : String → Handler Response
  unfolding check_image_status
  public_get public_key = do
    found ← send (select_public public_key) (or_fail internal)
    row ← or_none not_found_error found
    guard (check_image_status row.status) not_found_error
    storage ← backend_for router row.storage_backend
    bytes ← send (read_object storage row.storage_key) (or_fail not_found_error)
    pure (respond row.mime_type bytes)

  -- The three handlers of generated images differ in the row, the key of the cache and the errors.
  abbrev pub read_variant : String → String → Fault → Handler Bytes
  read_variant storage_backend key f = do
    backend ← backend_for router storage_backend
    send (read_object backend key) (or_fail f)

  module _ (infer : Bytes → Option String) (show_uuid : Uuid → String) where
    unfoldable pub mime_for_thumb_bytes : Bytes → String
    mime_for_thumb_bytes bytes = get_or (infer bytes) "application/octet-stream"

    unfoldable pub public_get_thumb : Uuid → Handler Response
    unfolding cached_thumb mime_for_thumb_bytes
    public_get_thumb id = do
      found ←
          send (select_thumb id) (or_fail (failure internal_server_error "image.internal_error"))
      row ← or_none not_found_error found
      thumb_key ← or_none (failure not_found "image.thumbnail_not_ready") row.0
      bytes ←
          cached_thumb ("thumb:" ⧺ show_uuid id) 3600
            (read_variant row.1 thumb_key (failure not_found "image.thumbnail_not_found"))
      pure (respond (mime_for_thumb_bytes bytes) bytes)

    unfoldable pub resolve_thumb_key_by_public_key : String → Handler (String × String)
    resolve_thumb_key_by_public_key public_key = do
      found ← send (select_thumb_by_key public_key) (or_fail internal)
      row ← or_none not_found_error found
      thumb_key ← or_none (failure not_found "image.thumbnail_not_ready") row.0
      pure (thumb_key, row.1)

    -- Here the backend is resolved before the cache is asked.
    unfoldable pub public_get_thumb_by_key : String → Handler Response
    unfolding resolve_thumb_key_by_public_key cached_thumb mime_for_thumb_bytes
    public_get_thumb_by_key public_key = do
      keys ← resolve_thumb_key_by_public_key public_key
      backend ← backend_for router keys.1
      bytes ← cached_thumb ("thumb:pk:" ⧺ public_key) 3600 (
          send (read_object backend keys.0)
            (or_fail (failure internal_server_error "image.thumbnail_not_found")))
      pure (respond (mime_for_thumb_bytes bytes) bytes)

    unfoldable pub public_get_webp : Uuid → Handler Response
    unfolding cached_thumb
    public_get_webp id = do
      found ← send (select_webp id) (or_fail (failure internal_server_error "image.internal_error"))
      row ← or_none not_found_error found
      webp_key ← or_none (failure not_found "image.webp_not_ready") row.0
      bytes ←
          cached_thumb ("webp:" ⧺ show_uuid id) 3600
            (read_variant row.1 webp_key (failure not_found "image.webp_not_found"))
      pure (respond "image/webp" bytes)
