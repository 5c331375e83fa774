-- ===== src/Routes/Images/Handlers.antt =====
-- The handlers that show, rename and move images, in the order of the source, and what all handlers
-- share.
use Prim.Native.Char.{code}
use pichost.Common.{
  ℕ, String, List, [], ◌∷◌, Option, none, some, Result, ok, err, map_err, Bool, true, false, not,
  ◌||◌, ◌==◌, ◌=ₛ◌, ltb, length, byte_length,
}
use pichost.Prog.{ret, send, ◌>>=◌, ◌>>◌, pure, throw}
use pichost.Storage.{Backend}
use pichost.Storage.Router.{StorageRouter, for_backend}
use pichost.TaskQueue.{Uuid}
use pichost.Upload.{
  Fault, api, panicked, AuthUser, ImageRow, UploadResult, from_row, error_json, error_json_args,
  bad_request, internal_server_error, markdown_link, html_link, bbcode_link,
}
use pichost.Routes.{not_found}
use pichost.Routes.Images.{
  select_image, rename, select_category, set_category, set_categories, get_meta, set_meta, del_meta,
  Handler,
}

abbrev pub failure : ℕ → String → Fault
failure status key = api (error_json status key)

abbrev pub not_found_error : Fault
not_found_error = failure not_found "image.not_found"

abbrev pub or_fail : {E A : Type 0} → Fault → Result E A → Handler A
or_fail f r = ret (map_err (λ _. f) r)

abbrev pub or_none : {A : Type 0} → Fault → Option A → Handler A
or_none f none = throw f
or_none f (some a) = pure a

abbrev pub guard : Bool → Fault → Handler (Unit {0})
guard true f = pure tt
guard false f = throw f

abbrev pub internal : Fault
internal = failure internal_server_error "common.internal_error"

unfoldable pub check_image_status : String → Bool
check_image_status status = status =ₛ "active" || status =ₛ "ready"

unfoldable pub validate_batch_ids : List Uuid → Handler (Unit {0})
validate_batch_ids ids = do
  guard (not (length ids == 0)) (failure bad_request "image.batch_empty")
  guard (not (ltb 100 (length ids))) (failure bad_request "image.batch_limit")

unfoldable pub validate_batch_move : List Uuid → Handler (Unit {0})
validate_batch_move ids = do
  guard (not (length ids == 0)) (failure bad_request "image.batch_move_empty")
  guard (not (ltb 100 (length ids))) (failure bad_request "image.batch_move_limit")

-- `name.contains('/') || name.contains('\\') || name.contains('\0')`
abbrev pub has_separator : String → Bool
has_separator String.[] = false
has_separator (String.◌∷◌ c s) = (code c == b'/' || code c == 92 || code c == 0) || has_separator s

unfoldable pub validate_original_name : String → Handler (Unit {0})
validate_original_name name = do
  guard (not (name =ₛ "")) (failure bad_request "image.rename_empty")
  guard (not (ltb 255 (byte_length name))) (failure bad_request "image.rename_too_long")
  guard (not (has_separator name)) (failure bad_request "image.rename_invalid")

-- cached_meta: an entry is returned as it stands; what the cache answers to a write is ignored.
abbrev store_meta : Uuid → ℕ → UploadResult → Handler UploadResult
store_meta id ttl val = send (set_meta id val ttl) λ _. pure val

abbrev pub hit_or : {A : Type 0} → Result String (Option A) → Handler A → Handler A
hit_or (ok (some val)) fetch = pure val
hit_or (ok none) fetch = fetch
hit_or (err e) fetch = fetch

unfoldable pub cached_meta : Uuid → ℕ → Handler UploadResult → Handler UploadResult
cached_meta id ttl fetch = send (get_meta id) λ r. hit_or r (fetch >>= λ val. store_meta id ttl val)

unfoldable pub get_image : AuthUser → Uuid → Handler UploadResult
unfolding cached_meta
get_image user id = cached_meta id 600 do
  row ←
      send (select_image id user.id)
        (or_fail (failure internal_server_error "image.internal_error"))
  found ← or_none not_found_error row
  pure (from_row found)

unfoldable pub rename_image_in_db : Uuid → Uuid → String → Handler (Unit {0})
rename_image_in_db id user_id name = do
  updated ← send (rename name id user_id) (or_fail internal)
  guard (not (updated == 0)) not_found_error

unfoldable pub refetch_image_row : Uuid → Uuid → Handler ImageRow
refetch_image_row id user_id = do
  row ← send (select_image id user_id) (or_fail internal)
  or_none not_found_error row

abbrev pub forget : {A : Type 0} → Uuid → A → Handler A
forget id a = send (del_meta id) λ _. pure a

unfoldable pub rename_image : AuthUser → Uuid → String → Handler UploadResult
unfolding validate_original_name rename_image_in_db refetch_image_row
rename_image user id original_name = do
  validate_original_name original_name
  rename_image_in_db id user.id original_name
  updated ← refetch_image_row id user.id
  forget id (from_row updated)

unfoldable pub forget_all : {A : Type 0} → List Uuid → A → Handler A
forget_all [] a = pure a
forget_all (i ∷ is) a = send (del_meta i) λ _. forget_all is a

abbrev pub db_error : {A : Type 0} → Result String A → Handler A
db_error r =
    ret (map_err (λ e. api (error_json_args internal_server_error "common.db_error" (e ∷ []))) r)

unfoldable pub ensure_category_owned : Uuid → Uuid → Handler (Unit {0})
ensure_category_owned category_id user_id = do
  found ← send (select_category category_id user_id) db_error
  row ← or_none (failure not_found "category.not_found") found
  pure tt

abbrev check_category : Option Uuid → Uuid → Handler (Unit {0})
check_category none user_id = pure tt
check_category (some category_id) user_id = ensure_category_owned category_id user_id

unfoldable pub move_image : AuthUser → Uuid → Option Uuid → Handler (Unit {0})
unfolding ensure_category_owned
move_image user id category_id = do
  check_category category_id user.id
  affected ← send (set_category category_id id user.id) db_error
  guard (not (affected == 0)) (failure not_found "image.move_not_found")
  forget id tt

-- The answer counts the images that were moved.
unfoldable pub batch_move_images : AuthUser → List Uuid → Uuid → Handler ℕ
unfolding validate_batch_move ensure_category_owned forget_all
batch_move_images user image_ids category_id = do
  validate_batch_move image_ids
  ensure_category_owned category_id user.id
  moved ← send (set_categories category_id user.id image_ids) db_error
  forget_all image_ids moved

pub record ImageLinks : Type 0 where
  pub url : String
  pub markdown : String
  pub html : String
  pub bbcode : String

-- The statement reads three columns of the row that `select_image` shows.
unfoldable pub get_image_links : AuthUser → Uuid → Handler ImageLinks
get_image_links user id = do
  found ← send (select_image id user.id) (or_fail internal)
  row ← or_none not_found_error found
  pure (record {
    url = row.url;
    markdown = markdown_link row.original_name row.url;
    html = html_link row.original_name row.url;
    bbcode = bbcode_link row.url;
  })

-- The router of the backends; a handler does not change it.
abbrev pub backend_for : StorageRouter → String → Handler Backend
backend_for router name = or_none panicked (for_backend router name)
