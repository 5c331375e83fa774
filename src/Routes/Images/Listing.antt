-- ===== src/Routes/Images/Listing.antt =====
-- The list of a user's images as the route makes it: `list_images` and what it calls, in
-- routes/images.rs. services/upload.rs has the same functions once more (Upload.Gallery), with
-- another statement: this one joins the storage configurations.
use pichost.Common.{
  ℕ, ◌+◌, ◌≡◌, refl, String, List, ◌∷◌, [], map, Option, Result, ok, map_err, Bool, true, false,
  ◌=ₛ◌, ◌||◌, if◌then◌else◌, trim,
}
use pichost.Prog.{ret, send, ◌>>=◌, pure}
use pichost.Storage.{◌⧺◌}
use pichost.TaskQueue.{Uuid}
use pichost.Upload.{Fault, api, error_json, internal_server_error, ImageRow, UploadResult, from_row}
use pichost.Upload.Gallery.{
  FetchedRow, decode_all, decoded, ImageListQuery, ImageListResponse, Listing, Bind, fetch_count,
  fetch_rows, id, text, number, placeholder, is_some, has_search, count_if, calc_total_pages,
  page_of, per_page_of, offset_of, count_binds, list_binds,
}
use pichost.Upload.Gallery as Gallery

abbrev pub internal : Fault
internal = api (error_json internal_server_error "common.internal_error")

abbrev or_internal : {A : Type 0} → Result String A → Listing A
or_internal r = ret (map_err (λ _. internal) r)

abbrev rows_or_internal : Result String (List FetchedRow) → Listing (List ImageRow)
rows_or_internal r = or_internal (decoded r)

-- The filters of a statement, each with its placeholder; `column` prefixes a column's name.
abbrev filters : (String → String) → Bool → Bool → Bool → String → String
filters column search config category sql =
    let n1 = count_if search 1 in
    let n2 = count_if config n1 in
    let n3 = count_if category n2 in
    let s1 =
      if search
      then sql ⧺ " AND LOWER(" ⧺ column "original_name" ⧺ ") LIKE LOWER(" ⧺ placeholder n1 ⧺ ")"
      else sql in
    let s2 =
      if config then s1 ⧺ " AND " ⧺ column "storage_config_id" ⧺ " = " ⧺ placeholder n2 else s1 in
    if category then s2 ⧺ " AND " ⧺ column "category_id" ⧺ " = " ⧺ placeholder n3 else s2

unfoldable pub build_count_sql : String → Option Uuid → Option Uuid → String
build_count_sql term config_id category_id =
    filters (λ c. c) (has_search term) (is_some config_id) (is_some category_id)
      "SELECT COUNT(*) FROM images WHERE user_id = $1"

abbrev columns : String
columns =
    "SELECT i.id,i.public_key,i.original_name,i.url,i.mime_type,i.file_size,i.sha256,i.width,i.height,i.status,i.thumbnail_url,i.webp_url,i.created_at,i.category_id,i.storage_config_id,c.name,c.provider FROM images i LEFT JOIN user_storage_configs c ON i.storage_config_id = c.id WHERE i.user_id = $1"

unfoldable pub build_list_sql : String → Option Uuid → Option Uuid → String → String → String
build_list_sql term config_id category_id sort_col order_dir =
    let search = has_search term in
    let config = is_some config_id in
    let category = is_some category_id in
    let n = count_if category (count_if config (count_if search 1)) in
    filters (λ c. "i." ⧺ c) search config category columns
    ⧺ " ORDER BY i."
    ⧺ sort_col
    ⧺ " "
    ⧺ order_dir
    ⧺ " LIMIT "
    ⧺ placeholder (n + 1)
    ⧺ " OFFSET "
    ⧺ placeholder (n + 2)

unfoldable pub count_user_images : Uuid → String → Option Uuid → Option Uuid → Listing ℕ
count_user_images user_id term config_id category_id =
    send
      (fetch_count (build_count_sql term config_id category_id)
        (count_binds user_id term config_id category_id))
      or_internal

unfoldable pub fetch_user_images :
    Uuid → String → String → String → ℕ → ℕ → Option Uuid → Option Uuid → Listing (List ImageRow)
fetch_user_images user_id sort_col order_dir term limit offset config_id category_id =
    send
      (fetch_rows (build_list_sql term config_id category_id sort_col order_dir)
        (list_binds user_id term config_id category_id limit offset))
      rows_or_internal

unfoldable pub resolve_sort : ImageListQuery → String × String
resolve_sort q = (
  (if q.sort =ₛ "created_at" || q.sort =ₛ "file_size" || q.sort =ₛ "original_name"
      then q.sort
      else "created_at"),
  (if q.order =ₛ "asc" || q.order =ₛ "ASC" then "ASC" else "DESC"),
)

unfoldable pub map_rows_to_results : List ImageRow → List UploadResult
map_rows_to_results rows = map from_row rows

-- The page and its offset are computed in `u32`, as in services/upload.rs.
unfoldable pub list_images : Uuid → ImageListQuery → Listing ImageListResponse
unfolding count_user_images fetch_user_images resolve_sort map_rows_to_results
list_images user_id q = do
  let term = trim q.search
  total ← count_user_images user_id term q.storage_config_id q.category_id
  rows ←
      fetch_user_images user_id (resolve_sort q).0 (resolve_sort q).1 term (per_page_of q)
        (offset_of q) q.storage_config_id q.category_id
  pure (record {
    items = map_rows_to_results rows;
    total = total;
    page = page_of q;
    per_page = per_page_of q;
    total_pages = calc_total_pages total (per_page_of q);
  })

abbrev count_text : String
count_text = "SELECT COUNT(*) FROM images WHERE user_id = $1"

-- What the joined statement fetches of an image, and what one without the join does.
abbrev pub with_config : ImageRow → FetchedRow
with_config i = record { columns = i; has_config = true }

abbrev pub without_config : ImageRow → FetchedRow
without_config i = record { columns = i; has_config = false }

pub decode_all-with_config : (is : List ImageRow) → decode_all (map with_config is) ≡ ok is
unfolding decode_all
decode_all-with_config [] = refl
decode_all-with_config (i ∷ is) = rw (decode_all-with_config is) refl
