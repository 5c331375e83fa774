-- ===== src/Upload/Gallery.antt =====
-- The list of a user's images: `list_user_images` and what it calls, in services/upload.rs. Numbers
-- are `u32` where the source's are; products wrap, as in a release build. `trim` of the standard
-- library is a parameter. The statement's text and the values that are bound go to the database.
pub mod Paging
pub mod Statements
mod Examples
use pichost.Common.{
  ℕ, zero, suc, ◌+◌, ◌-◌, ◌*◌, ◌/◌, ◌%◌, ◌^◌, String, List, [], ◌∷◌, ◌++◌, map, Option, none, some,
  Bool, true, false, Result, ok, err, map_err, ◌==◌, leb, ◌=ₛ◌, ◌||◌, if◌then◌else◌, min, max,
}
use pichost.Prog.{Prog, ret, send, ◌>>=◌, ◌>>◌, pure}
use pichost.Storage.{◌⧺◌}
use pichost.TaskQueue.{Uuid}
use pichost.Upload.{Fault, ImageRow, UploadResult, from_row}
use pichost.Upload.Checks.{api_error}

pub record ImageListQuery : Type 0 where
  pub page : ℕ
  pub per_page : ℕ
  pub sort : String
  pub order : String
  pub search : String
  pub storage_config_id : Option Uuid
  pub category_id : Option Uuid

pub record ImageListResponse : Type 0 where
  pub items : List UploadResult
  pub total : ℕ
  pub page : ℕ
  pub per_page : ℕ
  pub total_pages : ℕ

pub data Bind : Type 0 where
  id : Uuid → Bind
  text : String → Bind
  number : ℕ → Bind

pub data Query : Type 0 where
  fetch_count : (sql : String) (binds : List Bind) → Query
  fetch_rows : (sql : String) (binds : List Bind) → Query

-- A row as the database sends it. `ImageRow` also needs the columns `name` and `provider` of a
-- configuration, which a row only has if its statement selects them.
pub record FetchedRow : Type 0 where
  pub columns : ImageRow
  pub has_config : Bool

abbrev decode : FetchedRow → Result String ImageRow
decode r = if r.has_config then ok r.columns else err "no column found for name: name"

-- `fetch_all` ends at the first row that is not decoded.
unfoldable pub decode_all : List FetchedRow → Result String (List ImageRow)
decode_all [] = ok []
decode_all (r ∷ rs) =
    let rest = decode_all rs in
    elim (decode r) [ err e ↦ err e | ok i ↦ elim rest [ err e ↦ err e | ok is ↦ ok (i ∷ is) ] ]

abbrev pub decoded : Result String (List FetchedRow) → Result String (List ImageRow)
decoded (ok rs) = decode_all rs
decoded (err e) = err e

abbrev pub Rows : Query → Type 0
Rows (fetch_count s b) = Result String ℕ
Rows (fetch_rows s b) = Result String (List FetchedRow)

abbrev pub Listing : Type 0 → Type 0
Listing A = Prog Query Rows (Result Fault A)

unfoldable pub normalize_sort : String → String
normalize_sort sort =
    if sort =ₛ "created_at" || sort =ₛ "file_size" || sort =ₛ "original_name"
    then sort
    else "created_at"

unfoldable pub normalize_order : String → String
normalize_order order = if order =ₛ "asc" || order =ₛ "ASC" then "ASC" else "DESC"

-- `ceil` of a quotient of two `f64`, which is exact below the bound of the cast to `u32`.
unfoldable pub calc_total_pages : ℕ → ℕ → ℕ
calc_total_pages total per_page =
    if total == 0 then 1 else min (2 ^ 32 - 1) ((total + per_page - 1) / per_page)

-- `page.max(1)`, `per_page.clamp(1, 100)` and the offset in `u32`.
unfoldable pub page_of : ImageListQuery → ℕ
page_of q = max q.page 1

unfoldable pub per_page_of : ImageListQuery → ℕ
per_page_of q = min (max q.per_page 1) 100

unfoldable pub offset_of : ImageListQuery → ℕ
unfolding page_of per_page_of
offset_of q = (page_of q - 1) * per_page_of q % 2 ^ 32

-- `${n}`; at most six values are bound.
abbrev pub placeholder : ℕ → String
placeholder n =
    if n == 1
    then "$1"
    else if n == 2
    then "$2"
    else if n == 3
    then "$3"
    else if n == 4
    then "$4"
    else if n == 5
    then "$5"
    else "$6"

abbrev pub is_some {ℓ} : {A : Type ℓ} → Option A → Bool
is_some none = false
is_some (some a) = true

abbrev pub is_empty : String → Bool
is_empty s = s =ₛ ""

abbrev pub count_if : Bool → ℕ → ℕ
count_if b n = if b then n + 1 else n

-- The filters of both statements, numbered from the last placeholder that is in use.
abbrev pub filters : Bool → Bool → Bool → String → String
filters search config category sql =
    let n1 = count_if search 1 in
    let n2 = count_if config n1 in
    let n3 = count_if category n2 in
    let s1 =
      if search
      then sql ⧺ " AND LOWER(original_name) LIKE LOWER(" ⧺ placeholder n1 ⧺ ")"
      else sql in
    let s2 = if config then s1 ⧺ " AND storage_config_id = " ⧺ placeholder n2 else s1 in
    if category then s2 ⧺ " AND category_id = " ⧺ placeholder n3 else s2

abbrev pub has_search : String → Bool
has_search term = if is_empty term then false else true

unfoldable pub build_count_sql : String → Option Uuid → Option Uuid → String
build_count_sql term config_id category_id =
    filters (has_search term) (is_some config_id) (is_some category_id)
      "SELECT COUNT(*) FROM images WHERE user_id = $1"

abbrev pub columns : String
columns =
    "SELECT id,public_key,original_name,url,mime_type,file_size,sha256,width,height,status,thumbnail_url,webp_url,created_at,category_id,storage_config_id FROM images WHERE user_id = $1"

abbrev pub list_sql : Bool → Bool → Bool → String → String → String
list_sql search config category sort_col order_dir =
    let n = count_if category (count_if config (count_if search 1)) in
    filters search config category columns
    ⧺ " ORDER BY "
    ⧺ sort_col
    ⧺ " "
    ⧺ order_dir
    ⧺ " LIMIT "
    ⧺ placeholder (n + 1)
    ⧺ " OFFSET "
    ⧺ placeholder (n + 2)

unfoldable pub build_list_sql : String → Option Uuid → Option Uuid → String → String → String
build_list_sql term config_id category_id sort_col order_dir =
    list_sql (has_search term) (is_some config_id) (is_some category_id) sort_col order_dir

abbrev bind_term : String → List Bind
bind_term term = if is_empty term then [] else text ("%" ⧺ term ⧺ "%") ∷ []

abbrev bind_id : Option Uuid → List Bind
bind_id none = []
bind_id (some i) = id i ∷ []

-- The values that `count_user_images` binds; `fetch_user_images` binds two more.
unfoldable pub count_binds : Uuid → String → Option Uuid → Option Uuid → List Bind
count_binds user_id term config_id category_id =
    id user_id ∷ (bind_term term ++ (bind_id config_id ++ bind_id category_id))

unfoldable pub list_binds : Uuid → String → Option Uuid → Option Uuid → ℕ → ℕ → List Bind
unfolding count_binds
list_binds user_id term config_id category_id limit offset =
    count_binds user_id term config_id category_id ++ (number limit ∷ number offset ∷ [])

unfoldable pub count_user_images : Uuid → String → Option Uuid → Option Uuid → Listing ℕ
count_user_images user_id term config_id category_id =
    send
      (fetch_count (build_count_sql term config_id category_id)
        (count_binds user_id term config_id category_id))
      λ r. ret (map_err (λ _. api_error) r)

unfoldable pub fetch_user_images :
    Uuid → String → String → String → ℕ → ℕ → Option Uuid → Option Uuid → Listing (List ImageRow)
fetch_user_images user_id sort_col order_dir term limit offset config_id category_id =
    send
      (fetch_rows (build_list_sql term config_id category_id sort_col order_dir)
        (list_binds user_id term config_id category_id limit offset))
      λ r. ret (map_err (λ _. api_error) (decoded r))

module _ (trim : String → String) where
  unfoldable pub list_user_images : Uuid → ImageListQuery → Listing ImageListResponse
  unfolding count_user_images fetch_user_images
  list_user_images user_id q = do
    let term = trim q.search
    total ← count_user_images user_id term q.storage_config_id q.category_id
    rows ←
        fetch_user_images user_id (normalize_sort q.sort) (normalize_order q.order) term
          (per_page_of q) (offset_of q) q.storage_config_id q.category_id
    pure (record {
      items = map from_row rows;
      total = total;
      page = page_of q;
      per_page = per_page_of q;
      total_pages = calc_total_pages total (per_page_of q);
    })
