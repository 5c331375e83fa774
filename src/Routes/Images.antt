-- ===== src/Routes/Images.antt =====
-- Images after their upload: the handlers of pichost-api/src/routes/images.rs that show, serve,
-- rename, move and remove them, with cached_meta and cached_thumb of pichost-api/src/cache/mod.rs.
-- This file has the data and the calls. The rows of `images` and `categories`, the objects of the
-- backends and the entries of the two caches are a `World`; an object stands at a place, the
-- number that the parameter `place` gives a backend, under a key. `exec` gives each call its
-- meaning; calls fail where `down` says so.
pub mod Handlers
pub mod Removal
pub mod Removed
pub mod Deleted
pub mod Rows
pub mod Cached
pub mod Coherent
pub mod Requests
mod Examples
pub mod Serving
pub mod Listing
pub mod Pages
use pichost.Common.{
  ℕ, ◌+◌, String, List, [], ◌∷◌, Option, none, some, Result, ok, err, Bool, true, false, not, ◌&&◌,
  ◌||◌, ◌==◌, ◌=ₛ◌, if◌then◌else◌, any, select, map, length, ok_or,
}
use pichost.Prog.{Prog}
use pichost.Storage.{StorageError, read_failed, write_failed, Backend}
use pichost.TaskQueue.{Uuid}
use pichost.Upload.{Bytes, Fault, ImageRow, UploadResult}
use pichost.Routes.Categories.{Category, find, is_own}

-- A row of `images`; `shown` has the columns that an answer is made of, with the name and the
-- provider of the configuration, which the statements join.
pub record Image : Type 0 where
  pub user_id : Uuid
  pub shown : ImageRow
  pub storage_key : String
  pub storage_backend : String
  pub thumbnail_key : Option String
  pub webp_key : Option String

-- What a removal reads of a row.
pub record Target : Type 0 where
  pub storage_key : String
  pub storage_backend : String
  pub thumbnail_key : Option String
  pub webp_key : Option String

-- What `public_get` reads of a row.
pub record PublicRow : Type 0 where
  pub storage_key : String
  pub mime_type : String
  pub status : String
  pub storage_backend : String

pub data Call : Type 0 where
  select_image : (id user_id : Uuid) → Call
  rename : (name : String) (id user_id : Uuid) → Call
  select_target : (id user_id : Uuid) (is_admin : Bool) → Call
  select_targets : (ids : List Uuid) (user_id : Uuid) (is_admin : Bool) → Call
  delete_row : (id : Uuid) → Call
  delete_rows : (ids : List Uuid) → Call
  select_category : (id user_id : Uuid) → Call
  set_category : (category_id : Option Uuid) (id user_id : Uuid) → Call
  set_categories : (category_id user_id : Uuid) (ids : List Uuid) → Call
  select_public : (public_key : String) → Call
  select_thumb : (id : Uuid) → Call
  select_thumb_by_key : (public_key : String) → Call
  select_webp : (id : Uuid) → Call
  read_object : (backend : Backend) (key : String) → Call
  remove_object : (backend : Backend) (key : String) → Call
  -- The entries `pichost:meta:{id}`, as the values that their JSON stands for.
  get_meta : (id : Uuid) → Call
  set_meta : (id : Uuid) (val : UploadResult) (ttl : ℕ) → Call
  del_meta : (id : Uuid) → Call
  get_bytes : (key : String) → Call
  set_bytes : (key : String) (val : Bytes) (ttl : ℕ) → Call

abbrev pub Answer : Call → Type 0
Answer (select_image i u) = Result String (Option ImageRow)
Answer (rename n i u) = Result String ℕ
Answer (select_target i u a) = Result String (Option Target)
Answer (select_targets is u a) = Result String (List Target)
Answer (delete_row i) = Result String ℕ
Answer (delete_rows is) = Result String ℕ
Answer (select_category i u) = Result String (Option Category)
Answer (set_category c i u) = Result String ℕ
Answer (set_categories c u is) = Result String ℕ
Answer (select_public k) = Result String (Option PublicRow)
Answer (select_thumb i) = Result String (Option (Option String × String))
Answer (select_thumb_by_key k) = Result String (Option (Option String × String))
Answer (select_webp i) = Result String (Option (Option String × String))
Answer (read_object b k) = Result StorageError Bytes
Answer (remove_object b k) = Result StorageError (Unit {0})
Answer (get_meta i) = Result String (Option UploadResult)
Answer (set_meta i v t) = Result String (Unit {0})
Answer (del_meta i) = Result String (Unit {0})
Answer (get_bytes k) = Result String (Option Bytes)
Answer (set_bytes k v t) = Result String (Unit {0})

pub record Object : Type 0 where
  pub site : ℕ
  pub key : String
  pub content : Bytes

-- The entries of the caches are those that have not expired.
pub record World : Type 0 where
  pub images : List Image
  pub categories : List Category
  pub objects : List Object
  pub metas : List (Uuid × UploadResult)
  pub blobs : List (String × Bytes)

abbrev pub first : {A : Type 0} → (A → Bool) → List A → Option A
first p [] = none
first p (x ∷ xs) = if p x then some x else first p xs

abbrev pub has_id : Uuid → Image → Bool
has_id i r = r.shown.id == i

abbrev pub is_owned : Uuid → Uuid → Image → Bool
is_owned i u r = has_id i r && r.user_id == u

-- `id IN (…)`
abbrev pub is_listed : List Uuid → Image → Bool
is_listed is r = any (λ i. r.shown.id == i) is

abbrev pub may_remove : Uuid → Bool → Image → Bool
may_remove u a r = r.user_id == u || a

abbrev pub target_of : Image → Target
target_of r = record {
  storage_key = r.storage_key;
  storage_backend = r.storage_backend;
  thumbnail_key = r.thumbnail_key;
  webp_key = r.webp_key;
}

abbrev public_row : Image → PublicRow
public_row r = record {
  storage_key = r.storage_key;
  mime_type = r.shown.mime_type;
  status = r.shown.status;
  storage_backend = r.storage_backend;
}

-- `status IN ('active', 'ready')`
abbrev pub is_visible : Image → Bool
is_visible r = r.shown.status =ₛ "active" || r.shown.status =ₛ "ready"

abbrev option_map : {A B : Type 0} → (A → B) → Option A → Option B
option_map f none = none
option_map f (some a) = some (f a)

abbrev pub set_name : String → Image → Image
set_name n r = record r { shown = record r.shown { original_name = n } }

abbrev pub put_into : Option Uuid → Image → Image
put_into c r = record r { shown = record r.shown { category_id = c } }

-- `UPDATE images SET … WHERE …`
abbrev pub update : (Image → Bool) → (Image → Image) → List Image → List Image
update p f rows = map (λ r. if p r then f r else r) rows

abbrev pub find_entry : Uuid → List (Uuid × UploadResult) → Option UploadResult
find_entry i [] = none
find_entry i ((j, v) ∷ es) = if j == i then some v else find_entry i es

abbrev pub without : Uuid → List (Uuid × UploadResult) → List (Uuid × UploadResult)
without i [] = []
without i ((j, v) ∷ es) = if j == i then without i es else (j, v) ∷ without i es

abbrev find_blob : String → List (String × Bytes) → Option Bytes
find_blob k [] = none
find_blob k ((j, v) ∷ es) = if j =ₛ k then some v else find_blob k es

abbrev pub is_at : ℕ → String → Object → Bool
is_at n k o = o.site == n && o.key =ₛ k

abbrev keys_at : (Image → Option String) → Image → Option String × String
keys_at f r = (f r, r.storage_backend)

abbrev pub gone : {A : Type 0} → (A → Bool) → List A → List A
gone p xs = select (λ x. not (p x)) xs

abbrev content_of : Option Object → Result StorageError Bytes
content_of o = ok_or (option_map (λ (x : Object). x.content) o) (read_failed "no such object")

module _ (place : Backend → ℕ) (down : Call → Bool) where
  abbrev reply : {A : Type 0} → Call → A → World → World → Result String A × World
  reply c a w w' = if down c then (err "down", w) else (ok a, w')

  unfoldable pub exec : (c : Call) → World → Answer c × World
  exec (select_image i u) w =
      reply (select_image i u) (option_map (λ r. r.shown) (first (is_owned i u) w.images)) w w
  exec (rename n i u) w =
      reply (rename n i u) (length (select (is_owned i u) w.images)) w
        (record w { images = update (is_owned i u) (set_name n) w.images })
  exec (select_target i u a) w =
      reply (select_target i u a)
        (option_map target_of (first (λ r. has_id i r && may_remove u a r) w.images)) w w
  exec (select_targets is u a) w =
      reply (select_targets is u a)
        (map target_of (select (λ r. is_listed is r && may_remove u a r) w.images)) w w
  exec (delete_row i) w =
      reply (delete_row i) (length (select (has_id i) w.images)) w
        (record w { images = gone (has_id i) w.images })
  exec (delete_rows is) w =
      reply (delete_rows is) (length (select (is_listed is) w.images)) w
        (record w { images = gone (is_listed is) w.images })
  exec (select_category i u) w = reply (select_category i u) (find (is_own i u) w.categories) w w
  exec (set_category c i u) w =
      reply (set_category c i u) (length (select (is_owned i u) w.images)) w
        (record w { images = update (is_owned i u) (put_into c) w.images })
  exec (set_categories c u is) w =
      let mine = λ (r : Image). r.user_id == u && is_listed is r in
      reply (set_categories c u is) (length (select mine w.images)) w
        (record w { images = update mine (put_into (some c)) w.images })
  exec (select_public k) w =
      reply (select_public k)
        (option_map public_row (first (λ r. r.shown.public_key =ₛ k) w.images)) w w
  exec (select_thumb i) w =
      reply (select_thumb i)
        (option_map (keys_at (λ r. r.thumbnail_key))
          (first (λ r. has_id i r && is_visible r) w.images))
        w w
  exec (select_thumb_by_key k) w =
      reply (select_thumb_by_key k)
        (option_map (keys_at (λ r. r.thumbnail_key))
          (first (λ r. r.shown.public_key =ₛ k && is_visible r) w.images))
        w w
  exec (select_webp i) w =
      reply (select_webp i)
        (option_map (keys_at (λ r. r.webp_key)) (first (λ r. has_id i r && is_visible r) w.images))
        w w
  exec (read_object b k) w =
      if down (read_object b k)
      then (err (read_failed "down"), w)
      else (content_of (first (is_at (place b) k) w.objects), w)
  exec (remove_object b k) w =
      if down (remove_object b k)
      then (err (write_failed "down"), w)
      else (ok tt, record w { objects = gone (is_at (place b) k) w.objects })
  exec (get_meta i) w = reply (get_meta i) (find_entry i w.metas) w w
  exec (set_meta i v t) w =
      reply (set_meta i v t) tt w (record w { metas = (i, v) ∷ without i w.metas })
  exec (del_meta i) w = reply (del_meta i) tt w (record w { metas = without i w.metas })
  exec (get_bytes k) w = reply (get_bytes k) (find_blob k w.blobs) w w
  exec (set_bytes k v t) w = reply (set_bytes k v t) tt w (record w { blobs = (k, v) ∷ w.blobs })

abbrev pub Handler : Type 0 → Type 0
Handler A = Prog Call Answer (Result Fault A)
