-- ===== src/Routes/Images/Examples.antt =====
-- Two users' images in a local backend, and the theorems at them.
use pichost.Common.{
  ℕ, ◌≡◌, refl, String, List, map, take, drop, if◌then◌else◌, [], ◌∷◌, Option, none, some, ok, err,
  Bool, true, false, arith, length, not, select, ◌≤◌,
}
use pichost.Prog.{run}
use pichost.Storage.{Backend, local}
use pichost.Storage.Router.{StorageRouter, for_backend}
use pichost.TaskQueue.{Uuid}
use pichost.Upload.{AuthUser, ImageRow, from_row}
use pichost.Routes.Images.{Image, Call, World, Object, exec, delete_row, target_of, has_id}
use pichost.Routes.Images.Handlers.{failure, get_image, cached_meta}
use pichost.Routes.Images.Removal.{
  delete_image, batch_delete, cleanup_storage_files, fetch_delete_target,
}
use pichost.Routes.Images.Removed.{Kept, is_file_of}
use pichost.Routes.Images.Deleted.{up, delete_image_lem, delete_image-fails, batch_delete-unowned}
use package.text.Mathlib.Text.{starts_with}
use pichost.Routes.Images.Listing.{with_config, without_config}
use pichost.Upload.Gallery as Gallery
use pichost.Upload.Gallery.{
  Query, Rows, Bind, id, text, number, fetch_count, fetch_rows, ImageListQuery,
}
use pichost.Routes.Images.Cached.{IsCoherent, get_image-anybody}
use pichost.Routes.Images.Requests.{
  show, rename_to, move_to, delete, delete_all, expire, perform_all, perform_all-IsCoherent,
}

abbrev row : ℕ → ImageRow
row n = record {
  id = n;
  public_key = "key";
  original_name = "cat.png";
  url = "http://h/u/key";
  mime_type = "image/png";
  file_size = 3;
  sha256 = "abc";
  width = none;
  height = none;
  status = "ready";
  thumbnail_url = none;
  webp_url = none;
  created_at = 1;
  category_id = none;
  storage_config_id = none;
  name = none;
  provider = none;
}

abbrev image : ℕ → ℕ → String → Option String → Image
image n u key thumb = record {
  user_id = u;
  shown = row n;
  storage_key = key;
  storage_backend = "local";
  thumbnail_key = thumb;
  webp_key = none;
}

abbrev disk : Backend
disk = local "/data" "http://h"

abbrev router : StorageRouter
router = record { backends = ("local", disk) ∷ []; default = "local"; poisoned = false }

abbrev place : Backend → ℕ
place b = 0

abbrev object : String → Object
object k = record { site = 0; key = k; content = 1 ∷ [] }

abbrev ann : AuthUser
ann = record { id = 1; is_admin = false; storage_quota = none }

abbrev bob : AuthUser
bob = record { id = 2; is_admin = false; storage_quota = none }

abbrev world : World
world = record {
  images = image 10 1 "1/a" (some "1/thumb.10") ∷ image 20 2 "2/b" none ∷ [];
  categories = [];
  objects = object "1/a" ∷ object "1/thumb.10" ∷ object "2/b" ∷ [];
  metas = [];
  blobs = [];
}

abbrev after_delete : World
after_delete = record world { images = image 20 2 "2/b" none ∷ []; objects = object "2/b" ∷ [] }

local_resolved : for_backend router "local" ≡ some disk
unfolding for_backend
local_resolved = refl

delete_image_lem_example :
    run (exec place up) (delete_image router ann 10) world ≡ (ok 10, after_delete)
delete_image_lem_example =
    delete_image_lem place router ann 10 world (image 10 1 "1/a" (some "1/thumb.10")) disk refl
      local_resolved

-- The row's statement fails when the files are gone already.
abbrev no_deletes : Call → Bool
no_deletes (delete_row i) = true
no_deletes c = false

abbrev half_deleted : World
half_deleted = record world { objects = object "2/b" ∷ [] }

deletion_fails :
    run (exec place no_deletes) (delete_image router ann 10) world
    ≡ (err (failure 500 "image.delete_failed"), half_deleted)
unfolding delete_image cleanup_storage_files for_backend fetch_delete_target run exec
deletion_fails = refl

delete_image-fails_example :
    Kept
      (λ o. not (is_file_of place router (target_of (image 10 1 "1/a" (some "1/thumb.10"))) o))
      world
      half_deleted
delete_image-fails_example =
    delete_image-fails place router no_deletes ann 10 world half_deleted
      (failure 500 "image.delete_failed") deletion_fails

-- Bob removes an image of Ann, and its files stay.
batch_delete-unowned_example :
    let r = run (exec place up) (batch_delete router bob (10 ∷ [])) world in
    (r.0 ≡ ok (1, 0)) × (r.1.images ≡ image 20 2 "2/b" none ∷ []) × (r.1.objects ≡ world.objects)
batch_delete-unowned_example =
    batch_delete-unowned place router bob (10 ∷ []) world (omega arith) (omega arith) refl

abbrev shown_to_ann : World
shown_to_ann = record world { metas = (10, from_row (row 10)) ∷ [] }

ann_asks : run (exec place up) (get_image ann 10) world ≡ (ok (from_row (row 10)), shown_to_ann)
unfolding get_image cached_meta run exec
ann_asks = refl

get_image-anybody_example :
    run (exec place up) (get_image bob 10) shown_to_ann ≡ (ok (from_row (row 10)), shown_to_ann)
get_image-anybody_example =
    get_image-anybody place ann bob 10 world shown_to_ann (from_row (row 10)) ann_asks

two_images : (i : Uuid) → length (select (has_id i) world.images) ≤ 1
two_images i = ground arith

perform_all-IsCoherent_example : IsCoherent (
    perform_all place router
      ((ann, show 10)
        ∷ (bob, show 10)
        ∷ (ann, rename_to 10 "dog.png")
        ∷ (ann, expire 20)
        ∷ (ann, move_to 10 none)
        ∷ (bob, delete_all (10 ∷ []))
        ∷ (bob, delete 20)
        ∷ [])
      world)
perform_all-IsCoherent_example =
    perform_all-IsCoherent place router
      ((ann, show 10)
        ∷ (bob, show 10)
        ∷ (ann, rename_to 10 "dog.png")
        ∷ (ann, expire 20)
        ∷ (ann, move_to 10 none)
        ∷ (bob, delete_all (10 ∷ []))
        ∷ (bob, delete 20)
        ∷ [])
      world (record { keyed = two_images; current = tt })

abbrev rows : List ImageRow
rows = row 10 ∷ row 20 ∷ row 30 ∷ []

abbrev page_from : List Bind → List ImageRow
page_from (id u ∷ text t ∷ number limit ∷ number offset ∷ []) = take limit (drop offset rows)
page_from _ = []

-- A database that finds these images, with the columns that the statement selects.
abbrev finds : (c : Query) → Unit {0} → Rows c × Unit {0}
finds (fetch_count sql binds) d = (ok 3, d)
finds (fetch_rows sql binds) d = (
  ok (map (if starts_with sql "SELECT i." then with_config else without_config) (page_from binds)),
  d,
)

abbrev query : ImageListQuery
query = record {
  page = 1;
  per_page = 20;
  sort = "file_size";
  order = "asc";
  search = " cat ";
  storage_config_id = none;
  category_id = none;
}

abbrev by_two : ImageListQuery
by_two = record query { per_page = 2 }
