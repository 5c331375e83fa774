-- ===== src/Routes/Images/Pages.antt =====
-- The pages of the route's list.
use Prim.Native.Nat.mul
use pichost.Common.{
  ℕ, zero, suc, ◌≡◌, List, [], ◌++◌, map, ok, length, Result, take, drop, err, trim,
}
use pichost.Prog.{run}
use pichost.TaskQueue.{Uuid}
use pichost.Upload.{ImageRow, UploadResult}
use pichost.Upload.Gallery.{
  ImageListQuery, ImageListResponse, Query, Rows, count_binds, list_binds, fetch_count, fetch_rows,
}
use pichost.Routes.Images.Listing.{
  list_images, build_count_sql, build_list_sql, resolve_sort, with_config,
}

-- The database behind the listing: a parameter.
pub record Listings : Type 1 where
  pub Db : Type 0
  pub handle : (c : Query) → Db → Rows c × Db

-- The two statements of the request `q`, whatever its page, answer from the rows `found`: how many
-- there are, and those from an offset on, up to a limit. Reading changes nothing.
pub record Finds (L : Listings) (user_id : Uuid) (q : ImageListQuery) (d : L.Db)
    (found : List ImageRow) : Type 0 where
  pub counts :
      L.handle
        (fetch_count
          (build_count_sql (trim q.search) q.storage_config_id q.category_id)
          (count_binds user_id (trim q.search) q.storage_config_id q.category_id))
        d
      ≡ (ok (length found), d)
  pub rows :
      (limit offset : ℕ)
      → L.handle
          (fetch_rows
            (build_list_sql
              (trim q.search)
              q.storage_config_id
              q.category_id
              (resolve_sort q).0
              (resolve_sort q).1)
            (list_binds user_id (trim q.search) q.storage_config_id q.category_id limit offset))
          d
        ≡ (ok (map with_config (take limit (drop offset found))), d)

abbrev pub items_of : {A B : Type 0} → Result A ImageListResponse × B → List UploadResult
items_of (ok r, d) = r.items
items_of (err e, d) = []

module _ (L : Listings) (user_id : Uuid) (q : ImageListQuery) (d : L.Db) (found : List ImageRow)
    (finds : Finds L user_id q d found) where
  abbrev pub shown : ℕ → List UploadResult
  shown n = items_of (run L.handle (list_images user_id (record q { page = n })) d)

  abbrev pub walk : ℕ → List UploadResult
  walk zero = []
  walk (suc n) = walk n ++ shown (suc n)
