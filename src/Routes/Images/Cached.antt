-- ===== src/Routes/Images/Cached.antt =====
-- The cache of image details: who reads it, and that it agrees with the rows.
use pichost.Common.{
  ℕ, ◌≡◌, refl, List, [], ◌∷◌, ok, false, ◌==◌, arith, select, map, inl, inr, Bool-cases, All,
  All-imp,
}
use pichost.Prog.{run}
use pichost.Storage.{Backend}
use pichost.TaskQueue.{Uuid}
use pichost.Upload.{AuthUser, UploadResult}
use pichost.Routes.Images.{Image, World, exec, has_id, without}
use pichost.Routes.Images.Handlers.{get_image, cached_meta}
use pichost.Routes.Images.Deleted.{up, clear_cache, clear_cache-images}
use pichost.Routes.Images.Rows.{result_of, IsKeyed, names}

module _ (place : Backend → ℕ) where
  -- When no call fails, whatever a request for an image's details was answered, the next request of
  -- anybody for the same id is answered too while the entry lives, and nothing changes.
  pub get_image-anybody :
      (user other : AuthUser) (id : Uuid) (w w' : World) (result : UploadResult)
      → run (exec place up) (get_image user id) w ≡ (ok result, w')
      → run (exec place up) (get_image other id) w' ≡ (ok result, w')
  unfolding get_image cached_meta run exec
  get_image-anybody user other id w w' result h = ground (arith, h)

-- Exactly one row has the entry's id, and the entry is what is answered for it.
abbrev pub IsCurrent : List Image → Uuid × UploadResult → Type 0
IsCurrent rows (i, v) = map result_of (select (has_id i) rows) ≡ v ∷ []

pub record IsCoherent (w : World) : Type 0 where
  pub keyed : IsKeyed w.images
  pub current : All (IsCurrent w.images) w.metas

abbrev without_all : List Uuid → List (Uuid × UploadResult) → List (Uuid × UploadResult)
without_all [] es = es
without_all (i ∷ is) es = without_all is (without i es)

clear_cache-metas : (is : List Uuid) (w : World) → (clear_cache is w).metas ≡ without_all is w.metas
clear_cache-metas [] w = refl
clear_cache-metas (i ∷ is) w = clear_cache-metas is (record w { metas = without i w.metas })

module _ (Q : Uuid × UploadResult → Type 0) where
  pub All-without :
      (i : Uuid) (es : List (Uuid × UploadResult))
      → All Q es
      → All (λ e. Q e × ((e.0 == i) ≡ false)) (without i es)
  All-without i [] h = tt
  All-without i ((j, v) ∷ es) (q, h) = elim (Bool-cases (j == i)) [
    | inl e ↦ rw e (All-without i es h)
    | inr e ↦ rw e ((q, e), All-without i es h)
  ]

All-without_all :
    (Q : Uuid × UploadResult → Type 0) (is : List Uuid) (es : List (Uuid × UploadResult))
    → All Q es
    → All (λ e. Q e × (names is e.0 ≡ false)) (without_all is es)
All-without_all Q [] es h = All-imp Q (λ e. Q e × (names [] e.0 ≡ false)) (λ e q. (q, refl)) es h
All-without_all Q (i ∷ is) es h =
    let Q' = λ (e : Uuid × UploadResult). Q e × ((e.0 == i) ≡ false) in
    All-imp (λ e. Q' e × (names is e.0 ≡ false)) (λ e. Q e × (names (i ∷ is) e.0 ≡ false))
      (λ e q. (q.0.0, ground (arith, q.0.1, q.1))) (without_all is (without i es))
      (All-without_all Q' is (without i es) (All-without Q i es h))

-- A change of rows with certain ids, after which the entries of these ids are dropped.
pub commit :
    (is : List Uuid) (w : World) (rows : List Image)
    → IsCoherent w
    → IsKeyed rows
    → ((j : Uuid) → names is j ≡ false → select (has_id j) rows ≡ select (has_id j) w.images)
    → IsCoherent (clear_cache is (record w { images = rows }))
commit is w rows h keyed same =
    let v : World = record w { images = rows } in
    let cur =
      All-imp (λ e. IsCurrent w.images e × (names is e.0 ≡ false)) (IsCurrent rows)
        (λ e q. rw (same e.0 q.1) q.0) (without_all is w.metas)
        (All-without_all (IsCurrent w.images) is w.metas h.current) in
    record {
      keyed = rw (clear_cache-images is v) keyed;
      current = rw (clear_cache-images is v) (rw (clear_cache-metas is v) cur);
    }
