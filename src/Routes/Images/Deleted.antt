-- ===== src/Routes/Images/Deleted.antt =====
-- What the two handlers that remove images come to.
use pichost.Common.{
  ℕ, ◌-◌, ◌≤◌, ◌≡◌, refl, sym, ◌∙◌, ap, subst, String, List, [], ◌∷◌, Option, none, some, Result,
  ok, err, Bool, true, false, not, ◌&&◌, ◌||◌, ◌==◌, ltb, arith, length, select, inl, inr,
  Bool-cases,
}
use pichost.Prog.{run, send, ◌>>=◌}
use pichost.Prog.Laws.{run->>=_elim, run->>=_ok}
use pichost.Storage.{Backend}
use pichost.Storage.Router.{StorageRouter, for_backend}
use pichost.TaskQueue.{Uuid}
use pichost.Upload.{Fault, AuthUser, internal_server_error}
use pichost.Routes.Images.{
  Image, Target, Call, World, Object, exec, gone, is_at, is_listed, may_remove, has_id, first,
  target_of, without, delete_row,
}
use pichost.Routes.Images.Handlers.{failure, or_fail, forget, forget_all, validate_batch_ids}
use pichost.Routes.Images.Removal.{
  cleanup_storage_files, fetch_delete_target, delete_image, cleanup_all, batch_delete,
}
use pichost.Routes.Images.Removed.{
  Kept, Kept-refl, is_file, is_file_of, cleanup_lem, cleanup-Kept, drop_files,
}

abbrev pub up : Call → Bool
up c = false

gone-gone :
    {A : Type 0} (p q : A → Bool) (xs : List A) → gone q (gone p xs) ≡ gone (λ x. p x || q x) xs
gone-gone p q [] = refl
gone-gone p q (x ∷ xs) = ground (arith, gone-gone p q xs)

gone-same :
    {A : Type 0} (p q : A → Bool) → ((x : A) → p x ≡ q x) → (xs : List A) → gone p xs ≡ gone q xs
gone-same p q f [] = refl
gone-same p q f (x ∷ xs) = ground (arith, f x, gone-same p q f xs)

abbrev pub clear_cache : List Uuid → World → World
clear_cache [] w = w
clear_cache (i ∷ is) w = clear_cache is (record w { metas = without i w.metas })

pub clear_cache-images : (is : List Uuid) (w : World) → (clear_cache is w).images ≡ w.images
clear_cache-images [] w = refl
clear_cache-images (i ∷ is) w = clear_cache-images is (record w { metas = without i w.metas })

clear_cache-objects : (is : List Uuid) (w : World) → (clear_cache is w).objects ≡ w.objects
clear_cache-objects [] w = refl
clear_cache-objects (i ∷ is) w = clear_cache-objects is (record w { metas = without i w.metas })

-- The row that a removal is about: the user's own, or anybody's for an administrator.
abbrev pub removable : AuthUser → Uuid → World → Option Image
removable user id w = first (λ r. has_id id r && may_remove user.id user.is_admin r) w.images

module _ (place : Backend → ℕ) where
  pub forget_all_lem :
      {A : Type 0} (is : List Uuid) (a : A) (w : World)
      → run (exec place up) (forget_all is a) w ≡ (ok a, clear_cache is w)
  unfolding forget_all run exec
  forget_all_lem [] a w = refl
  forget_all_lem (i ∷ is) a w = forget_all_lem is a (record w { metas = without i w.metas })

module _ (place : Backend → ℕ) (router : StorageRouter) where
  -- When no call fails, the files of the row are gone, and nothing else.
  drop_objects :
      (b : Backend) (sk sb : String) (tk wk : Option String) (w : World)
      → let t : Target = record {
        storage_key = sk;
        storage_backend = sb;
        thumbnail_key = tk;
        webp_key = wk;
      } in
        drop_files place router up b t w
        ≡ record w { objects = gone (is_file (place b) t) w.objects }
  unfolding exec
  drop_objects b sk sb none none w =
      let p = λ (o : Object). is_at (place b) sk o in
      let q = λ (o : Object). p o || false || false in
      ap (λ (os : List Object). record w { objects = os })
        (gone-same p q (λ o. ground arith) w.objects)
  drop_objects b sk sb (some j) none w =
      let p = λ (o : Object). is_at (place b) sk o || is_at (place b) j o in
      let q = λ (o : Object). is_at (place b) sk o || is_at (place b) j o || false in
      ap (λ (os : List Object). record w { objects = os })
        (gone-gone (is_at (place b) sk) (is_at (place b) j) w.objects
          ∙ gone-same p q (λ o. ground arith) w.objects)
  drop_objects b sk sb none (some k) w =
      let p = λ (o : Object). is_at (place b) sk o || is_at (place b) k o in
      let q = λ (o : Object). is_at (place b) sk o || false || is_at (place b) k o in
      ap (λ (os : List Object). record w { objects = os })
        (gone-gone (is_at (place b) sk) (is_at (place b) k) w.objects
          ∙ gone-same p q (λ o. ground arith) w.objects)
  drop_objects b sk sb (some j) (some k) w =
      let two = λ (o : Object). is_at (place b) sk o || is_at (place b) j o in
      let p = λ (o : Object). two o || is_at (place b) k o in
      let q = λ (o : Object). is_at (place b) sk o || is_at (place b) j o || is_at (place b) k o in
      ap (λ (os : List Object). record w { objects = os })
        (ap (gone (is_at (place b) k))
            (gone-gone (is_at (place b) sk) (is_at (place b) j) w.objects)
          ∙ gone-gone two (is_at (place b) k) w.objects
          ∙ gone-same p q (λ o. ground arith) w.objects)

  -- When no call fails, a user who may remove none of the images that a batch names, of 1 to 100
  -- ids, removes the rows of all of them, whoever owns them, and leaves every object in place.
  pub batch_delete-unowned :
      (user : AuthUser) (ids : List Uuid) (w : World)
      → 1 ≤ length ids
      → length ids ≤ 100
      → select (λ r. is_listed ids r && may_remove user.id user.is_admin r) w.images ≡ []
      → let r = run (exec place up) (batch_delete router user ids) w in
        let n = length (select (is_listed ids) w.images) in
        (r.0 ≡ ok (n, length ids - n))
        × (r.1.images ≡ gone (is_listed ids) w.images)
        × (r.1.objects ≡ w.objects)
  unfolding batch_delete validate_batch_ids cleanup_all run exec
  batch_delete-unowned user ids w low high none_owned =
      let some_ids : (length ids == 0) ≡ false = ground arith in
      let few_ids : ltb 100 (length ids) ≡ false = ground arith in
      let n = length (select (is_listed ids) w.images) in
      let w1 : World = record w { images = gone (is_listed ids) w.images } in
      rw some_ids (
        rw few_ids (
          rw (none_owned, run)
            (rw (forget_all_lem place {A = ℕ × ℕ} ids (n, length ids - n) w1)
              (refl, clear_cache-images ids w1, clear_cache-objects ids w1))))

  -- When no call fails, removing an image that the user may remove answers with its id, and what is
  -- gone is exactly its row, its objects in its backend and its entry in the cache.
  pub delete_image_lem :
      (user : AuthUser) (id : Uuid) (w : World) (r : Image) (b : Backend)
      → removable user id w ≡ some r
      → for_backend router r.storage_backend ≡ some b
      → run (exec place up) (delete_image router user id) w ≡ (
        ok id,
        record w {
          images = gone (has_id id) w.images;
          objects = gone (is_file (place b) (target_of r)) w.objects;
          metas = without id w.metas;
        },
      )
  unfolding delete_image fetch_delete_target run exec
  delete_image_lem user id w r b found resolved =
      let t = target_of r in
      let d : World = record w { objects = gone (is_file (place b) t) w.objects } in
      let cleaned =
        cleanup_lem place router up t b w resolved
        ∙ ap (λ (v : World). let a : Result Fault (Unit {0}) × World = (ok tt, v) in a)
            (drop_objects b r.storage_key r.storage_backend r.thumbnail_key r.webp_key w) in
      rw (found, run) (run->>=_ok (exec place up) (cleanup_storage_files router t) _ w d tt cleaned)

  abbrev not_of : Option Image → Object → Bool
  not_of none o = true
  not_of (some r) o = not (is_file_of place router (target_of r) o)

  abbrev OnError : {A : Type 0} → (Object → Bool) → World → Result Fault A × World → Type 0
  OnError p w (ok a, w') = Unit {0}
  OnError p w (err e, w') = Kept p w w'

  module _ (down : Call → Bool) where
    fetch-same :
        (user : AuthUser) (id : Uuid) (w d : World) (x : Result Fault Target)
        → run (exec place down) (fetch_delete_target id user) w ≡ (x, d)
        → d ≡ w
    unfolding fetch_delete_target run exec
    fetch-same user id w d x h = ground (arith, h)

    fetch-target :
        (user : AuthUser) (id : Uuid) (w d : World) (t : Target) (o : Option Image)
        → removable user id w ≡ o
        → run (exec place down) (fetch_delete_target id user) w ≡ (ok t, d)
        → (r : Image) × (o ≡ some r) × (t ≡ target_of r)
    unfolding fetch_delete_target run exec
    fetch-target user id w d t none e h = absurd (ground (arith, h, e))
    fetch-target user id w d t (some r) e h = (r, refl, ground (arith, h, e))

    settle :
        (p : Object → Bool) (id : Uuid) (w d : World)
        → Kept p w d
        → OnError p w (
            run
              (exec place down)
              (send (delete_row id) (or_fail (failure internal_server_error "image.delete_failed"))
                >>= λ deleted. forget id id)
              d)
    unfolding run exec
    settle p id w d k = elim (Bool-cases (down (delete_row id))) [
      | inl q ↦ rw (q, OnError, run) k
      | inr q ↦ rw (q, OnError, run) tt
    ]

    on_error :
        (user : AuthUser) (id : Uuid) (w : World) (o : Option Image)
        → removable user id w ≡ o
        → OnError (not_of o) w (run (exec place down) (delete_image router user id) w)
    unfolding delete_image
    on_error user id w o e =
        let p = not_of o in
        run->>=_elim (exec place down) (OnError p w) (fetch_delete_target id user) _ w
          (λ x d q. subst (Kept p w) (sym (fetch-same user id w d (err x) q)) (Kept-refl p w))
          (λ t d q.
            let (r, is_r, is_t) = fetch-target user id w d t o e q in
            let same = fetch-same user id w d (ok t) q in
            let clean = cleanup-Kept place router down p t d (λ x y.
              subst (λ (u : Target). is_file_of place router u x ≡ false) (sym is_t)
                (ground (arith, y, is_r))) in
            let kept =
              subst
                (λ (v : World).
                  Kept p v (run (exec place down) (cleanup_storage_files router t) d).1)
                same clean in
            run->>=_elim (exec place down) (OnError p w) (cleanup_storage_files router t) _ d
              (λ x d' q'. subst (λ (v : Result Fault (Unit {0}) × World). Kept p w v.1) q' kept)
              (λ a d' q'.
                settle p id w d'
                  (subst (λ (v : Result Fault (Unit {0}) × World). Kept p w v.1) q' kept)))

    -- Whichever calls fail: a removal that ends with an error leaves all rows, both caches and
    -- every object that is no file of an image that the user may remove.
    pub delete_image-fails :
        (user : AuthUser) (id : Uuid) (w w' : World) (e : Fault)
        → run (exec place down) (delete_image router user id) w ≡ (err e, w')
        → Kept (not_of (removable user id w)) w w'
    delete_image-fails user id w w' e h =
        let go = on_error user id w (removable user id w) refl in
        subst (OnError (not_of (removable user id w)) w) h go
