-- ===== src/Routes/Images/Requests.antt =====
-- So do requests that remove images, and any requests one after the other.
use pichost.Common.{
  ℕ, ◌-◌, ◌≡◌, refl, sym, ◌∙◌, subst, String, List, [], ◌∷◌, Option, Result, ok, err, Bool, false,
  ◌&&◌, arith, length, select, map, inl, inr, Option-cases,
}
use pichost.Prog.{run}
use pichost.Prog.Laws.{run->>=_elim}
use pichost.Storage.{Backend}
use pichost.Storage.Router.{StorageRouter, for_backend}
use pichost.TaskQueue.{Uuid}
use pichost.Upload.{Fault, AuthUser}
use pichost.Routes.Images.{
  target_of, World, Object, exec, gone, is_listed, may_remove, has_id, without,
}
use pichost.Routes.Images.Handlers.{
  get_image, rename_image, move_image, batch_move_images, validate_batch_ids,
}
use pichost.Routes.Images.Removal.{
  cleanup_storage_files, fetch_delete_target, cleanup_all, delete_image, batch_delete,
}
use pichost.Routes.Images.Removed.{Kept, is_file, cleanup_all-Kept, cleanup_panics}
use pichost.Routes.Images.Deleted.{delete_image_lem, removable, up, forget_all_lem}
use pichost.Routes.Images.Rows.{gone-other, gone-IsKeyed}
use pichost.Routes.Images.Cached.{IsCoherent, commit}
use pichost.Routes.Images.Coherent.{
  get-IsCoherent, rename-IsCoherent, move-IsCoherent, batch_move-IsCoherent,
}

module _ (place : Backend → ℕ) where
  batch_ids-same :
      (ids : List Uuid) (w d : World) (x : Result Fault (Unit {0}))
      → run (exec place up) (validate_batch_ids ids) w ≡ (x, d)
      → d ≡ w
  unfolding validate_batch_ids run
  batch_ids-same ids w d x h = ground (arith, h)

  Kept-IsCoherent : (p : Object → Bool) (w d : World) → Kept p w d → IsCoherent w → IsCoherent d
  Kept-IsCoherent p w d k h = record {
    keyed = rw k.images h.keyed;
    current = rw k.metas (rw k.images h.current);
  }

  module _ (router : StorageRouter) where
    delete-IsCoherent :
        (user : AuthUser) (id : Uuid) (w : World)
        → IsCoherent w
        → IsCoherent (run (exec place up) (delete_image router user id) w).1
    unfolding delete_image fetch_delete_target run exec
    delete-IsCoherent user id w h = elim (Option-cases (removable user id w)) [
      | inl e ↦ rw (e, run) h
      | inr (r, e) ↦ elim (Option-cases (for_backend router r.storage_backend)) [
        | inl e2 ↦
            rw (e, run)
              (let stuck = cleanup_panics place router up (target_of r) w e2 in
                run->>=_elim (exec place up) (λ r. IsCoherent r.1)
                  (cleanup_storage_files router (target_of r)) _ w
                  (λ x d q. subst (λ r. IsCoherent r.1) (sym stuck ∙ q) h)
                  (λ a d q. absurd (ground (arith, sym stuck ∙ q))))
        | inr (b, e2) ↦ rw (delete_image_lem place router user id w r b e e2) (
            commit (id ∷ [])
              (record w { objects = gone (is_file (place b) (target_of r)) w.objects })
              (gone (has_id id) w.images) (record { keyed = h.keyed; current = h.current })
              (gone-IsKeyed (has_id id) w.images h.keyed)
              (λ j. gone-other (id ∷ []) (has_id id) (λ r q. ground (arith, q)) j w.images))
      ]
    ]

    batch_delete-IsCoherent :
        (user : AuthUser) (ids : List Uuid) (w : World)
        → IsCoherent w
        → IsCoherent (run (exec place up) (batch_delete router user ids) w).1
    unfolding batch_delete run exec
    batch_delete-IsCoherent user ids w h =
        run->>=_elim (exec place up) (λ r. IsCoherent r.1) (validate_batch_ids ids) _ w
          (λ x d q. subst IsCoherent (sym (batch_ids-same ids w d (err x) q)) h)
          (λ a d q. rw (batch_ids-same ids w d (ok a) q) (
            let ts =
              map target_of
                (select (λ r. is_listed ids r && may_remove user.id user.is_admin r) w.images) in
            let none_left = λ (o : Object). false in
            let k : Kept none_left w (run (exec place up) (cleanup_all router ts) w).1 =
              cleanup_all-Kept place router up none_left ts w (λ o e. cc) in
            run->>=_elim (exec place up) (λ r. IsCoherent r.1) (cleanup_all router ts) _ w
              (λ x v q. subst (λ r. IsCoherent r.1) q (Kept-IsCoherent none_left w _ k h))
              (λ a v q.
                let c = subst (λ r. IsCoherent r.1) q (Kept-IsCoherent none_left w _ k h) in
                let n = length (select (is_listed ids) v.images) in
                let rows = gone (is_listed ids) v.images in
                rw
                  (forget_all_lem place {A = ℕ × ℕ} ids (n, length ids - n)
                    (record v { images = rows }))
                  (commit ids v rows c (gone-IsKeyed (is_listed ids) v.images c.keyed)
                    (λ j. gone-other ids (is_listed ids) (λ r e. e) j v.images)))))

    -- A request of a user, or the end of an entry's time.
    pub data Request : Type 0 where
      show : Uuid → Request
      rename_to : Uuid → String → Request
      move_to : Uuid → Option Uuid → Request
      move_all : List Uuid → Uuid → Request
      delete : Uuid → Request
      delete_all : List Uuid → Request
      expire : Uuid → Request

    abbrev pub perform : AuthUser × Request → World → World
    perform (user, show id) w = (run (exec place up) (get_image user id) w).1
    perform (user, rename_to id name) w = (run (exec place up) (rename_image user id name) w).1
    perform (user, move_to id c) w = (run (exec place up) (move_image user id c) w).1
    perform (user, move_all ids c) w = (run (exec place up) (batch_move_images user ids c) w).1
    perform (user, delete id) w = (run (exec place up) (delete_image router user id) w).1
    perform (user, delete_all ids) w = (run (exec place up) (batch_delete router user ids) w).1
    perform (user, expire id) w = record w { metas = without id w.metas }

    abbrev pub perform_all : List (AuthUser × Request) → World → World
    perform_all [] w = w
    perform_all (q ∷ qs) w = perform_all qs (perform q w)

    perform-IsCoherent :
        (q : AuthUser × Request) (w : World) → IsCoherent w → IsCoherent (perform q w)
    perform-IsCoherent (user, show id) w h = get-IsCoherent place user id w h
    perform-IsCoherent (user, rename_to id name) w h = rename-IsCoherent place user id name w h
    perform-IsCoherent (user, move_to id c) w h = move-IsCoherent place user id c w h
    perform-IsCoherent (user, move_all ids c) w h = batch_move-IsCoherent place user ids c w h
    perform-IsCoherent (user, delete id) w h = delete-IsCoherent user id w h
    perform-IsCoherent (user, delete_all ids) w h = batch_delete-IsCoherent user ids w h
    perform-IsCoherent (user, expire id) w h = commit (id ∷ []) w w.images h h.keyed (λ j e. refl)

    -- When no call fails: after any requests of any users that show, rename, move and remove images,
    -- one after the other, with entries of the cache that expire between them, every entry is what
    -- the one row with its id shows.
    pub perform_all-IsCoherent :
        (qs : List (AuthUser × Request)) (w : World) → IsCoherent w → IsCoherent (perform_all qs w)
    perform_all-IsCoherent [] w h = h
    perform_all-IsCoherent (q ∷ qs) w h =
        perform_all-IsCoherent qs (perform q w) (perform-IsCoherent q w h)
