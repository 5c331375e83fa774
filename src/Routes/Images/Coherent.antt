-- ===== src/Routes/Images/Coherent.antt =====
-- Requests that show, rename and move images leave the cache of image details in agreement with
-- the rows.
use pichost.Common.{
  ℕ, ◌≡◌, refl, sym, subst, String, List, [], ◌∷◌, Option, none, some, Result, ok, err, true, false,
  not, ◌&&◌, ◌==◌, arith, length, select, inl, inr, Bool-cases, Option-cases, All-imp,
}
use pichost.Prog.{run, send, ◌>>=◌, ◌>>◌}
use pichost.Prog.Laws.{run->>=_elim}
use pichost.Storage.{Backend}
use pichost.TaskQueue.{Uuid}
use pichost.Upload.{Fault, AuthUser}
use pichost.Routes.{not_found}
use pichost.Routes.Images.{
  set_category, Image, World, exec, is_listed, is_owned, first, find_entry, without, update,
  set_name, put_into,
}
use pichost.Routes.Images.Handlers.{
  forget, failure, guard, db_error, get_image, cached_meta, rename_image, rename_image_in_db,
  refetch_image_row, validate_original_name, move_image, batch_move_images, validate_batch_move,
  ensure_category_owned,
}
use pichost.Routes.Images.Deleted.{up, forget_all_lem}
use pichost.Routes.Images.Rows.{
  names, update-other, update-IsKeyed, update_none, first-update, first-current,
}
use pichost.Routes.Images.Cached.{IsCurrent, All-without, IsCoherent, commit}

module _ (place : Backend → ℕ) where
  -- A step that leaves the world as it is.
  validate-same :
      (name : String) (w d : World) (x : Result Fault (Unit {0}))
      → run (exec place up) (validate_original_name name) w ≡ (x, d)
      → d ≡ w
  unfolding validate_original_name run
  validate-same name w d x h = ground (arith, h)

  owned-same :
      (c u : Uuid) (w d : World) (x : Result Fault (Unit {0}))
      → run (exec place up) (ensure_category_owned c u) w ≡ (x, d)
      → d ≡ w
  unfolding ensure_category_owned run exec
  owned-same c u w d x h = ground (arith, h)

  batch-same :
      (ids : List Uuid) (w d : World) (x : Result Fault (Unit {0}))
      → run (exec place up) (validate_batch_move ids) w ≡ (x, d)
      → d ≡ w
  unfolding validate_batch_move run
  batch-same ids w d x h = ground (arith, h)

  pub get-IsCoherent :
      (user : AuthUser) (id : Uuid) (w : World)
      → IsCoherent w
      → IsCoherent (run (exec place up) (get_image user id) w).1
  unfolding get_image cached_meta run exec
  get-IsCoherent user id w h = elim (Option-cases (find_entry id w.metas)) [
    | inr (v, e) ↦ rw (e, run) h
    | inl e ↦
        rw (e, run)
          (elim (Option-cases (first (is_owned id user.id) w.images)) [
            | inl e2 ↦ rw (e2, run) h
            | inr (r, e2) ↦
                rw (e2, run)
                  (record {
                    keyed = h.keyed;
                    current = (
                      first-current id user.id w.images r h.keyed e2,
                      All-imp (λ e. IsCurrent w.images e × ((e.0 == id) ≡ false))
                          (IsCurrent w.images) (λ e q. q.0) (without id w.metas)
                          (All-without (IsCurrent w.images) id w.metas h.current),
                    );
                  })
          ])
  ]

  owned_only :
      (id u : Uuid) (r : Image) → is_owned id u r ≡ true → names (id ∷ []) r.shown.id ≡ true
  owned_only id u r h = ground (arith, h)

  pub rename-IsCoherent :
      (user : AuthUser) (id : Uuid) (name : String) (w : World)
      → IsCoherent w
      → IsCoherent (run (exec place up) (rename_image user id name) w).1
  unfolding rename_image rename_image_in_db refetch_image_row run exec
  rename-IsCoherent user id name w h =
      let p = is_owned id user.id in
      let rows = update p (set_name name) w.images in
      run->>=_elim (exec place up) (λ r. IsCoherent r.1) (validate_original_name name) _ w
        (λ x d q. subst IsCoherent (sym (validate-same name w d (err x) q)) h)
        (λ a d q.
          rw (validate-same name w d (ok a) q)
            (elim (Bool-cases (length (select p w.images) == 0)) [
              | inl e ↦ rw (e, run) (rw (update_none p (set_name name) w.images e) h)
              | inr e ↦
                  rw (e, run)
                    (elim (Option-cases (first p rows)) [
                      | inl e2 ↦ absurd (
                          ground (arith, e, first-update p (set_name name) (λ r. refl) w.images e2))
                      | inr (r, e2) ↦
                          rw (e2, run)
                            (commit (id ∷ []) w rows h
                              (update-IsKeyed p (set_name name) (λ r. refl) w.images h.keyed)
                              (λ j.
                                update-other (id ∷ []) p (owned_only id user.id) (set_name name)
                                  (λ r. refl) j w.images))
                    ])
            ]))

  place-IsCoherent :
      (u id : Uuid) (c : Option Uuid) (w : World)
      → IsCoherent w
      → IsCoherent
          (run
            (exec place up)
            (send (set_category c id u) db_error >>= λ affected.
              guard (not (affected == 0)) (failure not_found "image.move_not_found")
              >> forget id tt)
            w).1
  unfolding run exec
  place-IsCoherent u id c w h =
      let p = is_owned id u in
      let rows = update p (put_into c) w.images in
      elim (Bool-cases (length (select p w.images) == 0)) [
        | inl e ↦ rw (e, run) (rw (update_none p (put_into c) w.images e) h)
        | inr e ↦
            rw (e, run)
              (commit (id ∷ []) w rows h
                (update-IsKeyed p (put_into c) (λ r. refl) w.images h.keyed)
                (λ j.
                  update-other (id ∷ []) p (owned_only id u) (put_into c) (λ r. refl) j w.images))
      ]

  pub move-IsCoherent :
      (user : AuthUser) (id : Uuid) (c : Option Uuid) (w : World)
      → IsCoherent w
      → IsCoherent (run (exec place up) (move_image user id c) w).1
  unfolding move_image run exec
  move-IsCoherent user id none w h = place-IsCoherent user.id id none w h
  move-IsCoherent user id (some c) w h =
      run->>=_elim (exec place up) (λ r. IsCoherent r.1) (ensure_category_owned c user.id) _ w
        (λ x d q. subst IsCoherent (sym (owned-same c user.id w d (err x) q)) h)
        (λ a d q. rw (owned-same c user.id w d (ok a) q) (place-IsCoherent user.id id (some c) w h))

  pub batch_move-IsCoherent :
      (user : AuthUser) (ids : List Uuid) (c : Uuid) (w : World)
      → IsCoherent w
      → IsCoherent (run (exec place up) (batch_move_images user ids c) w).1
  unfolding batch_move_images run exec
  batch_move-IsCoherent user ids c w h =
      let mine = λ (r : Image). r.user_id == user.id && is_listed ids r in
      let rows = update mine (put_into (some c)) w.images in
      run->>=_elim (exec place up) (λ r. IsCoherent r.1) (validate_batch_move ids) _ w
        (λ x d q. subst IsCoherent (sym (batch-same ids w d (err x) q)) h)
        (λ a d q. rw (batch-same ids w d (ok a) q) (
          run->>=_elim (exec place up) (λ r. IsCoherent r.1) (ensure_category_owned c user.id) _ w
            (λ x d q. subst IsCoherent (sym (owned-same c user.id w d (err x) q)) h)
            (λ a d q. rw (owned-same c user.id w d (ok a) q) (
              rw
                (forget_all_lem place ids (length (select mine w.images))
                  (record w { images = rows }))
                (commit ids w rows h
                  (update-IsKeyed mine (put_into (some c)) (λ r. refl) w.images h.keyed)
                  (λ j.
                    update-other ids mine (λ r e. ground (arith, e)) (put_into (some c)) (λ r. refl)
                      j w.images))))))
