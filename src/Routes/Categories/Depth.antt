-- ===== src/Routes/Categories/Depth.antt =====
-- Two levels of categories.
use pichost.Common.{
  ℕ, zero, suc, ◌+◌, ◌≤◌, ◌<◌, ◌≡◌, ◌≢◌, refl, String, List, [], ◌∷◌, Option, none, some, Bool,
  true, false, ok, err, all, any, trim, leb, length, arith, get_or, inl, inr, Bool-cases, ◌&&◌,
}
use pichost.Prog.{run}
use pichost.TaskQueue.{Uuid}
use pichost.Routes.Categories.{
  Category, CreateCategoryRequest, Call, Answer, Table, exec, select_category, is_own, hung,
  validate_depth, create_category, update_category, delete_category, max_depth, added_row, find,
}
use pichost.Routes.Categories.Cascade.{
  is_shallow, is_root, is_shallow-append, is_shallow-rename, is_shallow-cascade,
}

module _ {D : Type 0} (handle : (c : Call) → D → Answer c × D) where
  -- With more fuel than the levels that are left, the recursion along the parents is never cut
  -- off, whatever the database answers, a cycle of parents included.
  pub validate_depth-ends :
      (fuel : ℕ) (user parent : Uuid) (current : ℕ) (d : D)
      → 1 ≤ fuel
      → max_depth < current + fuel
      → (run handle (validate_depth fuel user parent current) d).0 ≢ err hung
  unfolding validate_depth run
  validate_depth-ends zero user parent current d l h k = absurd (omega arith)
  validate_depth-ends (suc fuel) user parent current d l h k =
      elim (Bool-cases (leb max_depth current)) [
        | inl deep ↦ absurd (ground (arith, deep, k))
        | inr shallow ↦
            let (r, d') = handle (select_category parent user) d in
            step r d' refl shallow (λ gp.
              validate_depth-ends fuel user gp (current + 1) d' (ground (arith, shallow, h))
                (omega arith))
      ]
    where
      step :
          (r : Answer (select_category parent user)) (d' : D)
          → handle (select_category parent user) d ≡ (r, d')
          → leb max_depth current ≡ false
          → ((gp : Uuid) → (run handle (validate_depth fuel user gp (current + 1)) d').0 ≢ err hung)
          → ⊥
      step (err e) d' z l ih = absurd (ground (arith, z, l, k))
      step (ok none) d' z l ih = absurd (ground (arith, z, l, k))
      step (ok (some p)) d' z l ih = up p.parent_id refl
        where
          up : (o : Option Uuid) → p.parent_id ≡ o → ⊥
          up none e = ground (arith, z, l, k, e)
          up (some gp) e = ground (arith, z, l, k, e, ih gp)

-- Every category of the table is a root or stands below a root of its user.
unfoldable pub IsForest : Table → Type 0
IsForest t = all (is_shallow t.rows) t.rows ≡ true

module _ (down : Call → Bool) where
  find-root :
      (user pid : Uuid) (rows : List Category) (p : Category)
      → find (is_own pid user) rows ≡ some p
      → p.parent_id ≡ none
      → any (λ q. is_own pid user q && is_root q) rows ≡ true
  find-root user pid [] p h k = absurd (ground (arith, h))
  find-root user pid (r ∷ rows) p h k = ground (arith, h, k, find-root user pid rows p)

  create-below :
      (user pid : Uuid) (name : String) (t : Table) (f : Option Category)
      → find (is_own pid user) t.rows ≡ f
      → IsForest t
      → IsForest
          (run
            (exec down)
            (create_category user (record { name = name; parent_id = some pid }))
            t).1
  unfolding IsForest create_category exec run validate_depth
  create-below user pid name t none z h = ground (arith, h, z)
  create-below user pid name t (some p) z h = below p.parent_id refl
    where
      below :
          (o : Option Uuid)
          → p.parent_id ≡ o
          → IsForest
              (run
                (exec down)
                (create_category user (record { name = name; parent_id = some pid }))
                t).1
      below none e = ground (
        arith,
        h,
        z,
        e,
        is_shallow-append t.rows (added_row user (trim name) (some pid) t) h
            (find-root user pid t.rows p z e),
      )
      below (some gp) e = ground (arith, h, z, e)

  create-exec :
      (user : Uuid) (name : String) (o : Option Uuid) (t : Table)
      → IsForest t
      → IsForest
          (run (exec down) (create_category user (record { name = name; parent_id = o })) t).1
  unfolding IsForest create_category exec run
  create-exec user name none t h =
      ground (arith, h, is_shallow-append t.rows (added_row user (trim name) none t) h refl)
  create-exec user name (some pid) t h = create-below user pid name t _ refl h

  update-below :
      (user id : Uuid) (name : Option String) (t : Table) (f : Option Category)
      → find (is_own id user) t.rows ≡ f
      → IsForest t
      → IsForest (run (exec down) (update_category user id name) t).1
  unfolding IsForest update_category exec run
  update-below user id name t none z h = ground (arith, z, h)
  update-below user id name t (some p) z h =
      ground (arith, z, h, is_shallow-rename (is_own id user) (get_or name p.name) t.rows h)

  delete-exec :
      (user id : Uuid) (t : Table)
      → IsForest t
      → IsForest (run (exec down) (delete_category user id) t).1
  unfolding IsForest delete_category exec run
  delete-exec user id t h =
      ground (arith, h, is_shallow-cascade (length t.rows) (is_own id user) t.rows h)

-- One request, with the statements that fail in it.
pub data Operation : Type 0 where
  create : (user : Uuid) (req : CreateCategoryRequest) → Operation
  update : (user id : Uuid) (name : Option String) → Operation
  delete : (user id : Uuid) → Operation

abbrev pub perform : Operation × (Call → Bool) → Table → Table
perform (create user req, down) t = (run (exec down) (create_category user req) t).1
perform (update user id name, down) t = (run (exec down) (update_category user id name) t).1
perform (delete user id, down) t = (run (exec down) (delete_category user id) t).1

abbrev pub perform_all : List (Operation × (Call → Bool)) → Table → Table
perform_all [] t = t
perform_all (o ∷ os) t = perform_all os (perform o t)

perform-IsForest : (o : Operation × (Call → Bool)) (t : Table) → IsForest t → IsForest (perform o t)
perform-IsForest (create user req, down) t h = create-exec down user req.name req.parent_id t h
perform-IsForest (update user id name, down) t h = update-below down user id name t _ refl h
perform-IsForest (delete user id, down) t h = delete-exec down user id t h

-- After any requests that create, rename and remove categories one after the other, whichever of
-- their statements fail, every category is still a root or a child of a root of the same user, if
-- so it was before: there are never more than two levels.
pub perform_all-IsForest :
    (os : List (Operation × (Call → Bool))) (t : Table) → IsForest t → IsForest (perform_all os t)
perform_all-IsForest [] t h = h
perform_all-IsForest (o ∷ os) t h = perform_all-IsForest os (perform o t) (perform-IsForest o t h)
