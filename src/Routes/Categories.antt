-- ===== src/Routes/Categories.antt =====
-- Categories of images: pichost-api/src/routes/categories.rs, on the table `categories` of
-- migrations/0009_create_categories.sql. The table's rows stand in the order of `created_at`; a
-- new row gets the next free number as its id. `exec` gives each statement its meaning; it fails
-- where `down` says so.
pub mod Tree
pub mod Depth
mod Cascade
mod Examples
use pichost.Common.{
  ℕ, zero, suc, ◌+◌, String, List, [], ◌∷◌, ◌++◌, Option, none, some, Result, ok, err, map_err,
  ok_or, Bool, true, false, not, ◌&&◌, ◌||◌, ◌==◌, ◌=ₛ◌, if◌then◌else◌, any, select, map, ltb, leb,
  length, get_or, trim, byte_length,
}
use pichost.Prog.{Prog, ret, send, ◌>>=◌, ◌>>◌, pure, throw}
use pichost.TaskQueue.{Uuid}
use pichost.Upload.{ApiError, error_json, error_json_args, bad_request, internal_server_error}
use pichost.Routes.{DbError, unique_violation, other, db_message, not_found, conflict}

abbrev pub max_depth : ℕ
max_depth = 2

pub record Category : Type 0 where
  pub id : Uuid
  pub user_id : Uuid
  pub name : String
  pub parent_id : Option Uuid
  pub created_at : ℕ

pub record CreateCategoryRequest : Type 0 where
  pub name : String
  pub parent_id : Option Uuid

pub data Call : Type 0 where
  select_category : (id user_id : Uuid) → Call
  select_categories : (user_id : Uuid) → Call
  insert_category : (user_id : Uuid) (name : String) (parent_id : Option Uuid) → Call
  rename_category : (name : String) (id user_id : Uuid) → Call
  remove_category : (id user_id : Uuid) → Call

abbrev pub Answer : Call → Type 0
Answer (select_category i u) = Result DbError (Option Category)
Answer (select_categories u) = Result DbError (List Category)
Answer (insert_category u n p) = Result DbError Category
Answer (rename_category n i u) = Result DbError Category
Answer (remove_category i u) = Result DbError ℕ

pub record Table : Type 0 where
  pub rows : List Category
  pub next_id : Uuid
  pub now : ℕ

abbrev pub is_own : Uuid → Uuid → Category → Bool
is_own i u r = r.id == i && r.user_id == u

abbrev pub find : (Category → Bool) → List Category → Option Category
find p [] = none
find p (r ∷ rows) = if p r then some r else find p rows

abbrev pub has_parent : Uuid → Category → Bool
has_parent p r = elim r.parent_id [ none ↦ false | some q ↦ q == p ]

abbrev parent_exists : Option Uuid → List Category → Bool
parent_exists none rows = true
parent_exists (some p) rows = any (λ r. r.id == p) rows

-- UNIQUE(user_id, name, parent_id): a null parent equals no other.
abbrev is_twin : Uuid → String → Option Uuid → Category → Bool
is_twin u n none r = false
is_twin u n (some p) r = r.user_id == u && r.name =ₛ n && has_parent p r

-- ON DELETE CASCADE: with some rows their children go, and so on; with more rounds than rows
-- nothing is left to remove.
unfoldable pub cascade : ℕ → (Category → Bool) → List Category → List Category
cascade zero doomed rows = rows
cascade (suc n) doomed rows =
    let dead = select doomed rows in
    let rest =
      cascade n (λ r. any (λ q. has_parent q.id r) dead) (select (λ r. not (doomed r)) rows) in
    if any doomed rows then rest else rows

abbrev pub set_name : String → Category → Category
set_name n r = record r { name = n }

abbrev pub exec_rename :
    String → Uuid → Uuid → Option Category → Table → Result DbError Category × Table
exec_rename n i u none t = (err (other "no rows returned"), t)
exec_rename n i u (some r) t =
    if any (λ q. not (q.id == i) && is_twin u n r.parent_id q) t.rows
    then (err (unique_violation "UNIQUE constraint failed"), t)
    else (
      ok (set_name n r),
      record t { rows = map (λ q. if is_own i u q then set_name n q else q) t.rows },
    )

abbrev pub added_row : Uuid → String → Option Uuid → Table → Category
added_row u n p t = record {
  id = t.next_id;
  user_id = u;
  name = n;
  parent_id = p;
  created_at = t.now;
}

module _ (down : Call → Bool) where
  unfoldable pub exec : (c : Call) → Table → Answer c × Table
  exec (select_category i u) t =
      if down (select_category i u)
      then (err (other "down"), t)
      else (ok (find (is_own i u) t.rows), t)
  exec (select_categories u) t =
      if down (select_categories u)
      then (err (other "down"), t)
      else (ok (select (λ r. r.user_id == u) t.rows), t)
  exec (insert_category u n p) t =
      if down (insert_category u n p)
      then (err (other "down"), t)
      else if any (is_twin u n p) t.rows
      then (err (unique_violation "UNIQUE constraint failed"), t)
      else if parent_exists p t.rows
      then (
        ok (added_row u n p t),
        record t { rows = t.rows ++ added_row u n p t ∷ []; next_id = t.next_id + 1 },
      )
      else (err (other "FOREIGN KEY constraint failed"), t)
  exec (rename_category n i u) t =
      if down (rename_category n i u)
      then (err (other "down"), t)
      else exec_rename n i u (find (is_own i u) t.rows) t
  exec (remove_category i u) t = if down (remove_category i u) then (err (other "down"), t) else (
    ok (length (select (is_own i u) t.rows)),
    record t { rows = cascade (suc (suc (length t.rows))) (is_own i u) t.rows },
  )

-- What ends a handler early: an error body, or a recursion that went on past its fuel.
pub data Fault : Type 0 where
  api : ApiError → Fault
  hung : Fault

abbrev pub Handler : Type 0 → Type 0
Handler A = Prog Call Answer (Result Fault A)

abbrev pub internal_error_detail : DbError → Fault
internal_error_detail e =
    api (error_json_args internal_server_error "common.internal_error_detail" (db_message e ∷ []))

abbrev or_internal : {A : Type 0} → Result DbError A → Handler A
or_internal r = ret (map_err internal_error_detail r)

abbrev guard : Bool → Fault → Handler (Unit {0})
guard true f = pure tt
guard false f = throw f

abbrev pub found_or : Fault → Option Category → Handler Category
found_or f none = throw f
found_or f (some r) = pure r

abbrev depth_exceeded : Fault
depth_exceeded = api (error_json_args bad_request "category.depth_exceeded" ("2" ∷ []))

abbrev parent_not_found : Fault
parent_not_found = api (error_json not_found "category.parent_not_found")

abbrev category_not_found : Fault
category_not_found = api (error_json not_found "category.not_found")

-- The recursion along the parents, on fuel.
unfoldable pub validate_depth : ℕ → Uuid → Uuid → ℕ → Handler (Unit {0})
validate_depth zero user_id parent_id current = throw hung
validate_depth (suc fuel) user_id parent_id current =
    if leb max_depth current then throw depth_exceeded else do
      row ← send (select_category parent_id user_id) or_internal
      parent ← found_or parent_not_found row
      elim parent.parent_id [
        | none ↦ pure tt
        | some gp ↦ validate_depth fuel user_id gp (current + 1)
      ]

abbrev pub check_parent : Uuid → Option Uuid → Handler (Unit {0})
check_parent user_id none = pure tt
check_parent user_id (some pid) = validate_depth max_depth user_id pid 1

abbrev insert_error : DbError → Fault
insert_error (unique_violation e) = api (error_json conflict "category.name_exists")
insert_error (other e) = internal_error_detail (other e)

abbrev pub is_valid_name : String → Bool
is_valid_name name = not (name =ₛ "" || ltb 128 (byte_length name))

unfoldable pub create_category : Uuid → CreateCategoryRequest → Handler Category
unfolding validate_depth
create_category user req = do
  guard (is_valid_name (trim req.name)) (api (error_json bad_request "category.invalid_name"))
  check_parent user req.parent_id
  send (insert_category user (trim req.name) req.parent_id) (λ r. ret (map_err insert_error r))

unfoldable pub get_category : Uuid → Uuid → Handler Category
get_category user id = do
  row ← send (select_category id user) or_internal
  found_or category_not_found row

unfoldable pub update_category : Uuid → Uuid → Option String → Handler Category
update_category user id name = do
  row ← send (select_category id user) or_internal
  existing ← found_or category_not_found row
  send (rename_category (get_or name existing.name) id user) or_internal

unfoldable pub delete_category : Uuid → Uuid → Handler (Unit {0})
delete_category user id = do
  affected ← send (remove_category id user) or_internal
  guard (not (affected == 0)) category_not_found
