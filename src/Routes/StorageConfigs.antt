-- ===== src/Routes/StorageConfigs.antt =====
-- A user's storage configurations: pichost-api/src/routes/storage_configs.rs, on the table
-- `user_storage_configs` of migrations/0008_user_storage_configs.sql. This file has the records, the
-- calls that the handlers make, and `exec`, which gives each statement its meaning on the table and
-- fails it where `down` says so. The git host's answer and the nonces that encryption draws are
-- parameters. The JSON value of a configuration is the list of its keys, each with a text or null.
pub mod Handlers
pub mod Defaults
mod Owned
mod Added
pub mod Limit
mod Examples
use pichost.Common.{
  ℕ, zero, suc, ◌+◌, String, List, [], ◌∷◌, ◌++◌, Option, none, some, Result, ok, err, Bool, true,
  false, not, ◌&&◌, ◌||◌, ◌==◌, ◌=ₛ◌, if◌then◌else◌, any, select, map, length,
}
use pichost.TaskQueue.{Uuid}
use pichost.Upload.{Bytes}

abbrev pub Detail : Type 0
Detail = List (String × Option String)

-- `detail[key].as_str()`
abbrev pub as_str : String → Detail → Option String
as_str key [] = none
as_str key ((k, v) ∷ detail) = if k =ₛ key then v else as_str key detail

-- `detail[key] = value`
abbrev pub set_key : String → String → Detail → Detail
set_key key value [] = (key, some value) ∷ []
set_key key value ((k, v) ∷ detail) =
    let rest = set_key key value detail in
    if k =ₛ key then (k, some value) ∷ detail else (k, v) ∷ rest

pub record ConfigRow : Type 0 where
  pub id : Uuid
  pub user_id : Uuid
  pub name : String
  pub provider : String
  pub is_default : Bool
  pub config : Detail
  pub created_at : ℕ
  pub updated_at : ℕ

pub record CreateConfigRequest : Type 0 where
  pub name : String
  pub provider : String
  pub token : String
  pub repo : String
  pub branch : Option String
  pub path_prefix : Option String
  pub is_default : Option Bool

pub record UpdateConfigRequest : Type 0 where
  pub name : Option String
  pub token : Option String
  pub repo : Option String
  pub branch : Option String
  pub path_prefix : Option String

pub record HttpResponse : Type 0 where
  pub status : ℕ
  pub body : Option String

pub data Call : Type 0 where
  count_configs : (user_id : Uuid) → Call
  name_exists : (user_id : Uuid) (name : String) → Call
  unset_defaults : (user_id : Uuid) → Call
  select_config : (id user_id : Uuid) → Call
  select_configs : (user_id : Uuid) → Call
  insert_config :
      (user_id : Uuid) (name provider : String) (is_default : Bool) (config : Detail) → Call
  set_config : (name : String) (config : Detail) (id user_id : Uuid) → Call
  count_images : (id user_id : Uuid) → Call
  delete_row : (id user_id : Uuid) → Call
  make_default : (id user_id : Uuid) → Call
  get_repo : (url token : String) → Call
  draw_nonce : Call

abbrev pub Answer : Call → Type 0
Answer (count_configs u) = Result String ℕ
Answer (name_exists u n) = Result String Bool
Answer (unset_defaults u) = Result String (Unit {0})
Answer (select_config i u) = Result String (Option ConfigRow)
Answer (select_configs u) = Result String (List ConfigRow)
Answer (insert_config u n p b d) = Result String ConfigRow
Answer (set_config n d i u) = Result String ConfigRow
Answer (count_images i u) = Result String ℕ
Answer (delete_row i u) = Result String (Unit {0})
Answer (make_default i u) = Result String ConfigRow
Answer (get_repo url t) = Result String HttpResponse
Answer draw_nonce = Bytes

-- `images` has the configuration and the user of each image.
pub record Tables : Type 0 where
  pub rows : List ConfigRow
  pub images : List (Option Uuid × Uuid)
  pub next_id : Uuid
  pub now : ℕ

pub record Outside : Type 0 where
  pub down : Call → Bool
  pub git_host : String → String → Result String HttpResponse
  pub nonce : Bytes

abbrev pub belongs_to : Uuid → ConfigRow → Bool
belongs_to u r = r.user_id == u

abbrev pub is_own : Uuid → Uuid → ConfigRow → Bool
is_own i u r = r.id == i && r.user_id == u

abbrev pub find : (ConfigRow → Bool) → List ConfigRow → Option ConfigRow
find p [] = none
find p (r ∷ rows) = if p r then some r else find p rows

abbrev pub stores_in : Uuid → Uuid → Option Uuid × Uuid → Bool
stores_in i u (none, owner) = false
stores_in i u (some c, owner) = c == i && owner == u

abbrev pub refers_to : Uuid → Option Uuid × Uuid → Bool
refers_to i (none, owner) = false
refers_to i (some c, owner) = c == i

abbrev pub update : (ConfigRow → Bool) → (ConfigRow → ConfigRow) → List ConfigRow → List ConfigRow
update p f rows = map (λ r. if p r then f r else r) rows

-- UNIQUE(user_id, name), and one default for each user, apart from the row with the id.
abbrev pub is_taken : Uuid → Uuid → String → Bool → ConfigRow → Bool
is_taken i u n default r =
    belongs_to u r && not (r.id == i) && (r.name =ₛ n || (default && r.is_default))

abbrev pub new_row : Uuid → String → String → Bool → Detail → Tables → ConfigRow
new_row u n p b d t = record {
  id = t.next_id;
  user_id = u;
  name = n;
  provider = p;
  is_default = b;
  config = d;
  created_at = t.now;
  updated_at = t.now;
}

-- UPDATE … RETURNING: one row, unless a unique key is taken.
abbrev pub exec_update :
    (ConfigRow → ConfigRow)
    → Uuid
    → Uuid
    → Option ConfigRow
    → Tables
    → Result String ConfigRow × Tables
exec_update f i u none t = (err "no rows returned", t)
exec_update f i u (some r) t =
    if any (is_taken i u (f r).name (f r).is_default) t.rows
    then (err "UNIQUE constraint failed", t)
    else (ok (f r), record t { rows = update (is_own i u) f t.rows })

abbrev pub clear_default : ConfigRow → ConfigRow
clear_default r = record r { is_default = false }

abbrev pub to_default : ℕ → ConfigRow → ConfigRow
to_default now r = record r { is_default = true; updated_at = now }

abbrev pub set_values : String → Detail → ℕ → ConfigRow → ConfigRow
set_values n d now r = record r { name = n; config = d; updated_at = now }

module _ (outside : Outside) where
  unfoldable pub effect : (c : Call) → Tables → Answer c × Tables
  effect (count_configs u) t = (ok (length (select (belongs_to u) t.rows)), t)
  effect (name_exists u n) t = (ok (any (λ r. belongs_to u r && r.name =ₛ n) t.rows), t)
  effect (unset_defaults u) t =
      (ok tt, record t { rows = update (belongs_to u) clear_default t.rows })
  effect (select_config i u) t = (ok (find (is_own i u) t.rows), t)
  effect (select_configs u) t = (ok (select (belongs_to u) t.rows), t)
  effect (insert_config u n p b d) t =
      if any (is_taken t.next_id u n b) t.rows then (err "UNIQUE constraint failed", t) else (
        ok (new_row u n p b d t),
        record t { rows = t.rows ++ new_row u n p b d t ∷ []; next_id = t.next_id + 1 },
      )
  effect (set_config n d i u) t =
      exec_update (set_values n d t.now) i u (find (is_own i u) t.rows) t
  effect (count_images i u) t = (ok (length (select (stores_in i u) t.images)), t)
  effect (delete_row i u) t =
      if any (is_own i u) t.rows && any (refers_to i) t.images
      then (err "FOREIGN KEY constraint failed", t)
      else (ok tt, record t { rows = select (λ r. not (is_own i u r)) t.rows })
  effect (make_default i u) t = exec_update (to_default t.now) i u (find (is_own i u) t.rows) t
  effect (get_repo url token) t = (outside.git_host url token, t)
  effect draw_nonce t = (outside.nonce, t)

  -- The answer of a statement that fails.
  abbrev pub failure : (c : Call) → Option (Answer c)
  failure (count_configs u) = some (err "down")
  failure (name_exists u n) = some (err "down")
  failure (unset_defaults u) = some (err "down")
  failure (select_config i u) = some (err "down")
  failure (select_configs u) = some (err "down")
  failure (insert_config u n p b d) = some (err "down")
  failure (set_config n d i u) = some (err "down")
  failure (count_images i u) = some (err "down")
  failure (delete_row i u) = some (err "down")
  failure (make_default i u) = some (err "down")
  failure (get_repo url token) = none
  failure draw_nonce = none

  abbrev pub or_failure : {A : Type 0} → Option A → A × Tables → Tables → A × Tables
  or_failure none done t = done
  or_failure (some a) done t = (a, t)

  unfoldable pub exec : (c : Call) → Tables → Answer c × Tables
  unfolding effect
  exec c t = if outside.down c then or_failure (failure c) (effect c t) t else effect c t
