-- ===== src/Routes/Users.antt =====
-- A user's own account: pichost-api/src/routes/users.rs, on the table `users` and the cache of a
-- user's statistics. Password hashes are the library of Auth; numbers are written to the cache and
-- read from it by the parameter `Numerals`. A setting for watermarks is its JSON text. `exec` gives
-- each call its meaning; it fails where `down` says so.
pub mod Handlers
pub mod Account
pub mod Passwords
pub mod Statistics
pub mod Updates
mod Examples
use pichost.Common.{
  ℕ, ◌+◌, String, List, [], ◌∷◌, Option, none, some, Result, ok, err, Bool, true, false, not, ◌&&◌,
  ◌||◌, ◌==◌, ◌=ₛ◌, if◌then◌else◌, any, map, get_or, ◌≡◌,
}
use pichost.Prog.{Prog}
use pichost.TaskQueue.{Uuid}
use pichost.Upload.{ApiError}
use pichost.Routes.{DbError, unique_violation, other}

pub record UserRow : Type 0 where
  pub id : Uuid
  pub username : String
  pub email : Option String
  pub password_hash : String
  pub storage_backend : String
  pub storage_prefix : String
  pub storage_quota : Option ℕ
  pub is_admin : Bool
  pub created_at : ℕ
  pub updated_at : ℕ
  pub watermark_config : Option String

-- A watermark is absent, removed (`some none`) or set.
pub record UpdateProfileRequest : Type 0 where
  pub username : Option String
  pub email : Option String
  pub storage_backend : Option String
  pub watermark_config : Option (Option String)

pub record ChangePasswordRequest : Type 0 where
  pub current_password : String
  pub new_password : String

-- The text of a number, read back as it was written.
pub record Numerals : Type 0 where
  pub show : ℕ → String
  pub parse : String → Option ℕ
  pub parse-show : (n : ℕ) → parse (show n) ≡ some n

pub data Call : Type 0 where
  select_quota : (id : Uuid) → Call
  get_user_stats : (id : Uuid) → Call
  set_user_stats : (id : Uuid) (fields : List (String × ℕ)) → Call
  sum_images : (id : Uuid) → Call
  select_profile : (id : Uuid) → Call
  username_exists : (username : String) (other_than : Uuid) → Call
  email_exists : (email : String) (other_than : Uuid) → Call
  update_user :
      UpdateProfileRequest → (wm_provided : Bool) (wm_value : Option String) (id : Uuid) → Call
  select_hash : (id : Uuid) → Call
  update_hash : (new_hash : String) (id : Uuid) → Call

abbrev pub Answer : Call → Type 0
Answer (select_quota i) = Result String (Option (Option ℕ))
Answer (get_user_stats i) = Result String (Option (List (String × String)))
Answer (set_user_stats i fs) = Result String (Unit {0})
Answer (sum_images i) = Result String (ℕ × Option ℕ)
Answer (select_profile i) = Result String (Option UserRow)
Answer (username_exists n i) = Result String Bool
Answer (email_exists e i) = Result String Bool
Answer (update_user p b v i) = Result DbError (Unit {0})
Answer (select_hash i) = Result String (Option String)
Answer (update_hash h i) = Result String (Unit {0})

abbrev pub Handler : Type 0 → Type 0
Handler A = Prog Call Answer (Result ApiError A)

-- `sums` are the count and the bytes of a user's images.
pub record World : Type 0 where
  pub users : List UserRow
  pub stats : List (Uuid × List (String × String))
  pub sums : Uuid → ℕ × Option ℕ
  pub now : ℕ

abbrev pub first : {A : Type 0} → (A → Bool) → List A → Option A
first p [] = none
first p (x ∷ xs) = if p x then some x else first p xs

abbrev pub option_map : {A B : Type 0} → (A → B) → Option A → Option B
option_map f none = none
option_map f (some a) = some (f a)

abbrev pub is_user : Uuid → UserRow → Bool
is_user i u = u.id == i

abbrev pub has_email : String → UserRow → Bool
has_email e u = elim u.email [ none ↦ false | some f ↦ f =ₛ e ]

-- The fields of a hash of Redis: a write replaces a field or adds it, HGETALL of a key that is not
-- there is empty.
abbrev pub set_field : String → String → List (String × String) → List (String × String)
set_field k v [] = (k, v) ∷ []
set_field k v ((j, w) ∷ fs) = if j =ₛ k then (k, v) ∷ fs else (j, w) ∷ set_field k v fs

abbrev pub get_field : String → List (String × String) → Option String
get_field k [] = none
get_field k ((j, w) ∷ fs) = if j =ₛ k then some w else get_field k fs

abbrev pub stats_of : Uuid → List (Uuid × List (String × String)) → List (String × String)
stats_of i [] = []
stats_of i ((j, fs) ∷ es) = if j == i then fs else stats_of i es

abbrev pub write_fields :
    (ℕ → String) → List (String × ℕ) → List (String × String) → List (String × String)
write_fields show [] fs = fs
write_fields show ((k, n) ∷ new) fs = write_fields show new (set_field k (show n) fs)

abbrev kept : Option String → Option String → Option String
kept none old = old
kept (some e) old = some e

-- `COALESCE` and `CASE WHEN … ELSE` of the one UPDATE.
abbrev pub apply_update : UpdateProfileRequest → Bool → Option String → ℕ → UserRow → UserRow
apply_update p wm_provided wm_value now u = record u {
  username = get_or p.username u.username;
  email = kept p.email u.email;
  storage_backend = get_or p.storage_backend u.storage_backend;
  watermark_config = if wm_provided then wm_value else u.watermark_config;
  updated_at = now;
}

abbrev pub with_hash : String → ℕ → UserRow → UserRow
with_hash h now u = record u { password_hash = h; updated_at = now }

abbrev taken_name : Option String → Uuid → List UserRow → Bool
taken_name none i us = false
taken_name (some n) i us = any (λ u. u.username =ₛ n && not (u.id == i)) us

abbrev taken_email : Option String → Uuid → List UserRow → Bool
taken_email none i us = false
taken_email (some e) i us = any (λ u. has_email e u && not (u.id == i)) us

module _ (numerals : Numerals) (down : Call → Bool) where
  abbrev reply : {A : Type 0} → Call → A → World → World → Result String A × World
  reply c a w w' = if down c then (err "down", w) else (ok a, w')

  unfoldable pub exec : (c : Call) → World → Answer c × World
  exec (select_quota i) w =
      reply (select_quota i)
        (option_map (λ (u : UserRow). u.storage_quota) (first (is_user i) w.users)) w w
  exec (get_user_stats i) w = reply (get_user_stats i) (some (stats_of i w.stats)) w w
  exec (set_user_stats i fs) w =
      reply (set_user_stats i fs) tt w
        (record w { stats = (i, write_fields numerals.show fs (stats_of i w.stats)) ∷ w.stats })
  exec (sum_images i) w = reply (sum_images i) (w.sums i) w w
  exec (select_profile i) w = reply (select_profile i) (first (is_user i) w.users) w w
  exec (username_exists n i) w =
      reply (username_exists n i) (any (λ u. u.username =ₛ n && not (u.id == i)) w.users) w w
  exec (email_exists e i) w =
      reply (email_exists e i) (any (λ u. has_email e u && not (u.id == i)) w.users) w w
  exec (update_user p b v i) w =
      if down (update_user p b v i)
      then (err (other "down"), w)
      else if any (is_user i) w.users
          && (taken_name p.username i w.users || taken_email p.email i w.users)
      then (err (unique_violation "UNIQUE constraint failed"), w)
      else (
        ok tt,
        record w {
          users = map (λ u. if is_user i u then apply_update p b v w.now u else u) w.users;
        },
      )
  exec (select_hash i) w =
      reply (select_hash i)
        (option_map (λ (u : UserRow). u.password_hash) (first (is_user i) w.users)) w w
  exec (update_hash h i) w =
      reply (update_hash h i) tt w
        (record w { users = map (λ u. if is_user i u then with_hash h w.now u else u) w.users })
