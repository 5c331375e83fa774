-- ===== src/Routes/Users/Account.antt =====
-- Changes of a user's own account: update_my_profile and change_my_password of users.rs.
use pichost.Common.{
  ℕ, String, [], ◌∷◌, Option, none, some, Result, ok, err, Bool, true, false, not, ltb, byte_length,
}
use pichost.Prog.{send, ◌>>=◌, ◌>>◌, pure, throw}
use pichost.Storage.Router.{StorageRouter, get}
use pichost.TaskQueue.{Uuid}
use pichost.Upload.{error_json, error_json_args, AuthUser, bad_request}
use pichost.Routes.{DbError, unique_violation, other, conflict, not_found}
use pichost.Auth.{Libraries}
use pichost.Routes.Users.{
  UpdateProfileRequest, ChangePasswordRequest, Handler, username_exists, email_exists, update_user,
  select_hash, update_hash,
}
use pichost.Routes.Users.Handlers.{
  UserProfile, internal, or_fail, or_none, guard, fetch_profile_row, build_user_profile,
}

abbrev pub unauthorized : ℕ
unauthorized = 401

module _ (router : StorageRouter) where
  unfoldable pub ensure_backend_exists : UpdateProfileRequest → Handler (Unit {0})
  ensure_backend_exists payload = elim payload.storage_backend [
    | none ↦ pure tt
    | some backend ↦ elim (get router backend) [
      | none ↦ throw (error_json_args bad_request "user.unknown_backend" (backend ∷ []))
      | some b ↦ pure tt
    ]
  ]

unfoldable pub ensure_username_available : Uuid → Option String → Handler (Unit {0})
ensure_username_available user_id none = pure tt
ensure_username_available user_id (some username) = do
  taken ← send (username_exists username user_id) (or_fail internal)
  guard (not taken) (error_json conflict "user.username_taken")

unfoldable pub ensure_email_available : Uuid → Option String → Handler (Unit {0})
ensure_email_available user_id none = pure tt
ensure_email_available user_id (some email) = do
  taken ← send (email_exists email user_id) (or_fail internal)
  guard (not taken) (error_json conflict "user.email_taken")

-- `to_value` is the JSON text of a setting, where it has one.
module _ (to_value : String → Option String) where
  unfoldable pub serialize_watermark_config : UpdateProfileRequest → Handler (Bool × Option String)
  serialize_watermark_config payload = elim payload.watermark_config [
    | none ↦ pure (false, none)
    | some w ↦ elim w [
      | none ↦ pure (true, none)
      | some cfg ↦ elim (to_value cfg) [
        | none ↦ throw (error_json bad_request "user.watermark_invalid")
        | some json ↦ pure (true, some json)
      ]
    ]
  ]

abbrev updated : Result DbError (Unit {0}) → Handler (Unit {0})
updated (ok u) = pure tt
updated (err (unique_violation e)) = throw (error_json conflict "user.username_email_taken")
updated (err (other e)) = throw internal

unfoldable pub apply_profile_update :
    Uuid → UpdateProfileRequest → Bool → Option String → Handler (Unit {0})
apply_profile_update user_id payload wm_provided wm_value =
    send (update_user payload wm_provided wm_value user_id) updated

module _ (router : StorageRouter) (to_value : String → Option String)
    (valid_watermark : String → Bool) where
  unfoldable pub update_my_profile : AuthUser → UpdateProfileRequest → Handler UserProfile
  update_my_profile user payload = do
    ensure_backend_exists router payload
    ensure_username_available user.id payload.username
    ensure_email_available user.id payload.email
    wm ← serialize_watermark_config to_value payload
    apply_profile_update user.id payload wm.0 wm.1
    found ← fetch_profile_row user.id
    row ← or_none internal found
    pure (build_user_profile valid_watermark row)

unfoldable pub fetch_password_hash : Uuid → Handler String
fetch_password_hash user_id = do
  current_hash ← send (select_hash user_id) (or_fail internal)
  or_none (error_json not_found "user.not_found") current_hash

unfoldable pub update_password_hash : Uuid → String → Handler (Unit {0})
update_password_hash user_id new_hash = send (update_hash new_hash user_id) (or_fail internal)

module _ (libs : Libraries) where
  unfoldable pub verify_current_password :
      (current_password stored_hash : String) → Handler (Unit {0})
  verify_current_password current_password stored_hash = do
    parsed_hash ← or_none internal (libs.parse_hash stored_hash)
    guard (libs.verify_password current_password parsed_hash)
        (error_json unauthorized "user.current_password_incorrect")

  unfoldable pub hash_new_password : String → Handler String
  hash_new_password new_password = or_fail internal (libs.hash_password new_password)

  unfoldable pub change_my_password : AuthUser → ChangePasswordRequest → Handler String
  change_my_password user payload = do
    guard (not (ltb (byte_length payload.new_password) 8))
        (error_json bad_request "user.password_too_weak")
    current_hash ← fetch_password_hash user.id
    verify_current_password payload.current_password current_hash
    new_hash ← hash_new_password payload.new_password
    update_password_hash user.id new_hash
    pure "password updated"
