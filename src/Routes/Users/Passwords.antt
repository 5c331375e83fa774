-- ===== src/Routes/Users/Passwords.antt =====
-- What a change of the password comes to: change_my_password of users.rs.
use pichost.Common.{
  ◌≡◌, ◌≤◌, String, some, ok, err, Bool, true, map, if◌then◌else◌, byte_length, arith,
}
use pichost.Prog.{run}
use pichost.Upload.{ApiError, AuthUser}
use pichost.Auth.{Libraries}
use pichost.Routes.Users.{
  UserRow, ChangePasswordRequest, Numerals, Call, World, exec, first, option_map, is_user,
  with_hash,
}
use pichost.Routes.Users.Account.{
  change_my_password, fetch_password_hash, verify_current_password, hash_new_password,
  update_password_hash,
}
use pichost.TaskQueue.{Uuid}

module _ (libs : Libraries) (numerals : Numerals) (down : Call → Bool) where
  -- The current password was right, and the new one's hash is stored for this user alone.
  abbrev pub Replaced : Uuid → ChangePasswordRequest → World → World → Type 0
  Replaced id payload w w' =
      (stored h n : String) × (option_map (λ (u : UserRow). u.password_hash)
          (first (is_user id) w.users)
        ≡ some stored)
      × (libs.parse_hash stored ≡ some h)
      × (libs.verify_password payload.current_password h ≡ true)
      × (libs.hash_password payload.new_password ≡ ok n)
      × (w'
          ≡ record w { users = map (λ v. if is_user id v then with_hash n w.now v else v) w.users })

  -- When `change_my_password` answers that the password was updated, whatever calls fail, then the
  -- new password has at least eight bytes, the current one was verified against the stored hash of
  -- this user, and the only change is that this user's row has the new one's hash.
  pub change_my_password-Replaced :
      (user : AuthUser) (payload : ChangePasswordRequest) (w w' : World) (answer : String)
      → run (exec numerals down) (change_my_password libs user payload) w ≡ (ok answer, w')
      → (8 ≤ byte_length payload.new_password) × Replaced user.id payload w w'
  unfolding change_my_password fetch_password_hash verify_current_password hash_new_password
      update_password_hash run exec
  change_my_password-Replaced user payload w w' answer h = ground (arith, h)

  -- When it answers an error, whatever calls fail, nothing has changed.
  pub change_my_password-fails :
      (user : AuthUser) (payload : ChangePasswordRequest) (w w' : World) (e : ApiError)
      → run (exec numerals down) (change_my_password libs user payload) w ≡ (err e, w')
      → w' ≡ w
  unfolding change_my_password fetch_password_hash verify_current_password hash_new_password
      update_password_hash run exec
  change_my_password-fails user payload w w' e h = ground (arith, h)
