-- ===== src/Auth/Register.antt =====
-- Registration: `register` and its helpers in pichost-api/src/routes/auth.rs, with pichost-
-- api/src/services/user_ops.rs.
use pichost.Common.{
  ℕ, ◌≡◌, refl, String, List, [], ◌∷◌, Option, none, some, Result, ok, map_err, Bool, true, false,
  not, ◌==◌, ltb, if◌then◌else◌, byte_length, arith, length, any,
}
use pichost.Prog.{Prog, ret, send, bind, ◌>>=◌, ◌>>◌, pure, throw, run}
use pichost.Storage.{◌⧺◌}
use pichost.TaskQueue.{Uuid}
use pichost.Upload.{ApiError, error_json, bad_request}
use pichost.Routes.{DbError, unique_violation, other, conflict}
use pichost.Auth.{
  Libraries, AuthConfig, User, Call, Answer, World, Invite, exec, InviteVerifyStatus, valid, used,
  expired, not_found, count_users, insert_user, set_prefix, verify_detail, consume, status_of,
  mark_used, is_open,
}
use pichost.Auth.Handlers.{Handler, internal, guard, generate_tokens, AuthResponse}

pub record RegisterRequest : Type 0 where
  pub username : String
  pub password : String
  pub email : Option String
  pub invite_code : Option String

abbrev or_internal : {A : Type 0} → Result String A → Handler A
or_internal r = ret (map_err (λ _. internal "common.internal_error") r)

abbrev invite_error : String → Handler (Unit {0})
invite_error key = throw (error_json bad_request key)

abbrev check_status : InviteVerifyStatus → Handler (Unit {0})
check_status valid = pure tt
check_status used = invite_error "invite.used"
check_status expired = invite_error "invite.expired"
check_status not_found = invite_error "invite.invalid"

unfoldable pub check_invite_code : Option String → Bool → Handler (Unit {0})
check_invite_code invite_code true = pure tt
check_invite_code none false = invite_error "invite.required"
check_invite_code (some code) false = do
  status ← send (verify_detail code) or_internal
  check_status status

abbrev insert_error : DbError → ApiError
insert_error (unique_violation e) = error_json conflict "auth.username_exists"
insert_error (other e) = internal "common.internal_error"

-- The answer to `consume` is ignored.
abbrev consume_code : Bool → Option String → Uuid → Prog Call Answer (Unit {0})
consume_code true invite_code user_id = ret tt
consume_code false none user_id = ret tt
consume_code false (some code) user_id = send (consume code user_id) λ _. ret tt

module _ (libs : Libraries) (config : AuthConfig) (storage_quota_default : ℕ) where
  abbrev storage_quota : Option ℕ
  storage_quota = if ltb 0 storage_quota_default then some storage_quota_default else none

  abbrev pub created : RegisterRequest → String → Bool → Uuid → User
  created payload hash is_first_user id = record {
    id = id;
    username = payload.username;
    email = payload.email;
    password_hash = hash;
    is_admin = is_first_user;
    storage_quota = storage_quota;
  }

  unfoldable pub create_user_and_tokens :
      RegisterRequest → Bool → Handler (User × (String × String))
  unfolding generate_tokens
  create_user_and_tokens payload is_first_user = do
    hash ← or_internal (libs.hash_password payload.password)
    user_id ←
        send (insert_user payload.username payload.email hash is_first_user storage_quota)
          (λ r. ret (map_err insert_error r))
    bind (consume_code is_first_user payload.invite_code user_id) λ _.
        send (set_prefix ("users/" ⧺ libs.show_uuid user_id) user_id) λ _. do
          tokens ←
              generate_tokens libs config (created payload hash is_first_user user_id)
                (internal "common.internal_error")
          pure (created payload hash is_first_user user_id, tokens)

  abbrev respond : User × (String × String) → AuthResponse
  respond (user, (access, refresh)) = record {
    access_token = access;
    refresh_token = refresh;
    user = record {
      id = user.id;
      username = user.username;
      email = user.email;
      is_admin = user.is_admin;
      storage_quota = user.storage_quota;
    };
  }

  unfoldable pub register : RegisterRequest → Handler AuthResponse
  unfolding check_invite_code create_user_and_tokens
  register payload = do
    guard (not (ltb (byte_length payload.password) 6))
        (error_json bad_request "validation.password_min_length")
    user_count ← send count_users or_internal
    check_invite_code payload.invite_code (user_count == 0)
    result ← create_user_and_tokens payload (user_count == 0)
    pure (respond result)

status_of-mark_used :
    (code : String) (user : Uuid) (now : String) (invites : List Invite)
    → status_of code now invites ≡ valid
    → status_of code now (mark_used code user invites) ≡ used
status_of-mark_used code user now [] h = absurd (ground (arith, h))
status_of-mark_used code user now (i ∷ invites) h =
    ground (arith, h, status_of-mark_used code user now invites)

open-valid :
    (code : String) (now : String) (invites : List Invite)
    → status_of code now invites ≡ valid
    → any (is_open code) invites ≡ true
open-valid code now [] h = absurd (ground (arith, h))
open-valid code now (i ∷ invites) h = ground (arith, h, open-valid code now invites)

module _ (libs : Libraries) (config : AuthConfig) (quota : ℕ) where
  -- The store finds the code of a registration valid before it, and is used up afterwards.
  abbrev pub UsesUp : Option String → World → World → Type 0
  UsesUp invite_code w w' =
      (code : String) × (invite_code ≡ some code)
      × (status_of code (w.stamp w.now) w.invites ≡ valid)
      × (status_of code (w'.stamp w'.now) w'.invites ≡ used)

  uses_up :
      (payload : RegisterRequest) (o : Option String) (w w' : World) (answer : AuthResponse)
      → payload.invite_code ≡ o
      → (length w.users == 0) ≡ false
      → run (exec (λ c. false)) (register libs config quota payload) w ≡ (ok answer, w')
      → UsesUp payload.invite_code w w'
  unfolding register check_invite_code create_user_and_tokens generate_tokens run exec
  uses_up payload none w w' answer p later h = absurd (ground (arith, p, later, h))
  uses_up payload (some code) w w' answer p later h =
      let was : status_of code (w.stamp w.now) w.invites ≡ valid = ground (arith, p, later, h) in
      let is : status_of code (w'.stamp w'.now) w'.invites ≡ used = ground (
        arith,
        p,
        later,
        h,
        was,
        open-valid code (w.stamp w.now) w.invites was,
        status_of-mark_used code w.next_uuid (w.stamp w.now) w.invites was,
      ) in
      (code, p, was, is)

  -- When calls do not fail, a registration that goes through while there are users already named
  -- an invite code that the store's own test found valid, and finds used up afterwards. (The test
  -- compares the formatted times as texts, and chrono's `%f` writes nanoseconds where seconds were
  -- meant, so within a minute an expired code may be found valid, and a valid one expired.)
  pub register-UsesUp :
      (payload : RegisterRequest) (w w' : World) (answer : AuthResponse)
      → (length w.users == 0) ≡ false
      → run (exec (λ c. false)) (register libs config quota payload) w ≡ (ok answer, w')
      → UsesUp payload.invite_code w w'
  register-UsesUp payload w w' answer later h =
      uses_up payload payload.invite_code w w' answer refl later h
