-- ===== src/Auth/Examples.antt =====
-- A user who logs in, refreshes and logs out.
use pichost.Common.{
  ℕ, String, ◌≡◌, refl, [], ◌∷◌, none, some, ok, err, Bool, true, false, ◌=ₛ◌, if◌then◌else◌, arith,
  ◌==◌, map, Result,
}
use pichost.Prog.{run, Prog, ret, send, interleave, turn}
use pichost.Auth.{
  Answer, Claims, AccessPart, Libraries, AuthConfig, User, Call, World, exec, later, status_of,
  valid,
}
use pichost.Auth.Handlers.{
  require_auth, extract_bearer_token, decode_and_validate_jwt, check_blacklist_and_quota, refresh,
  generate_tokens, logout, AuthResponse, lookup_user_for_refresh, rotate,
}
use pichost.Auth.Register.{
  register, register-UsesUp, UsesUp, RegisterRequest, create_user_and_tokens, check_invite_code,
}
use pichost.Upload.{ApiError}
use pichost.Auth.Revoked.{is_refused, require_auth-logout, refresh-rotation}

abbrev access : Claims
access = record {
  sub = "u1";
  jti = "j1";
  exp = 1900;
  iat = 1000;
  is_admin = false;
  typ = "access";
  access = none;
}

abbrev part : AccessPart
part = record { access_jti = "j1"; access_exp = 1900 }

abbrev renewal : Claims
renewal = record access { jti = "j2"; exp = 9000; typ = "refresh"; access = some part }

abbrev libs : Libraries
libs = record {
  show_uuid = λ n. if n == 1 then "u1" else "j9";
  parse_uuid = λ s. if s =ₛ "u1" then some 1 else none;
  encode = λ secret c. ok "new";
  decode = λ secret t. if t =ₛ "A" then some access else if t =ₛ "R" then some renewal else none;
  leeway = 60;
  parse_hash = some;
  verify_password = λ p h. p =ₛ h;
  hash_password = ok;
}

abbrev config : AuthConfig
config = record { jwt_secret = "secret"; access_token_ttl = 900; refresh_token_ttl = 8000 }

abbrev ann : User
ann = record {
  id = 1;
  username = "ann";
  email = none;
  password_hash = "x";
  is_admin = false;
  storage_quota = some 7;
}

abbrev stamp : ℕ → String
stamp n = "2024-05-01T09:59:000000000Z"

abbrev world : World
world = record {
  now = 1200;
  blacklist = [];
  users = ann ∷ [];
  next_uuid = 5;
  invites = [];
  stamp = stamp;
}

abbrev no_failure : Call → Bool
no_failure c = false

require_auth-logout_example :
    let after = run (exec (λ c. false)) (logout libs config (some "Bearer A")) world in
    (after.0 ≡ ok tt)
    × (is_refused
          (run (exec no_failure) (require_auth libs config (some "Bearer A")) (later 100 after.1)).0
        ≡ true)
require_auth-logout_example =
    require_auth-logout libs config "Bearer A" "A" access world 100 no_failure refl refl refl
      (omega arith)

-- Before the logout it passes.
passes :
    (run (exec no_failure) (require_auth libs config (some "Bearer A")) world).0
    ≡ ok (record { id = 1; is_admin = false; storage_quota = some 7 })
unfolding require_auth extract_bearer_token decode_and_validate_jwt check_blacklist_and_quota run
    exec
passes = refl

-- A refresh token passes too: its type is not looked at.
refresh_token_passes :
    (run (exec no_failure) (require_auth libs config (some "Bearer R")) world).0
    ≡ ok (record { id = 1; is_admin = false; storage_quota = some 7 })
unfolding require_auth extract_bearer_token decode_and_validate_jwt check_blacklist_and_quota run
    exec
refresh_token_passes = refl

-- So does the token of a user who is gone, without a quota.
gone_user_passes :
    (run
      (exec no_failure)
      (require_auth libs config (some "Bearer A"))
      (record world { users = [] })).0
    ≡ ok (record { id = 1; is_admin = false; storage_quota = none })
unfolding require_auth extract_bearer_token decode_and_validate_jwt check_blacklist_and_quota run
    exec
gone_user_passes = refl

-- In the minute after its expiry a token that was revoked passes again.
revoked_passes :
    let after = run (exec no_failure) (logout libs config (some "Bearer A")) world in
    is_refused
      (run (exec no_failure) (require_auth libs config (some "Bearer A")) (later 730 after.1)).0
    ≡ false
unfolding logout require_auth extract_bearer_token decode_and_validate_jwt check_blacklist_and_quota
    run exec
revoked_passes = refl

abbrev refreshed : AuthResponse
refreshed = record {
  access_token = "new";
  refresh_token = "new";
  user = record {
    id = 1;
    username = "ann";
    email = none;
    is_admin = false;
    storage_quota = some 7;
  };
}

abbrev world_after : World
world_after = record world { blacklist = ("j1", 1900) ∷ ("j2", 9000) ∷ []; next_uuid = 7 }

refresh-rotation_example :
    (is_refused (run (exec no_failure) (refresh libs config "R") (later 100 world_after)).0 ≡ true)
    × (is_refused
          (run
            (exec no_failure)
            (require_auth libs config (some "Bearer A"))
            (later 200 world_after)).0
        ≡ true)
unfolding refresh lookup_user_for_refresh rotate run exec
refresh-rotation_example =
    refresh-rotation libs config "R" renewal part world world_after refreshed "Bearer A" "A" access
      100 200 no_failure refl refl refl refl refl refl refl refl (omega arith) (omega arith)

abbrev invited : World
invited = record world {
  invites =
      record { code = "welcome"; expires_at = some "2024-05-01T10:00:500000000Z"; used_by = none }
      ∷ [];
}

abbrev bob : RegisterRequest
bob = record { username = "bob"; password = "secret"; email = none; invite_code = some "welcome" }

abbrev bob_in : AuthResponse
bob_in = record {
  access_token = "new";
  refresh_token = "new";
  user = record { id = 5; username = "bob"; email = none; is_admin = false; storage_quota = none };
}

abbrev after_bob : World
after_bob = (run (exec no_failure) (register libs config 0 bob) invited).1

register-UsesUp_example : UsesUp libs config 0 (some "welcome") invited after_bob
unfolding register create_user_and_tokens generate_tokens check_invite_code run exec
register-UsesUp_example = register-UsesUp libs config 0 bob invited after_bob bob_in refl refl

abbrev has_registered : Prog Call Answer (Result ApiError AuthResponse) → Bool
has_registered (ret (ok a)) = true
has_registered (ret (err e)) = false
has_registered (send c k) = false

-- Two registrations that run at the same time both go through with one code.
both_registered :
    map has_registered
      (interleave
        (exec no_failure)
        (0 ∷ 1 ∷ 0 ∷ 1 ∷ 0 ∷ 1 ∷ 0 ∷ 1 ∷ 0 ∷ 1 ∷ 0 ∷ 1 ∷ 0 ∷ 1 ∷ 0 ∷ 1 ∷ [])
        (register libs config 0 bob ∷ register libs config 0 (record bob { username = "eve" }) ∷ [])
        invited).0
    ≡ true ∷ true ∷ []
unfolding register create_user_and_tokens generate_tokens check_invite_code exec interleave turn
both_registered = refl

-- A code that expired at 10:00:05.9 is found valid at 10:00:40.1, since the seconds are not
-- written.
late_is_valid :
    status_of "welcome" "2024-05-01T10:00:100000000Z" (
      record { code = "welcome"; expires_at = some "2024-05-01T10:00:900000000Z"; used_by = none }
      ∷ [])
    ≡ valid
late_is_valid = refl
