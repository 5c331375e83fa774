-- ===== src/Auth/Handlers.antt =====
-- The middleware `require_auth`, and the handlers of tokens.
use pichost.Common.{
  ℕ, ◌+◌, ◌-◌, String, Option, none, some, Result, ok, err, map_err, ok_or, unwrap_or, Bool, true,
  false, not, ◌=ₛ◌, ltb, if◌then◌else◌, strip_prefix,
}
use pichost.Prog.{Prog, ret, send, bind, ◌>>=◌, ◌>>◌, pure, throw}
use pichost.TaskQueue.{Uuid}
use pichost.Upload.{ApiError, error_json, AuthUser, bad_request, internal_server_error}
use pichost.Auth.{
  AccessPart, Claims, Libraries, AuthConfig, User, Call, Answer, clock, new_uuid, check, revoke,
  select_user, select_username,
}

abbrev unauthorized : ℕ
unauthorized = 401

abbrev forbidden : ℕ
forbidden = 403

abbrev pub Handler : Type 0 → Type 0
Handler A = Prog Call Answer (Result ApiError A)

abbrev pub refused : String → ApiError
refused key = error_json unauthorized key

abbrev pub internal : String → ApiError
internal key = error_json internal_server_error key

abbrev pub or_err : {A : Type 0} → ApiError → Option A → Handler A
or_err e none = throw e
or_err e (some a) = pure a

abbrev pub guard : Bool → ApiError → Handler (Unit {0})
guard true e = pure tt
guard false e = throw e

-- `blacklist.check(jti).await.unwrap_or(true)`
abbrev pub check_revoked : String → ApiError → Handler (Unit {0})
check_revoked jti e = send (check jti) λ r. guard (not (unwrap_or r true)) e

unfoldable pub extract_bearer_token : Option String → Result ApiError String
extract_bearer_token none = err (refused "auth.missing_header")
extract_bearer_token (some auth_header) =
    ok_or (strip_prefix "Bearer " auth_header) (refused "auth.invalid_header_format")

pub record UserInfo : Type 0 where
  pub id : Uuid
  pub username : String
  pub email : Option String
  pub is_admin : Bool
  pub storage_quota : Option ℕ

pub record AuthResponse : Type 0 where
  pub access_token : String
  pub refresh_token : String
  pub user : UserInfo

abbrev info_of : User → UserInfo
info_of u = record {
  id = u.id;
  username = u.username;
  email = u.email;
  is_admin = u.is_admin;
  storage_quota = u.storage_quota;
}

abbrev quota_of : Option User → Option ℕ
quota_of none = none
quota_of (some u) = u.storage_quota

-- `revoke_old_tokens` ignores what the blacklist answers.
abbrev revoke_access : ℕ → Option AccessPart → Prog Call Answer (Unit {0})
revoke_access now none = ret tt
revoke_access now (some part) =
    if ltb 0 (part.access_exp - now)
    then send (revoke part.access_jti (part.access_exp - now)) (λ _. ret tt)
    else ret tt

unfoldable pub revoke_old_tokens : Claims → ℕ → Prog Call Answer (Unit {0})
revoke_old_tokens claims now =
    send (revoke claims.jti (claims.exp - now)) λ _. revoke_access now claims.access

abbrev revoke_if : Bool → String → ℕ → Handler (Unit {0})
revoke_if false jti ttl = pure tt
revoke_if true jti ttl = send (revoke jti ttl) λ _. pure tt

module _ (libs : Libraries) (config : AuthConfig) where
  open libs use {show_uuid, parse_uuid, encode, decode, leeway, parse_hash, verify_password}

  -- The token's claims, when its signature is valid and it has not expired.
  abbrev pub valid_claims : String → ℕ → Option Claims
  valid_claims token now = elim (decode config.jwt_secret token) [
    | none ↦ none
    | some claims ↦ if ltb (claims.exp + leeway) now then none else some claims
  ]

  unfoldable pub decode_and_validate_jwt : String → Handler Claims
  decode_and_validate_jwt token =
      send clock λ now. or_err (refused "auth.invalid_or_expired_token") (valid_claims token now)

  unfoldable pub check_blacklist_and_quota : Claims → Handler AuthUser
  check_blacklist_and_quota claims = do
    check_revoked claims.jti (refused "auth.token_revoked")
    user_id ← or_err (refused "auth.invalid_subject") (parse_uuid claims.sub)
    row ← send (select_user user_id) (λ r. ret (map_err (λ _. internal "common.internal_error") r))
    pure (record { id = user_id; is_admin = claims.is_admin; storage_quota = quota_of row })

  -- The user that the request goes on with.
  unfoldable pub require_auth : Option String → Handler AuthUser
  unfolding decode_and_validate_jwt check_blacklist_and_quota
  require_auth header = do
    token ← ret (extract_bearer_token header)
    claims ← decode_and_validate_jwt token
    check_blacklist_and_quota claims

  abbrev access_claims : User → ℕ → Uuid → Claims
  access_claims user now jti = record {
    sub = show_uuid user.id;
    jti = show_uuid jti;
    exp = now + config.access_token_ttl;
    iat = now;
    is_admin = user.is_admin;
    typ = "access";
    access = none;
  }

  abbrev refresh_claims : User → ℕ → Uuid → Uuid → Claims
  refresh_claims user now jti access_jti = record {
    sub = show_uuid user.id;
    jti = show_uuid jti;
    exp = now + config.refresh_token_ttl;
    iat = now;
    is_admin = user.is_admin;
    typ = "refresh";
    access =
        some (record {
          access_jti = show_uuid access_jti;
          access_exp = now + config.access_token_ttl;
        });
  }

  unfoldable pub generate_tokens : User → ApiError → Handler (String × String)
  generate_tokens user e = send clock λ now. send new_uuid λ access_jti.
      send new_uuid λ refresh_jti. do
        access ←
            ret (map_err (λ _. e) (encode config.jwt_secret (access_claims user now access_jti)))
        refresh ← ret (
            map_err (λ _. e)
              (encode config.jwt_secret (refresh_claims user now refresh_jti access_jti)))
        pure (access, refresh)

  abbrev respond : User → String × String → AuthResponse
  respond user (access, refresh) = record {
    access_token = access;
    refresh_token = refresh;
    user = info_of user;
  }

  unfoldable pub login : String → String → Handler AuthResponse
  unfolding generate_tokens
  login username password = do
    row ←
        send (select_username username)
          (λ r. ret (map_err (λ _. internal "common.internal_error") r))
    user ← or_err (refused "auth.invalid_credentials") row
    parsed_hash ← or_err (internal "common.internal_error") (parse_hash user.password_hash)
    guard (verify_password password parsed_hash) (refused "auth.invalid_credentials")
    tokens ← generate_tokens user (internal "common.internal_error")
    pure (respond user tokens)

  unfoldable pub lookup_user_for_refresh : String → Handler User
  lookup_user_for_refresh sub = do
    user_id ← or_err (refused "auth.invalid_subject") (parse_uuid sub)
    row ← send (select_user user_id) (λ r. ret (map_err (λ _. internal "auth.internal_error") r))
    or_err (refused "auth.user_not_found") row

  -- After the checks of the refresh token.
  unfoldable pub rotate : Claims → User → Handler AuthResponse
  unfolding generate_tokens revoke_old_tokens
  rotate claims user = do
    tokens ← generate_tokens user (internal "auth.token_generation_failed")
    send clock λ now. bind (revoke_old_tokens claims now) λ _. pure (respond user tokens)

  -- `decode::<RefreshTokenClaims>` also needs the two fields of a refresh token.
  abbrev pub refresh_claims_of : Option Claims → Option Claims
  refresh_claims_of none = none
  refresh_claims_of (some claims) = elim claims.access [ none ↦ none | some part ↦ some claims ]

  unfoldable pub refresh : String → Handler AuthResponse
  unfolding lookup_user_for_refresh rotate
  refresh token = send clock λ now. do
    claims ←
        or_err (refused "auth.invalid_refresh_token") (refresh_claims_of (valid_claims token now))
    guard (claims.typ =ₛ "refresh") (refused "auth.invalid_token_type")
    check_revoked claims.jti (refused "auth.refresh_token_revoked")
    user ← lookup_user_for_refresh claims.sub
    rotate claims user

  -- A missing header and one without the prefix give the same answer here.
  abbrev logout_token : Option String → Option String
  logout_token none = none
  logout_token (some header) = strip_prefix "Bearer " header

  unfoldable pub logout : Option String → Handler (Unit {0})
  logout header = do
    token ← or_err (refused "auth.missing_header") (logout_token header)
    claims ← or_err (refused "auth.invalid_token") (decode config.jwt_secret token)
    guard (claims.typ =ₛ "access") (error_json bad_request "auth.logout_access_only")
    send clock λ now. revoke_if (ltb 0 (claims.exp - now)) claims.jti (claims.exp - now)

-- The middleware behind `require_auth`; `none` is a request that has not passed it.
unfoldable pub require_admin : Option AuthUser → Result ApiError AuthUser
require_admin none = err (refused "auth.authentication_required")
require_admin (some user) =
    if user.is_admin then ok user else err (error_json forbidden "auth.admin_required")
