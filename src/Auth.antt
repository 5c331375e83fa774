-- ===== src/Auth.antt =====
-- Tokens and who may pass: pichost-api/src/middleware/auth.rs, and login, refresh, logout and registration of
-- pichost-api/src/routes/auth.rs. JSON web tokens, password hashes and the text form of UUIDs are
-- libraries, the parameter `Libraries`. A token's claims are those of a refresh token, which has two
-- fields more than those of an access token. `exec` gives the calls their meaning: the blacklist
-- keeps an identifier until a time, as its contract and Redis' SETEX do; calls fail where `down` says
-- so. Of a user, the storage prefix and the watermark settings are left out.
pub mod Handlers
pub mod Revoked
pub mod Register
mod Examples
use pichost.Common.{
  ℕ, zero, suc, ◌+◌, ◌-◌, String, List, [], ◌∷◌, Option, none, some, Result, ok, err, Bool, true,
  false, ◌=ₛ◌, ◌==◌, ltb, leb, if◌then◌else◌, ◌++◌, ◌&&◌, any, map, length,
}
use Prim.Native.String.{compare}
use text.Mathlib.Text.{is_le}
use pichost.TaskQueue.{Uuid}
use pichost.Routes.{DbError, unique_violation, other}

-- The fields `access_jti` and `access_exp` of a refresh token.
pub record AccessPart : Type 0 where
  pub access_jti : String
  pub access_exp : ℕ

pub record Claims : Type 0 where
  pub sub : String
  pub jti : String
  pub exp : ℕ
  pub iat : ℕ
  pub is_admin : Bool
  pub typ : String
  pub access : Option AccessPart

-- `decode` is the claims of a token with a valid signature. The library accepts a token until
-- `leeway` seconds after its expiry.
pub record Libraries : Type 0 where
  pub show_uuid : Uuid → String
  pub parse_uuid : String → Option Uuid
  pub encode : String → Claims → Result String String
  pub decode : String → String → Option Claims
  pub leeway : ℕ
  pub parse_hash : String → Option String
  pub verify_password : (password hash : String) → Bool
  pub hash_password : String → Result String String

pub record AuthConfig : Type 0 where
  pub jwt_secret : String
  pub access_token_ttl : ℕ
  pub refresh_token_ttl : ℕ

pub record User : Type 0 where
  pub id : Uuid
  pub username : String
  pub email : Option String
  pub password_hash : String
  pub is_admin : Bool
  pub storage_quota : Option ℕ

-- A row of `invite_codes`; its column of the expiry is a text.
pub record Invite : Type 0 where
  pub code : String
  pub expires_at : Option String
  pub used_by : Option Uuid

pub data InviteVerifyStatus : Type 0 where
  valid used expired not_found : InviteVerifyStatus

pub data Call : Type 0 where
  clock : Call
  new_uuid : Call
  check : (jti : String) → Call
  revoke : (jti : String) (ttl : ℕ) → Call
  select_user : (id : Uuid) → Call
  select_username : (username : String) → Call
  count_users : Call
  insert_user :
      (username : String) (email : Option String) (hash : String) (is_admin : Bool)
      (storage_quota : Option ℕ)
      → Call
  set_prefix : (storage_prefix : String) (id : Uuid) → Call
  verify_detail : (code : String) → Call
  consume : (code : String) (used_by : Uuid) → Call

abbrev pub Answer : Call → Type 0
Answer clock = ℕ
Answer new_uuid = Uuid
Answer (check j) = Result String Bool
Answer (revoke j n) = Result String (Unit {0})
Answer (select_user i) = Result String (Option User)
Answer (select_username n) = Result String (Option User)
Answer count_users = Result String ℕ
Answer (insert_user n e h a q) = Result DbError Uuid
Answer (set_prefix p i) = Result String (Unit {0})
Answer (verify_detail c) = Result String InviteVerifyStatus
Answer (consume c u) = Result String (Unit {0})

-- The blacklist has the time until which each identifier is revoked, the last one written first.
pub record World : Type 0 where
  pub now : ℕ
  pub blacklist : List (String × ℕ)
  pub users : List User
  pub next_uuid : Uuid
  pub invites : List Invite
  -- chrono's `format` of a time with the pattern of the store
  pub stamp : ℕ → String

abbrev pub is_revoked : String → ℕ → List (String × ℕ) → Bool
is_revoked jti now [] = false
is_revoked jti now ((j, until) ∷ entries) =
    if j =ₛ jti then ltb now until else is_revoked jti now entries

abbrev pub find : (User → Bool) → List User → Option User
find p [] = none
find p (u ∷ users) = if p u then some u else find p users

-- The order of texts, `expires <= now`.
abbrev is_until : String → String → Bool
is_until expires now = is_le (compare expires now)

abbrev status : String → Invite → InviteVerifyStatus
status now i = elim i.used_by [
  | some u ↦ used
  | none ↦ elim i.expires_at [ none ↦ valid | some e ↦ if is_until e now then expired else valid ]
]

-- `verify_detail` of the SQLite store, at a time that is formatted as `now`.
abbrev pub status_of : String → String → List Invite → InviteVerifyStatus
status_of code now [] = not_found
status_of code now (i ∷ invites) =
    let rest = status_of code now invites in if i.code =ₛ code then status now i else rest

abbrev pub is_open : String → Invite → Bool
is_open code i = i.code =ₛ code && elim i.used_by [ none ↦ true | some u ↦ false ]

-- The one statement of `consume`: it marks the code where nobody has used it.
abbrev pub mark_used : String → Uuid → List Invite → List Invite
mark_used code user invites =
    map (λ i. if is_open code i then record i { used_by = some user } else i) invites

abbrev new_user : String → Option String → String → Bool → Option ℕ → Uuid → User
new_user n e h a q id = record {
  id = id;
  username = n;
  email = e;
  password_hash = h;
  is_admin = a;
  storage_quota = q;
}

module _ (down : Call → Bool) where
  unfoldable pub exec : (c : Call) → World → Answer c × World
  exec clock w = (w.now, w)
  exec new_uuid w = (w.next_uuid, record w { next_uuid = w.next_uuid + 1 })
  exec (check jti) w =
      if down (check jti) then (err "down", w) else (ok (is_revoked jti w.now w.blacklist), w)
  exec (revoke jti ttl) w =
      if down (revoke jti ttl)
      then (err "down", w)
      else (ok tt, record w { blacklist = (jti, w.now + ttl) ∷ w.blacklist })
  exec (select_user i) w =
      if down (select_user i) then (err "down", w) else (ok (find (λ u. u.id == i) w.users), w)
  exec (select_username n) w =
      if down (select_username n)
      then (err "down", w)
      else (ok (find (λ u. u.username =ₛ n) w.users), w)
  exec count_users w = if down count_users then (err "down", w) else (ok (length w.users), w)
  exec (insert_user n e h a q) w =
      if down (insert_user n e h a q)
      then (err (other "down"), w)
      else if any (λ u. u.username =ₛ n) w.users
      then (err (unique_violation "UNIQUE constraint failed"), w)
      else (
        ok w.next_uuid,
        record w {
          users = w.users ++ new_user n e h a q w.next_uuid ∷ [];
          next_uuid = w.next_uuid + 1;
        },
      )
  exec (set_prefix p i) w = if down (set_prefix p i) then (err "down", w) else (ok tt, w)
  exec (verify_detail c) w =
      if down (verify_detail c)
      then (err "down", w)
      else (ok (status_of c (w.stamp w.now) w.invites), w)
  exec (consume c u) w =
      if down (consume c u)
      then (err "down", w)
      else if any (is_open c) w.invites
      then (ok tt, record w { invites = mark_used c u w.invites })
      else (err "invite code not found", w)

-- The same world some seconds later.
abbrev pub later : ℕ → World → World
later seconds w = record w { now = w.now + seconds }
