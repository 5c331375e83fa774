-- ===== src/Auth/Revoked.antt =====
-- Revoked tokens.
use pichost.Common.{
  ℕ, ◌+◌, ◌-◌, ◌<◌, ◌≡◌, refl, String, List, ◌∷◌, some, Result, ok, err, Bool, true, false, ◌=ₛ◌,
  ltb, arith, eq_refl, strip_prefix, if◌then◌else◌,
}
use pichost.Prog.{run}
use pichost.Upload.{ApiError}
use pichost.Auth.{Claims, AccessPart, Libraries, AuthConfig, Call, World, exec, is_revoked, later}
use pichost.Auth.Handlers.{
  require_auth, extract_bearer_token, decode_and_validate_jwt, check_blacklist_and_quota, logout,
  refresh, rotate, revoke_old_tokens, lookup_user_for_refresh, generate_tokens, AuthResponse,
}

abbrev pub is_refused : {A : Type 0} → Result ApiError A → Bool
is_refused (ok a) = false
is_refused (err e) = true

stays_revoked :
    (jti : String) (now ttl seconds : ℕ) (entries : List (String × ℕ))
    → seconds < ttl
    → is_revoked jti (now + seconds) ((jti, now + ttl) ∷ entries) ≡ true
stays_revoked jti now ttl seconds entries h = ground (arith, h, eq_refl jti)

module _ (libs : Libraries) (config : AuthConfig) (down : Call → Bool) where
  -- A token whose identifier is on the blacklist passes nowhere, even when the blacklist cannot be
  -- asked.
  blocked :
      (header token : String) (claims : Claims) (w : World)
      → strip_prefix "Bearer " header ≡ some token
      → libs.decode config.jwt_secret token ≡ some claims
      → is_revoked claims.jti w.now w.blacklist ≡ true
      → is_refused (run (exec down) (require_auth libs config (some header)) w).0 ≡ true
  unfolding require_auth extract_bearer_token decode_and_validate_jwt check_blacklist_and_quota run
      exec
  blocked header token claims w h d r = ground (arith, h, d, r)

  blocked_refresh :
      (token : String) (claims : Claims) (w : World)
      → libs.decode config.jwt_secret token ≡ some claims
      → is_revoked claims.jti w.now w.blacklist ≡ true
      → is_refused (run (exec down) (refresh libs config token) w).0 ≡ true
  unfolding refresh run exec
  blocked_refresh token claims w d r = ground (arith, d, r)

module _ (libs : Libraries) (config : AuthConfig) where
  -- What a logout whose calls do not fail leaves.
  logout-exec :
      (header token : String) (claims : Claims) (w : World)
      → strip_prefix "Bearer " header ≡ some token
      → libs.decode config.jwt_secret token ≡ some claims
      → (claims.typ =ₛ "access") ≡ true
      → w.now < claims.exp
      → run (exec (λ c. false)) (logout libs config (some header)) w
        ≡ (ok tt, record w { blacklist = (claims.jti, w.now + (claims.exp - w.now)) ∷ w.blacklist })
  unfolding logout run exec
  logout-exec header token claims w h d t e = ground (arith, h, d, t, e)

  -- When no call of a logout with an access token fails, it answers success, and `require_auth`
  -- refuses the token from then on at every moment before its expiry, even if the blacklist or the database no longer
  -- answers then. (The logout answers success too when its entry could not be written, and then the
  -- token is not revoked.)
  pub require_auth-logout :
      (header token : String) (claims : Claims) (w : World) (seconds : ℕ) (down : Call → Bool)
      → strip_prefix "Bearer " header ≡ some token
      → libs.decode config.jwt_secret token ≡ some claims
      → (claims.typ =ₛ "access") ≡ true
      → w.now + seconds < claims.exp
      → let after = run (exec (λ c. false)) (logout libs config (some header)) w in
        (after.0 ≡ ok tt)
        × (is_refused
              (run (exec down) (require_auth libs config (some header)) (later seconds after.1)).0
            ≡ true)
  require_auth-logout header token claims w seconds down h d t e =
      rw (logout-exec header token claims w h d t (omega arith)) (
        refl,
        blocked libs config down header token claims _ h d
            (stays_revoked claims.jti w.now (claims.exp - w.now) seconds w.blacklist (omega arith)),
      )

  -- What the blacklist has after a rotation.
  abbrev revoked_pair : Claims → AccessPart → World → List (String × ℕ)
  revoked_pair claims part w =
      let entries = (claims.jti, w.now + (claims.exp - w.now)) ∷ w.blacklist in
      if ltb 0 (part.access_exp - w.now)
      then (part.access_jti, w.now + (part.access_exp - w.now)) ∷ entries
      else entries

  pair-refresh :
      (claims : Claims) (part : AccessPart) (w : World) (seconds : ℕ)
      → (part.access_jti =ₛ claims.jti) ≡ false
      → w.now + seconds < claims.exp
      → is_revoked claims.jti (w.now + seconds) (revoked_pair claims part w) ≡ true
  pair-refresh claims part w seconds differ soon = ground (arith, differ, soon, eq_refl claims.jti)

  pair-access :
      (claims : Claims) (part : AccessPart) (w : World) (seconds : ℕ)
      → w.now + seconds < part.access_exp
      → is_revoked part.access_jti (w.now + seconds) (revoked_pair claims part w) ≡ true
  pair-access claims part w seconds soon = ground (arith, soon, eq_refl part.access_jti)

  refresh-exec :
      (token : String) (claims : Claims) (part : AccessPart) (w w' : World) (answer : AuthResponse)
      → libs.decode config.jwt_secret token ≡ some claims
      → claims.access ≡ some part
      → run (exec (λ c. false)) (refresh libs config token) w ≡ (ok answer, w')
      → (w'.blacklist ≡ revoked_pair claims part w) × (w'.now ≡ w.now)
  unfolding refresh lookup_user_for_refresh rotate generate_tokens revoke_old_tokens run exec
  refresh-exec token claims part w w' answer d p h = ground (arith, d, p, h)

  -- After a refresh in which no call failed and that went through, neither the refresh token that it used nor the access token
  -- that was issued with it is accepted at any moment before its expiry, even if the blacklist no
  -- longer answers then. (Their identifiers are different; the access token's own claims say the
  -- same identifier and expiry as the refresh token says of it.)
  pub refresh-rotation :
      (token : String) (claims : Claims) (part : AccessPart) (w w' : World) (answer : AuthResponse)
      (header access_token : String) (access : Claims) (n m : ℕ) (down : Call → Bool)
      → libs.decode config.jwt_secret token ≡ some claims
      → claims.access ≡ some part
      → run (exec (λ c. false)) (refresh libs config token) w ≡ (ok answer, w')
      → (part.access_jti =ₛ claims.jti) ≡ false
      → strip_prefix "Bearer " header ≡ some access_token
      → libs.decode config.jwt_secret access_token ≡ some access
      → access.jti ≡ part.access_jti
      → access.exp ≡ part.access_exp
      → w.now + n < claims.exp
      → w.now + m < access.exp
      → (is_refused (run (exec down) (refresh libs config token) (later n w')).0 ≡ true)
        × (is_refused (run (exec down) (require_auth libs config (some header)) (later m w')).0
            ≡ true)
  refresh-rotation token claims part w w' answer header access_token access n m down d p h differ b
        a j e soon before =
      let (entries, same) = refresh-exec token claims part w w' answer d p h in
      (
        blocked_refresh libs config down token claims (later n w') d
            (rw entries (rw same (pair-refresh claims part w n differ soon))),
        blocked libs config down header access_token access (later m w') b a
            (rw entries (rw same (rw j (pair-access claims part w m (ground (arith, before, e)))))),
      )
