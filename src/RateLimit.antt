-- ===== src/RateLimit.antt =====
-- Rate limiting: the middleware pichost-api/src/middleware/rate_limit.rs. Its limiter is a parameter:
-- RateLimit.SqliteLimiter, or RateLimit.RedisLimiter. Times are seconds; the rest of the request, `next`,
-- is what happens after `passed`.
pub mod SqliteLimiter
pub mod RedisLimiter
mod Examples
use Prim.Native.Char.{Char, code}
use Prim.Native.String
use pichost.Common.{
  ℕ, String, List, Option, none, some, Result, ok, err, Bool, true, false, ◌==◌, leb, if◌then◌else◌,
  trim,
}
use pichost.Prog.{Prog, ret, bind}
use pichost.Storage.{◌⧺◌}
use pichost.TaskQueue.{Uuid}

pub record RateLimitResult : Type 0 where
  pub allowed : Bool
  pub retry_after : ℕ

abbrev pub allow : RateLimitResult
allow = record { allowed = true; retry_after = 0 }

abbrev pub deny : ℕ → RateLimitResult
deny n = record { allowed = false; retry_after = n }

abbrev pub window_secs : ℕ
window_secs = 60

pub record Maxima : Type 0 where
  pub auth_max : ℕ
  pub upload_max : ℕ
  pub general_max : ℕ
  pub public_max : ℕ

pub data Verdict : Type 0 where
  passed : Verdict
  too_many : (retry_after : ℕ) → Verdict

-- `val.split(',').next()`
abbrev before_comma : String → String
before_comma String.[] = String.[]
before_comma (String.◌∷◌ c s) =
    let rest = before_comma s in if code c == b',' then String.[] else String.◌∷◌ c rest

-- The header X-Forwarded-For, when it is text.
unfoldable pub extract_client_ip : Option String → String
extract_client_ip none = "unknown"
extract_client_ip (some val) = trim (before_comma val)

abbrev verdict : RateLimitResult → Verdict
verdict r = if r.allowed then passed else too_many r.retry_after

module _ {C : Type 0} {R : C → Type 0}
    (check : String → String → ℕ → ℕ → Prog C R (Result String RateLimitResult)) (maxima : Maxima)
    (show_uuid : Uuid → String) where
  -- A limiter that fails lets the request pass.
  abbrev or_allow : Result String RateLimitResult → RateLimitResult
  or_allow (ok r) = r
  or_allow (err e) = allow

  unfoldable pub limiter_check : String → String → ℕ → Prog C R RateLimitResult
  limiter_check policy key max = bind (check policy key max window_secs) λ r. ret (or_allow r)

  abbrev limited : String → String → ℕ → Prog C R Verdict
  limited policy key max = bind (limiter_check policy key max) λ r. ret (verdict r)

  abbrev key_of : Option Uuid → Option String → String
  key_of (some u) xff = show_uuid u
  key_of none xff = extract_client_ip xff

  unfoldable pub rate_limit_auth : Option String → Prog C R Verdict
  unfolding limiter_check
  rate_limit_auth xff = limited "auth" (extract_client_ip xff) maxima.auth_max

  unfoldable pub rate_limit_upload : Option Uuid → Option String → Prog C R Verdict
  unfolding limiter_check
  rate_limit_upload user xff = limited "upload" (key_of user xff) maxima.upload_max

  unfoldable pub rate_limit_general : Option Uuid → Option String → Prog C R Verdict
  unfolding limiter_check
  rate_limit_general user xff = limited "general" (key_of user xff) maxima.general_max

  unfoldable pub rate_limit_public : Option String → Prog C R Verdict
  unfolding limiter_check
  rate_limit_public xff = limited "public" (extract_client_ip xff) maxima.public_max
