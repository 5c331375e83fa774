-- ===== src/RateLimit/RedisLimiter.antt =====
-- The limiter on Redis: `RedisRateLimiter` of pichost-api/src/middleware/rate_limit.rs and `incr` of
-- pichost-api/src/cache/mod.rs. `exec` gives the commands their documented effect: INCR counts from 0
-- where the key is missing or has expired and keeps its time to live, EXPIRE sets it anew.
use pichost.Common.{
  ℕ, ◌+◌, ◌-◌, ◌<◌, ◌≡◌, refl, ap, ap₂, ◌∙◌, String, List, [], ◌∷◌, Option, none, some, Result, ok,
  err, unwrap_or, Bool, false, ◌=ₛ◌, leb, ltb, if◌then◌else◌, arith, eq_refl, All,
}
use pichost.Prog.{Prog, ret, send, bind, ◌>>=◌, ◌>>◌, pure, run}
use pichost.Storage.{◌⧺◌}
use pichost.RateLimit.{RateLimitResult, allow, deny}

pub data Call : Type 0 where
  get_connection : Call
  incr_expire : (key : String) (ttl : ℕ) → Call
  get_count : (key : String) → Call
  get_ttl : (key : String) → Call

abbrev pub Answer : Call → Type 0
Answer get_connection = Result String (Unit {0})
Answer (incr_expire k n) = Result String (Unit {0})
Answer (get_count k) = Result String ℕ
Answer (get_ttl k) = Result String ℕ

unfoldable pub rl_key : String → String → String
rl_key policy suffix = "rl:" ⧺ policy ⧺ ":" ⧺ suffix

-- INCR and EXPIRE in one pipeline, then GET.
unfoldable pub incr : String → ℕ → Prog Call Answer (Result String ℕ)
incr key ttl = send get_connection ret >> send (incr_expire key ttl) ret >> send (get_count key) ret

abbrev ttl_of : String → ℕ → Result String (Unit {0}) → Prog Call Answer ℕ
ttl_of key window_secs (ok _) = send (get_ttl key) λ r. ret (unwrap_or r window_secs)
ttl_of key window_secs (err e) = ret window_secs

unfoldable pub ttl_or_window : String → ℕ → Prog Call Answer ℕ
ttl_or_window key window_secs = send get_connection (ttl_of key window_secs)

unfoldable pub check : String → String → ℕ → ℕ → Prog Call Answer (Result String RateLimitResult)
unfolding incr ttl_or_window
check policy key limit window = do
  count ← incr (rl_key policy key) window
  if leb count limit
      then pure allow
      else bind (ttl_or_window (rl_key policy key) window) λ retry_after. pure (deny retry_after)

pub record Counter : Type 0 where
  pub key : String
  pub count : ℕ
  pub expires : ℕ

pub record Server : Type 0 where
  pub now : ℕ
  pub counters : List Counter

-- The count of a key that has not expired, and when it does.
abbrev pub lookup : String → ℕ → List Counter → Option Counter
lookup k now [] = none
lookup k now (c ∷ cs) =
    let rest = lookup k now cs in
    if c.key =ₛ k then if ltb now c.expires then some c else none else rest

abbrev count_or_zero : Option Counter → ℕ
count_or_zero none = 0
count_or_zero (some c) = c.count

abbrev read_count : Option Counter → Result String ℕ
read_count none = err "nil is no number"
read_count (some c) = ok c.count

abbrev read_ttl : ℕ → Option Counter → Result String ℕ
read_ttl now none = err "-2 is no u64"
read_ttl now (some c) = ok (c.expires - now)

unfoldable pub exec : (c : Call) → Server → Answer c × Server
exec get_connection s = (ok tt, s)
exec (incr_expire k ttl) s = (
  ok tt,
  record s {
    counters =
        record {
          key = k;
          count = count_or_zero (lookup k s.now s.counters) + 1;
          expires = s.now + ttl;
        }
        ∷ s.counters;
  },
)
exec (get_count k) s = (read_count (lookup k s.now s.counters), s)
exec (get_ttl k) s = (read_ttl s.now (lookup k s.now s.counters), s)

module _ (policy key : String) (limit window : ℕ) where
  abbrev attempt : Server → Result String RateLimitResult × Server
  attempt s = run exec (check policy key limit window) s

  abbrev is_allowed : Result String RateLimitResult → Bool
  is_allowed (ok r) = r.allowed
  is_allowed (err e) = false

  -- Requests of one client: each comes some seconds after the one before.
  abbrev pub answers : List ℕ → Server → List Bool
  answers [] s = []
  answers (gap ∷ gaps) s =
      let t = record s { now = s.now + gap } in
      is_allowed (attempt t).0 ∷ answers gaps (attempt t).1

  -- The first requests up to the limit are allowed, and no other.
  abbrev pub first_allowed : ℕ → List ℕ → List Bool
  first_allowed n [] = []
  first_allowed n (gap ∷ gaps) = leb (n + 1) limit ∷ first_allowed (n + 1) gaps

  attempt-exec :
      (s : Server)
      → 0 < window
      → let n = count_or_zero (lookup (rl_key policy key) s.now s.counters) + 1 in
        (is_allowed (attempt s).0 ≡ leb n limit)
        × ((attempt s).1 ≡ record s {
          counters =
              record { key = rl_key policy key; count = n; expires = s.now + window } ∷ s.counters;
        })
  unfolding check incr ttl_or_window run exec
  attempt-exec s w = ground (arith, w, eq_refl (rl_key policy key))

  abbrev counted : ℕ → ℕ → List Counter → List Counter
  counted t n rest = record { key = rl_key policy key; count = n; expires = t + window } ∷ rest

  found :
      (t n gap : ℕ) (rest : List Counter)
      → gap < window
      → count_or_zero (lookup (rl_key policy key) (t + gap) (counted t n rest)) ≡ n
  found t n gap rest small = ground (arith, small, eq_refl (rl_key policy key))

  still-counting :
      (gaps : List ℕ) (t n : ℕ) (rest : List Counter)
      → All (λ gap. gap < window) gaps
      → answers gaps (record { now = t; counters = counted t n rest }) ≡ first_allowed n gaps
  still-counting [] t n rest h = refl
  still-counting (gap ∷ gaps) t n rest (small, h) =
      let s : Server = record { now = t + gap; counters = counted t n rest } in
      let (verdict, after) = attempt-exec s (omega arith) in
      let m = found t n gap rest small in
      ap₂ (λ b bs. b ∷ bs) (verdict ∙ ap (λ c. leb (c + 1) limit) m)
        (ap (answers gaps) after
          ∙ ap
              (λ c.
                answers gaps
                  (record { now = t + gap; counters = counted (t + gap) (c + 1) s.counters }))
              m
          ∙ still-counting gaps (t + gap) (n + 1) s.counters h)

  -- When a client's requests each follow the one before in less than the window, exactly the first
  -- of them up to the limit are allowed, and all that come later are denied, however long the
  -- client goes on: every request sets the counter's time to live anew.
  pub answers-first_allowed :
      (gap : ℕ) (gaps : List ℕ) (now : ℕ)
      → 0 < window
      → All (λ g. g < window) gaps
      → answers (gap ∷ gaps) (record { now = now; counters = [] }) ≡ first_allowed 0 (gap ∷ gaps)
  answers-first_allowed gap gaps now w h =
      let (verdict, after) = attempt-exec (record { now = now + gap; counters = [] }) w in
      ap₂ (λ b bs. b ∷ bs) verdict
        (ap (answers gaps) after ∙ still-counting gaps (now + gap) 1 [] h)
