-- ===== src/RateLimit/Examples.antt =====
-- Requests of one address, with a limit of two.
use pichost.Common.{ℕ, ◌≡◌, ◌≤◌, refl, String, List, [], ◌∷◌, true, false, arith, some}
use pichost.RateLimit.{extract_client_ip}
use pichost.RateLimit.SqliteLimiter.{Request, granted, granted-bound, key_at}
use pichost.RateLimit.RedisLimiter.{answers, answers-first_allowed}

abbrev two_of : String → ℕ
two_of policy = 2

abbrev at : ℕ → Request
at n = record { policy = "auth"; key = "10.0.0.1"; time = n }

abbrev burst : List Request
burst = at 61 ∷ at 62 ∷ record (at 62) { key = "10.0.0.2" } ∷ at 63 ∷ at 121 ∷ []

granted-bound_example : granted two_of 60 (key_at two_of 60 (at 61)) burst [] ≤ 2
granted-bound_example = granted-bound two_of 60 (key_at two_of 60 (at 61)) burst []

-- A client that comes every half minute is denied for ever on Redis.
answers-first_allowed_example :
    answers "auth" "10.0.0.1" 2 60 (30 ∷ 30 ∷ 30 ∷ 30 ∷ []) (record { now = 0; counters = [] })
    ≡ true ∷ true ∷ false ∷ false ∷ []
answers-first_allowed_example =
    answers-first_allowed "auth" "10.0.0.1" 2 60 30 (30 ∷ 30 ∷ 30 ∷ []) 0 (omega arith)
      (omega arith, (omega arith, (omega arith, tt)))

-- The address is the first one of the header, which the client may have written itself.
spoofed : extract_client_ip (some "1.2.3.4, 10.0.0.1") ≡ "1.2.3.4"
unfolding extract_client_ip
spoofed = refl
