-- ===== src/RateLimit/SqliteLimiter.antt =====
-- The limiter of the lite mode: pichost-core/src/state/sqlite_rate_limiter.rs on the table `rate_limits`
-- of migrations-sqlite/0011_create_lite_state_tables.sql. `count_up` is its one statement: insert a row
-- with the count 1, or add one to the row with this key, and return the count.
use pichost.Common.{
  ℕ, ◌+◌, ◌-◌, ◌/◌, ◌≤◌, ◌≡◌, refl, String, List, [], ◌∷◌, Result, ok, err, Bool, true, false, ◌&&◌,
  ◌=ₛ◌, ◌==◌, leb, if◌then◌else◌, arith, eq_iff, eq_refl, Bool-cases, inl, inr,
}
use pichost.Prog.{Prog, ret, send, ◌>>=◌, pure, run}
use pichost.RateLimit.{RateLimitResult, allow, deny}

pub record Key : Type 0 where
  pub policy : String
  pub key : String
  pub window_start : ℕ

pub data Call : Type 0 where
  utc_now : Call
  count_up : Key → Call

abbrev pub Answer : Call → Type 0
Answer utc_now = ℕ
Answer (count_up k) = Result String ℕ

unfoldable pub check : String → String → ℕ → ℕ → Prog Call Answer (Result String RateLimitResult)
check policy key limit window = send utc_now λ now. do
  count ← send (count_up (record { policy = policy; key = key; window_start = now / window })) ret
  pure (if leb count limit then allow else deny window)

pub record Table : Type 0 where
  pub now : ℕ
  pub rows : List (Key × ℕ)

abbrev same : Key → Key → Bool
same j k = j.policy =ₛ k.policy && j.key =ₛ k.key && j.window_start == k.window_start

abbrev pub count_of : Key → List (Key × ℕ) → ℕ
count_of k [] = 0
count_of k ((j, n) ∷ rows) = let rest = count_of k rows in if same j k then n else rest

unfoldable pub add_one : Key → List (Key × ℕ) → List (Key × ℕ)
add_one k [] = (k, 1) ∷ []
add_one k ((j, n) ∷ rows) =
    let rest = add_one k rows in if same j k then (j, n + 1) ∷ rows else (j, n) ∷ rest

unfoldable pub exec : (c : Call) → Table → Answer c × Table
unfolding add_one
exec utc_now t = (t.now, t)
exec (count_up k) t = (ok (count_of k (add_one k t.rows)), record t { rows = add_one k t.rows })

count_of-add_one_same :
    (k : Key) (rows : List (Key × ℕ)) → count_of k (add_one k rows) ≡ count_of k rows + 1
unfolding add_one
count_of-add_one_same k [] = ground (arith, eq_refl k.policy, eq_refl k.key)
count_of-add_one_same k ((j, n) ∷ rows) = ground (arith, count_of-add_one_same k rows)

count_of-add_one_other :
    (k j : Key) (rows : List (Key × ℕ))
    → same j k ≡ false
    → count_of k (add_one j rows) ≡ count_of k rows
unfolding add_one
count_of-add_one_other k j [] h = ground (arith, h)
count_of-add_one_other k j ((i, n) ∷ rows) h =
    ground
      (arith, h, eq_iff i.policy j.policy, eq_iff i.key j.key, count_of-add_one_other k j rows h)

same→≡ : (j k : Key) → same j k ≡ true → j ≡ k
same→≡ j k h = ground (arith, h, eq_iff j.policy k.policy, eq_iff j.key k.key)

-- A request: its policy, its key, and when it comes.
pub record Request : Type 0 where
  pub policy : String
  pub key : String
  pub time : ℕ

module _ (limit_of : String → ℕ) (window : ℕ) where
  abbrev pub key_at : Request → Key
  key_at r = record { policy = r.policy; key = r.key; window_start = r.time / window }

  abbrev attempt : Request → List (Key × ℕ) → Result String RateLimitResult × Table
  attempt r rows =
      run exec (check r.policy r.key (limit_of r.policy) window)
        (record { now = r.time; rows = rows })

  abbrev is_allowed : Result String RateLimitResult → Bool
  is_allowed (ok r) = r.allowed
  is_allowed (err e) = false

  -- How many of the requests of one key and window are allowed.
  abbrev pub granted : Key → List Request → List (Key × ℕ) → ℕ
  granted k [] rows = 0
  granted k (r ∷ requests) rows =
      (if same (key_at r) k && is_allowed (attempt r rows).0 then 1 else 0)
      + granted k requests (attempt r rows).1.rows

  attempt-exec :
      (r : Request) (rows : List (Key × ℕ))
      → attempt r rows ≡ (
        ok (if leb (count_of (key_at r) rows + 1) (limit_of r.policy) then allow else deny window),
        record { now = r.time; rows = add_one (key_at r) rows },
      )
  unfolding check run exec
  attempt-exec r rows = rw (count_of-add_one_same (key_at r) rows) refl

  granted-left :
      (k : Key) (requests : List Request) (rows : List (Key × ℕ))
      → granted k requests rows ≤ limit_of k.policy - count_of k rows
  granted-left k [] rows = omega arith
  granted-left k (r ∷ requests) rows =
      let ih = granted-left k requests (add_one (key_at r) rows) in
      rw (attempt-exec r rows) (elim (Bool-cases (same (key_at r) k)) [
        | inl own ↦
            let this = same→≡ (key_at r) k own in
            let counted = count_of-add_one_same (key_at r) rows in
            ground (arith, ih, own, this, counted)
        | inr foreign ↦
            ground (arith, ih, foreign, count_of-add_one_other k (key_at r) rows foreign)
      ])

  -- In no window are more requests of a key allowed than the policy's limit, whatever requests of
  -- other keys and windows come in between.
  pub granted-bound :
      (k : Key) (requests : List Request) (rows : List (Key × ℕ))
      → granted k requests rows ≤ limit_of k.policy
  granted-bound k requests rows = omega (arith, granted-left k requests rows)
