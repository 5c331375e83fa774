-- ===== src/Routes/Users/Statistics.antt =====
-- What the cache of a user's statistics answers: get_my_stats of users.rs.
use pichost.Common.{
  ℕ, ◌≡◌, refl, sym, ◌∙◌, ap, String, List, [], ◌∷◌, Option, none, some, Result, ok, Bool, false,
  ◌=ₛ◌, get_or, arith, eq_refl, eq_iff,
}
use pichost.Prog.{run}
use pichost.Upload.{ApiError, AuthUser}
use pichost.Storage.Router.{StorageRouter}
use pichost.TaskQueue.{Uuid}
use pichost.Routes.Users.{
  UserRow, Numerals, Call, World, exec, get_field, option_map, first, is_user, set_field, stats_of,
}
use pichost.Routes.Users.Handlers.{
  flatten, UserStats, get_my_stats, fetch_user_quota, query_user_stats, populate_user_stats_cache,
  try_cached_stats,
}

get_field-set_field :
    (k v : String) (fs : List (String × String)) → get_field k (set_field k v fs) ≡ some v
get_field-set_field k v [] = ground (arith, eq_refl k)
get_field-set_field k v ((j, w) ∷ fs) = ground (arith, eq_refl k, get_field-set_field k v fs)

get_field-other :
    (j k v : String) (fs : List (String × String))
    → (k =ₛ j) ≡ false
    → get_field j (set_field k v fs) ≡ get_field j fs
get_field-other j k v [] h = ground (arith, h)
get_field-other j k v ((i, w) ∷ fs) h = ground (arith, h, eq_iff i k, get_field-other j k v fs h)

abbrev pub up : Call → Bool
up c = false

module _ (numerals : Numerals) (router : StorageRouter) where
  abbrev quota_of : Uuid → World → Option ℕ
  quota_of id w =
      flatten (option_map (λ (u : UserRow). u.storage_quota) (first (is_user id) w.users))

  abbrev fresh : Uuid → World → UserStats
  fresh id w = record {
    total_images = (w.sums id).0;
    total_size = get_or (w.sums id).1 0;
    backend = router.default;
    storage_quota = quota_of id w;
  }

  abbrev entry : ℕ → ℕ → List (String × String) → List (String × String)
  entry n m fs =
      set_field "total_size" (numerals.show m) (set_field "total_images" (numerals.show n) fs)

  abbrev stored : Uuid → World → World
  stored id w = record w {
    stats = (id, entry (w.sums id).0 (get_or (w.sums id).1 0) (stats_of id w.stats)) ∷ w.stats;
  }

  abbrev answer_of : Uuid → World → Option UserStats → Result ApiError UserStats × World
  answer_of id w (some s) = (ok s, w)
  answer_of id w none = (ok (fresh id w), stored id w)

  abbrev cached : Uuid → World → Option UserStats
  cached id w =
      try_cached_stats numerals router (some (stats_of id w.stats)) router.default (quota_of id w)

  split_cached :
      (user : AuthUser) (w : World) (c : Option UserStats)
      → cached user.id w ≡ c
      → run (exec numerals up) (get_my_stats numerals router user) w ≡ answer_of user.id w c
  unfolding get_my_stats fetch_user_quota query_user_stats populate_user_stats_cache run exec
  split_cached user w none h = ground (arith, h)
  split_cached user w (some s) h = ground (arith, h)

  get_my_stats_lem :
      (user : AuthUser) (w : World)
      → run (exec numerals up) (get_my_stats numerals router user) w
        ≡ answer_of user.id w (cached user.id w)
  get_my_stats_lem user w = split_cached user w (cached user.id w) refl

  -- What is written is found.
  cached-stored :
      (id : Uuid) (w : World) (sums : Uuid → ℕ × Option ℕ)
      → cached id (record (stored id w) { sums = sums }) ≡ some (fresh id w)
  unfolding try_cached_stats
  cached-stored id w sums =
      let n = (w.sums id).0 in
      let m = get_or (w.sums id).1 0 in
      let fs = stats_of id w.stats in
      let count : get_field "total_images" (entry n m fs) ≡ some (numerals.show n) =
        get_field-other "total_images" "total_size" (numerals.show m)
          (set_field "total_images" (numerals.show n) fs) refl
        ∙ get_field-set_field "total_images" (numerals.show n) fs in
      let size : get_field "total_size" (entry n m fs) ≡ some (numerals.show m) =
        get_field-set_field "total_size" (numerals.show m)
          (set_field "total_images" (numerals.show n) fs) in
      ground (arith, count, size, numerals.parse-show n, numerals.parse-show m)

  -- The entry that an answer leaves gives that answer.
  cached-again :
      (id : Uuid) (w w' : World) (answer : UserStats) (sums : Uuid → ℕ × Option ℕ)
      (c : Option UserStats)
      → cached id w ≡ c
      → answer_of id w c ≡ (ok answer, w')
      → cached id (record w' { sums = sums }) ≡ some answer
  cached-again id w w' answer sums none e h =
      let same : w' ≡ stored id w = cc h in
      let shown : fresh id w ≡ answer = cc h in
      ap (λ (v : World). cached id (record v { sums = sums })) same
      ∙ cached-stored id w sums
      ∙ ap some shown
  cached-again id w w' answer sums (some s) e h =
      let same : w' ≡ w = cc h in
      let shown : s ≡ answer = cc h in
      ap (λ (v : World). cached id (record v { sums = sums })) same ∙ e ∙ ap some shown

  -- An answer of `get_my_stats` is repeated while its cache entry lives: if no call fails, the same
  -- user is answered the same again, whatever images the user has by then.
  pub get_my_stats-again :
      (user : AuthUser) (w w' : World) (answer : UserStats) (sums : Uuid → ℕ × Option ℕ)
      → run (exec numerals up) (get_my_stats numerals router user) w ≡ (ok answer, w')
      → (run (exec numerals up) (get_my_stats numerals router user) (record w' { sums = sums })).0
        ≡ ok answer
  get_my_stats-again user w w' answer sums h =
      let found : cached user.id (record w' { sums = sums }) ≡ some answer =
        cached-again user.id w w' answer sums (cached user.id w) refl
          (sym (get_my_stats_lem user w) ∙ h) in
      ap (λ (r : Result ApiError UserStats × World). r.0)
        (split_cached user (record w' { sums = sums }) (some answer) found)
