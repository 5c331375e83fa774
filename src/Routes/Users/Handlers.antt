-- ===== src/Routes/Users/Handlers.antt =====
-- The statistics and the profile of a user: users.rs.
use pichost.Common.{
  ℕ, String, List, [], ◌∷◌, Option, none, some, Result, ok, err, map_err, Bool, true, false,
  if◌then◌else◌, get_or,
}
use pichost.Prog.{ret, send, ◌>>=◌, pure, throw}
use pichost.Storage.Router.{StorageRouter}
use pichost.TaskQueue.{Uuid}
use pichost.Upload.{ApiError, error_json, AuthUser, internal_server_error}
use pichost.Routes.{not_found}
use pichost.Routes.Users.{
  UserRow, Numerals, Handler, select_quota, get_user_stats, set_user_stats, sum_images,
  select_profile, get_field,
}

abbrev pub internal : ApiError
internal = error_json internal_server_error "common.internal_error"

abbrev pub or_fail : {E A : Type 0} → ApiError → Result E A → Handler A
or_fail f r = ret (map_err (λ _. f) r)

abbrev pub or_none : {A : Type 0} → ApiError → Option A → Handler A
or_none f none = throw f
or_none f (some a) = pure a

abbrev pub guard : Bool → ApiError → Handler (Unit {0})
guard true f = pure tt
guard false f = throw f

pub record UserStats : Type 0 where
  pub total_images : ℕ
  pub total_size : ℕ
  pub backend : String
  pub storage_quota : Option ℕ

abbrev pub flatten : Option (Option ℕ) → Option ℕ
flatten none = none
flatten (some q) = q

unfoldable pub fetch_user_quota : Uuid → Handler (Option ℕ)
fetch_user_quota user_id = do r ← send (select_quota user_id) (or_fail internal); pure (flatten r)

unfoldable pub query_user_stats : Uuid → Handler (ℕ × ℕ)
query_user_stats user_id = do
  row ← send (sum_images user_id) (or_fail internal)
  pure (row.0, get_or row.1 0)

abbrev parsed : (String → Option ℕ) → Option String → Option ℕ
parsed parse none = none
parsed parse (some v) = parse v

abbrev both : Option ℕ → Option ℕ → String → Option ℕ → Option UserStats
both (some n) (some m) backend quota =
    some (record { total_images = n; total_size = m; backend = backend; storage_quota = quota })
both (some n) none backend quota = none
both none o backend quota = none

-- `.ok().flatten()`
abbrev flat : Result String (Option (List (String × String))) → Option (List (String × String))
flat (ok o) = o
flat (err e) = none

-- A profile as it is answered: all of the row but the hash of the password.
pub record UserProfile : Type 0 where
  pub id : Uuid
  pub username : String
  pub email : Option String
  pub storage_backend : String
  pub storage_prefix : String
  pub storage_quota : Option ℕ
  pub is_admin : Bool
  pub created_at : ℕ
  pub updated_at : ℕ
  pub watermark_config : Option String

module _ (numerals : Numerals) (router : StorageRouter) where
  -- Fields that are missing or no numbers make the entry count as empty.
  unfoldable pub try_cached_stats :
      Option (List (String × String)) → String → Option ℕ → Option UserStats
  try_cached_stats none default_backend quota = none
  try_cached_stats (some m) default_backend quota =
      both (parsed numerals.parse (get_field "total_images" m))
        (parsed numerals.parse (get_field "total_size" m)) default_backend quota

  unfoldable pub populate_user_stats_cache : Uuid → ℕ → ℕ → UserStats → Handler UserStats
  populate_user_stats_cache user_id total_images total_size stats =
      send
        (set_user_stats user_id (("total_images", total_images) ∷ ("total_size", total_size) ∷ []))
        λ _. pure stats

  abbrev stats_from : ℕ × ℕ → Option ℕ → UserStats
  stats_from (n, m) quota = record {
    total_images = n;
    total_size = m;
    backend = router.default;
    storage_quota = quota;
  }

  abbrev cached_or : Uuid → Option ℕ → Option UserStats → Handler UserStats
  cached_or user_id quota (some stats) = pure stats
  cached_or user_id quota none = do
    totals ← query_user_stats user_id
    populate_user_stats_cache user_id totals.0 totals.1 (stats_from totals quota)

  unfoldable pub get_my_stats : AuthUser → Handler UserStats
  unfolding fetch_user_quota query_user_stats populate_user_stats_cache try_cached_stats
  get_my_stats user = do
    quota ← fetch_user_quota user.id
    send (get_user_stats user.id)
        λ r. cached_or user.id quota (try_cached_stats (flat r) router.default quota)

-- The row with the columns of PROFILE_SELECT; a watermark that is no valid setting is dropped
-- from an answer.
unfoldable pub fetch_profile_row : Uuid → Handler (Option UserRow)
fetch_profile_row user_id = send (select_profile user_id) (or_fail internal)

module _ (valid_watermark : String → Bool) where
  abbrev checked : Option String → Option String
  checked none = none
  checked (some v) = if valid_watermark v then some v else none

  unfoldable pub build_user_profile : UserRow → UserProfile
  build_user_profile row = record {
    id = row.id;
    username = row.username;
    email = row.email;
    storage_backend = row.storage_backend;
    storage_prefix = row.storage_prefix;
    storage_quota = row.storage_quota;
    is_admin = row.is_admin;
    created_at = row.created_at;
    updated_at = row.updated_at;
    watermark_config = checked row.watermark_config;
  }

  unfoldable pub get_my_profile : AuthUser → Handler UserProfile
  unfolding fetch_profile_row build_user_profile
  get_my_profile user = do
    found ← fetch_profile_row user.id
    row ← or_none (error_json not_found "user.not_found") found
    pure (build_user_profile row)
