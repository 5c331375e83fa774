-- ===== src/Routes/Users/Examples.antt =====
-- A user who asks for statistics twice, changes the profile and then the password.
use pichost.Common.{◌≡◌, refl, [], ◌∷◌, none, some, ok, err, true, false, ◌=ₛ◌, ap, ◌≤◌}
use pichost.Prog.{run}
use pichost.Storage.Router.{StorageRouter}
use pichost.Upload.{AuthUser, error_json}
use pichost.Auth.{Libraries}
use pichost.TaskQueue.Samples.{write_num, read_num, read-write_num, time_of}
use pichost.Routes.Users.{
  UserRow, UpdateProfileRequest, ChangePasswordRequest, Numerals, World, exec, with_hash,
}
use pichost.Routes.Users.Handlers.{
  UserStats, get_my_stats, fetch_user_quota, query_user_stats, populate_user_stats_cache,
  try_cached_stats, build_user_profile, fetch_profile_row,
}
use pichost.Routes.Users.Account.{
  change_my_password, fetch_password_hash, verify_current_password, hash_new_password,
  update_password_hash, update_my_profile, ensure_backend_exists, ensure_username_available,
  ensure_email_available, serialize_watermark_config, apply_profile_update, unauthorized,
}
use pichost.Routes.Users.Passwords.{Replaced, change_my_password-Replaced}
use pichost.Routes.Users.Statistics.{up, get_my_stats-again}
use pichost.Routes.Users.Updates.{Updated, update_my_profile_lem}

abbrev numerals : Numerals
numerals = record {
  show = λ n. write_num n "";
  parse = λ s. time_of (read_num s);
  parse-show = λ n. ap time_of (read-write_num n "");
}

abbrev libs : Libraries
libs = record {
  show_uuid = λ n. "u";
  parse_uuid = λ s. none;
  encode = λ secret c. ok "token";
  decode = λ secret t. none;
  leeway = 60;
  parse_hash = some;
  verify_password = λ p h. p =ₛ h;
  hash_password = ok;
}

abbrev router : StorageRouter
router = record { backends = []; default = "local"; poisoned = false }

abbrev row : UserRow
row = record {
  id = 1;
  username = "ann";
  email = none;
  password_hash = "old secret";
  storage_backend = "local";
  storage_prefix = "u1";
  storage_quota = some 100;
  is_admin = false;
  created_at = 5;
  updated_at = 5;
  watermark_config = none;
}

abbrev ann : AuthUser
ann = record { id = 1; is_admin = false; storage_quota = some 100 }

abbrev bob : UserRow
bob = record row { id = 2; username = "bob" }

abbrev world : World
world = record { users = row ∷ bob ∷ []; stats = []; sums = λ i. (3, some 30); now = 9 }

abbrev wish : ChangePasswordRequest
wish = record { current_password = "old secret"; new_password = "new secret" }

abbrev new_world : World
new_world = record world { users = with_hash "new secret" 9 row ∷ bob ∷ [] }

changes :
    run (exec numerals up) (change_my_password libs ann wish) world
    ≡ (ok "password updated", new_world)
unfolding change_my_password fetch_password_hash verify_current_password hash_new_password
    update_password_hash run exec
changes = refl

change_my_password-Replaced_example : (8 ≤ 10) × Replaced libs numerals up 1 wish world new_world
change_my_password-Replaced_example =
    change_my_password-Replaced libs numerals up ann wish world new_world "password updated" changes

abbrev guess : ChangePasswordRequest
guess = record wish { current_password = "a guess" }

refuses :
    run (exec numerals up) (change_my_password libs ann guess) world
    ≡ (err (error_json unauthorized "user.current_password_incorrect"), world)
unfolding change_my_password fetch_password_hash verify_current_password hash_new_password
    update_password_hash run exec
refuses = refl

abbrev answer : UserStats
answer = record { total_images = 3; total_size = 30; backend = "local"; storage_quota = some 100 }

abbrev seen : World
seen = record world {
  stats = (1, ("total_images", write_num 3 "") ∷ ("total_size", write_num 30 "") ∷ []) ∷ [];
}

asks : run (exec numerals up) (get_my_stats numerals router ann) world ≡ (ok answer, seen)
unfolding get_my_stats fetch_user_quota query_user_stats populate_user_stats_cache try_cached_stats
    run exec
asks = refl

get_my_stats-again_example :
    (run
      (exec numerals up)
      (get_my_stats numerals router ann)
      (record seen { sums = λ i. (4, some 40) })).0
    ≡ ok answer
get_my_stats-again_example =
    get_my_stats-again numerals router ann world seen answer (λ i. (4, some 40)) asks

abbrev edit : UpdateProfileRequest
edit = record {
  username = some "anne";
  email = some "a@b.c";
  storage_backend = none;
  watermark_config = some none;
}

abbrev edited : UserRow
edited = record row { username = "anne"; email = some "a@b.c"; updated_at = 9 }

abbrev edited_world : World
edited_world = record world { users = edited ∷ bob ∷ [] }

edits :
    run (exec numerals up) (update_my_profile router some (λ v. true) ann edit) world
    ≡ (ok (build_user_profile (λ v. true) edited), edited_world)
unfolding update_my_profile ensure_backend_exists ensure_username_available ensure_email_available
    serialize_watermark_config apply_profile_update fetch_profile_row run exec
edits = refl

update_my_profile_lem_example :
    Updated numerals up router some
      (λ v. true)
      1
      edit
      world
      edited_world
      (build_user_profile (λ v. true) edited)
update_my_profile_lem_example =
    update_my_profile_lem numerals up router some (λ v. true) ann edit world edited_world
      (build_user_profile (λ v. true) edited) edits
