-- ===== src/Routes/StorageConfigs/Examples.antt =====
-- Two configurations of user 1, one of user 2, and requests on them.
use pichost.Common.{
  ℕ, ◌≤◌, ◌≡◌, refl, String, List, [], ◌∷◌, none, some, true, false, ok, arith, map,
}
use pichost.Prog.{run}
use pichost.Crypto.{decode_key, encrypt_token, mask_token}
use pichost.TaskQueue.Samples.{write_num}
use pichost.Crypto.Samples.{ciphers, write, key, nonce, read}
use pichost.Routes.StorageConfigs.{ConfigRow, Tables, Outside, effect, CreateConfigRequest, exec}
use pichost.Routes.StorageConfigs.Handlers.{
  Settings, set_default, create_config, api_base_for_provider,
}
use pichost.Routes.StorageConfigs.Defaults.{chosen, set_default-chosen}
use pichost.Routes.StorageConfigs.Owned.{owned}
use pichost.Routes.StorageConfigs.Limit.{Operation, create, choose, perform_all, perform_all-bound}

abbrev row : ℕ → ℕ → String → ConfigRow
row i u n = record {
  id = i;
  user_id = u;
  name = n;
  provider = "github";
  is_default = true;
  config = ("repo", some "me/pics") ∷ [];
  created_at = 1;
  updated_at = 1;
}

abbrev tables : Tables
tables = record {
  rows = row 1 1 "a" ∷ record (row 2 1 "b") { is_default = false } ∷ row 3 2 "a" ∷ [];
  images = [];
  next_id = 4;
  now = 9;
}

abbrev outside : Outside
outside = record {
  down = λ c. false;
  git_host = λ url token. ok (record { status = 200; body = none });
  nonce = nonce;
}

set_default-chosen_example :
    (run (effect outside) (set_default 1 2) tables).1.rows ≡ map (chosen 1 2 9) tables.rows
set_default-chosen_example =
    set_default-chosen outside 1 2 tables (record (row 2 1 "b") { is_default = false }) refl refl

-- Choosing does not touch the default of the other user.
other_default :
    map (chosen 1 2 9) tables.rows
    ≡ record (row 1 1 "a") { is_default = false }
      ∷ record (row 2 1 "b") { updated_at = 9 }
      ∷ row 3 2 "a"
      ∷ []
other_default = refl

abbrev settings : Settings
settings = record { storage_max_user_configs = some 3; token_encryption_key = some (write key) }

abbrev new : String → CreateConfigRequest
new n = record {
  name = n;
  provider = "gitcode";
  token = "token";
  repo = "me/pics";
  branch = none;
  path_prefix = none;
  is_default = none;
}

abbrev requests : List (Operation ciphers (λ n. "n") settings × Outside)
requests =
    (create 1 (new "c"), outside) ∷ (create 1 (new "d"), outside) ∷ (choose 1 1, outside) ∷ []

perform_all-bound_example : owned 1 (perform_all ciphers (λ n. "n") settings requests tables) ≤ 3
perform_all-bound_example =
    perform_all-bound ciphers (λ n. "n") settings 1 requests tables (omega arith)

-- The first request fills the limit, the second is refused.
full : owned 1 (perform_all ciphers (λ n. "n") settings requests tables) ≡ 3
unfolding run set_default exec create_config api_base_for_provider decode_key read write_num
    encrypt_token mask_token
full = refl
