-- ===== src/Storage.antt =====
-- Storage backends (pichost-core/src/storage/mod.rs, git.rs, local.rs) and the records that
-- describe a user's storage (pichost-core/src/models.rs), with the errors of pichost-
-- core/src/error.rs. Reading and writing objects is the backend's own affair; a backend is known
-- here by what it is built from, its name and the URLs that it hands out.
pub mod Router
use Prim.Native.Char.{Char, code}
use Prim.Native.String
use pichost.Common.{ℕ, String, Option, none, some, Bool, true, false, ◌==◌, if◌then◌else◌}

pub data StorageError : Type 0 where
  not_found : String → StorageError
  write_failed : String → StorageError
  read_failed : String → StorageError
  connection_failed : String → StorageError
  config : String → StorageError
  payload_too_large : String → StorageError

infixr 60 ◌⧺◌
abbrev pub ◌⧺◌ : String → String → String
a ⧺ b = String.◌++◌ a b

unfoldable pub display : StorageError → String
display (not_found m) = "file not found: " ⧺ m
display (write_failed m) = "write failed: " ⧺ m
display (read_failed m) = "read failed: " ⧺ m
display (connection_failed m) = "connection failed: " ⧺ m
display (config m) = "config error: " ⧺ m
display (payload_too_large m) = "payload too large: " ⧺ m

-- `config` is the text of the JSON value.
pub record UserStorageConfig : Type 0 where
  pub id : ℕ
  pub user_id : ℕ
  pub name : String
  pub provider : String
  pub is_default : Bool
  pub config : String
  pub created_at : ℕ
  pub updated_at : ℕ

pub record GitConfigDetail : Type 0 where
  pub token_encrypted : String
  pub repo : String
  pub branch : String
  pub path_prefix : Option String

pub data GitProvider : Type 0 where
  git_hub git_code : GitProvider

pub record GitStorage : Type 0 where
  pub provider : GitProvider
  pub owner : String
  pub repo : String
  pub branch : String
  pub path_prefix : Option String
  pub token : String
  pub raw_base_url : String
  pub api_base_url : String

pub data Backend : Type 0 where
  local : (base_path base_url : String) → Backend
  rustfs : (endpoint bucket : String) → Backend
  git : GitStorage → Backend

abbrev pub raw_base : GitProvider → String
raw_base git_hub = "raw.githubusercontent.com"
raw_base git_code = "raw.gitcode.com"

abbrev pub api_base : GitProvider → String
api_base git_hub = "https://api.github.com"
api_base git_code = "https://api.gitcode.com/api/v5"

-- `GitStorage::new`
unfoldable pub new_git :
    GitProvider → String → String → String → Option String → String → GitStorage
new_git provider owner repo branch path_prefix token = record {
  provider = provider;
  owner = owner;
  repo = repo;
  branch = branch;
  path_prefix = path_prefix;
  token = token;
  raw_base_url = raw_base provider;
  api_base_url = api_base provider;
}

abbrev pub git_name : GitProvider → String
git_name git_hub = "github"
git_name git_code = "gitcode"

unfoldable pub backend_name : Backend → String
backend_name (local p u) = "local"
backend_name (rustfs e b) = "rustfs"
backend_name (git g) = git_name g.provider

abbrev drop_slash : Char → String → String
drop_slash c String.[] = if code c == b'/' then String.[] else String.◌∷◌ c String.[]
drop_slash c (String.◌∷◌ d s) = String.◌∷◌ c (String.◌∷◌ d s)

-- `trim_end_matches('/')`
unfoldable pub trim_slashes : String → String
trim_slashes String.[] = String.[]
trim_slashes (String.◌∷◌ c s) = drop_slash c (trim_slashes s)

unfoldable pub public_url : Backend → String → String
public_url (local p u) key = trim_slashes u ⧺ "/" ⧺ key
public_url (rustfs e b) key = e ⧺ "/" ⧺ b ⧺ "/" ⧺ key
public_url (git g) key =
    "https://" ⧺ g.raw_base_url ⧺ "/" ⧺ g.owner ⧺ "/" ⧺ g.repo ⧺ "/" ⧺ g.branch ⧺ "/" ⧺ key

abbrev put_first : Char → Option (String × String) → Option (String × String)
put_first c none = none
put_first c (some (a, b)) = some (String.◌∷◌ c a, b)

-- `split_once('/')`
unfoldable pub split_once_slash : String → Option (String × String)
split_once_slash String.[] = none
split_once_slash (String.◌∷◌ c s) =
    if code c == b'/' then some (String.[], s) else put_first c (split_once_slash s)
