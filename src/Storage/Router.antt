-- ===== src/Storage/Router.antt =====
-- The storage router: pichost-core/src/storage/router.rs. The map of backends is an association
-- list in the order in which the map would be traversed. `poisoned` says that a thread panicked
-- while it held the lock; the result `none` is a panic. Parsing a configuration's JSON and
-- decrypting its token are the parameter `Vault`.
pub mod Laws
mod Examples
use pichost.Common.{
  ℕ, String, List, [], ◌∷◌, Option, none, some, Bool, Result, ok, err, map_err, if◌then◌else◌, ◌=ₛ◌,
  length,
}
use pichost.Storage.{
  StorageError, config, UserStorageConfig, GitConfigDetail, GitProvider, git_hub, git_code, Backend,
  git, new_git, split_once_slash, ◌⧺◌,
}

pub record Vault : Type 0 where
  pub show_uuid : ℕ → String
  pub parse_detail : String → Result String GitConfigDetail
  pub decrypt_token : String → List ℕ → Result String String

pub record StorageRouter : Type 0 where
  pub backends : List (String × Backend)
  pub default : String
  pub poisoned : Bool

unfoldable pub find : String → List (String × Backend) → Option Backend
find name [] = none
find name ((n, b) ∷ bs) = if n =ₛ name then some b else find name bs

-- `HashMap::insert`
unfoldable pub insert : String → Backend → List (String × Backend) → List (String × Backend)
insert name b [] = (name, b) ∷ []
insert name b ((n, c) ∷ bs) = if n =ₛ name then (name, b) ∷ bs else (n, c) ∷ insert name b bs

-- `HashMap::remove`
unfoldable pub remove : String → List (String × Backend) → List (String × Backend)
remove name [] = []
remove name ((n, c) ∷ bs) = if n =ₛ name then bs else (n, c) ∷ remove name bs

abbrev first_value : List (String × Backend) → Option Backend
first_value [] = none
first_value ((n, b) ∷ bs) = some b

abbrev or_else {ℓ} : {A : Type ℓ} → Option A → Option A → Option A
or_else (some a) o = some a
or_else none o = o

-- `read().ok().and_then(…)`: nothing is found behind a poisoned lock.
unfoldable pub get : StorageRouter → String → Option Backend
unfolding find
get r name = if r.poisoned then none else find name r.backends

unfoldable pub default_backend : StorageRouter → Option Backend
unfolding find
default_backend r =
    if r.poisoned then none else or_else (find r.default r.backends) (first_value r.backends)

unfoldable pub for_backend : StorageRouter → String → Option Backend
unfolding get default_backend
for_backend r name = or_else (get r name) (default_backend r)

unfoldable pub backend_count : StorageRouter → ℕ
backend_count r = if r.poisoned then 0 else length r.backends

unfoldable pub evict : StorageRouter → String → StorageRouter
unfolding remove
evict r config_id = if r.poisoned then r else record r { backends = remove config_id r.backends }

infixl 5 ◌>>=◌
abbrev ◌>>=◌ {ℓ κ} :
    {E : Type 0} {A : Type ℓ} {B : Type κ} → Result E A → (A → Result E B) → Result E B
ok a >>= f = f a
err e >>= f = err e

unfoldable pub git_provider : String → Result StorageError GitProvider
git_provider p =
    if p =ₛ "github"
    then ok git_hub
    else if p =ₛ "gitcode"
    then ok git_code
    else err (config ("unknown provider: " ⧺ p))

abbrev owner_repo : Option (String × String) → Result StorageError (String × String)
owner_repo none = err (config "repo format error, expected owner/repo")
owner_repo (some p) = ok p

module _ (vault : Vault) where
  open vault use {show_uuid, parse_detail, decrypt_token}

  -- The backend that `get_or_create_git` builds.
  unfoldable pub build_git : UserStorageConfig → List ℕ → Result StorageError Backend
  unfolding git_provider split_once_slash
  build_git c encryption_key = do
    detail ← map_err (λ e. config ("config parse failed: " ⧺ e)) (parse_detail c.config)
    token ←
        map_err (λ e. config ("token decrypt failed: " ⧺ e))
          (decrypt_token detail.token_encrypted encryption_key)
    provider ← git_provider c.provider
    parts ← owner_repo (split_once_slash detail.repo)
    ok (git (new_git provider parts.0 parts.1 detail.branch detail.path_prefix token))

  abbrev cache_git :
      StorageRouter
      → UserStorageConfig
      → Result StorageError Backend
      → Result StorageError Backend × StorageRouter
  cache_git r c (err e) = (err e, r)
  cache_git r c (ok b) =
      if r.poisoned
      then (err (config "Router lock poisoned"), r)
      else (ok b, record r { backends = insert (show_uuid c.id) b r.backends })

  unfoldable pub get_or_create_git :
      StorageRouter → UserStorageConfig → List ℕ → Result StorageError Backend × StorageRouter
  unfolding build_git
  get_or_create_git r c encryption_key = cache_git r c (build_git c encryption_key)

  abbrev found_or :
      StorageRouter
      → Result StorageError Backend × StorageRouter
      → Option Backend
      → Result StorageError Backend × StorageRouter
  found_or r other none = other
  found_or r other (some b) = (ok b, r)

  abbrev no_panic :
      StorageRouter → Option Backend → Option (Result StorageError Backend × StorageRouter)
  no_panic r none = none
  no_panic r (some b) = some (ok b, r)

  unfoldable pub for_config :
      StorageRouter
      → UserStorageConfig
      → List ℕ
      → Option (Result StorageError Backend × StorageRouter)
  unfolding get_or_create_git default_backend find
  for_config r c encryption_key =
      if c.provider =ₛ "local"
      then no_panic r (default_backend r)
      else if r.poisoned
      then some (err (config "Router lock poisoned"), r)
      else some
          (found_or r (get_or_create_git r c encryption_key) (find (show_uuid c.id) r.backends))
