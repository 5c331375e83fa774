-- ===== src/Storage/Router/Examples.antt =====
-- A router with a local default, and a Git configuration that is resolved through it.
use pichost.Common.{[], ◌∷◌, none, some, true, false, ok, err, refl, ◌≡◌, ◌=ₛ◌, ◌==◌, if◌then◌else◌}
use pichost.Storage.{UserStorageConfig, Backend, local, git, git_hub, new_git}
use pichost.Storage.Router.{Vault, StorageRouter, insert, for_config}

abbrev vault : Vault
vault = record {
  show_uuid = λ n. if n == 4 then "uuid-4" else "uuid";
  parse_detail = λ s.
      if s =ₛ ""
      then err "no JSON"
      else ok
          (record { token_encrypted = "secret"; repo = s; branch = "main"; path_prefix = none });
  decrypt_token = λ t k. ok t;
}

abbrev disk : Backend
disk = local "/data" "https://img.example/"

abbrev router : StorageRouter
router = record { backends = ("local", disk) ∷ []; default = "local"; poisoned = false }

abbrev hub : UserStorageConfig
hub = record {
  id = 4;
  user_id = 1;
  name = "Hub";
  provider = "github";
  is_default = true;
  config = "me/pics";
  created_at = 0;
  updated_at = 0;
}

abbrev hub_backend : Backend
hub_backend = git (new_git git_hub "me" "pics" "main" none "secret")

abbrev router_with_hub : StorageRouter
router_with_hub = record router { backends = ("local", disk) ∷ ("uuid-4", hub_backend) ∷ [] }

hub_resolved : for_config vault router hub [] ≡ some (ok hub_backend, router_with_hub)
unfolding for_config insert
hub_resolved = refl

abbrev broken : UserStorageConfig
broken = record hub { config = "pics" }
