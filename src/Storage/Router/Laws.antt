-- ===== src/Storage/Router/Laws.antt =====
-- The router's cache, its failures, and the names of the backends it builds.
use pichost.Common.{
  ℕ, String, ◌≡◌, refl, ◌≢◌, ◌⊎◌, inr, List, [], ◌∷◌, none, some, Bool, true, false, ok, err, ◌=ₛ◌,
  eq_iff, eq_refl, arith, if◌then◌else◌, ◌↔◌,
}
use pichost.Storage.{StorageError, UserStorageConfig, Backend, backend_name, new_git}
use pichost.Storage.Router.{
  Vault, StorageRouter, find, insert, remove, get, for_backend, evict, build_git, get_or_create_git,
  for_config,
}

find-insert :
    (n k : String) (b : Backend) (bs : List (String × Backend))
    → find k (insert n b bs) ≡ (if n =ₛ k then some b else find k bs)
unfolding find insert
find-insert n k b [] = refl
find-insert n k b ((m, c) ∷ bs) =
    ground (arith, eq_iff n k, eq_iff m n, eq_iff m k, find-insert n k b bs)

-- Distinct names: what a map has.
abbrev pub IsAbsent : String → List (String × Backend) → Type 0
IsAbsent k [] = Unit
IsAbsent k ((n, b) ∷ bs) = (n ≢ k) × IsAbsent k bs

abbrev pub IsMap : List (String × Backend) → Type 0
IsMap [] = Unit
IsMap ((n, b) ∷ bs) = IsAbsent n bs × IsMap bs

find_absent : (k : String) (bs : List (String × Backend)) → IsAbsent k bs → find k bs ≡ none
unfolding find
find_absent k [] h = refl
find_absent k ((n, b) ∷ bs) (p, h) = ground (arith, eq_iff n k, find_absent k bs h)

find-remove : (k : String) (bs : List (String × Backend)) → IsMap bs → find k (remove k bs) ≡ none
unfolding find remove
find-remove k [] h = refl
find-remove k ((n, b) ∷ bs) (p, h) =
    ground (arith, eq_iff n k, find-remove k bs h, find_absent n bs p)

find-remove_ne :
    (k j : String) (bs : List (String × Backend)) → j ≢ k → find j (remove k bs) ≡ find j bs
unfolding find remove
find-remove_ne k j [] h = refl
find-remove_ne k j ((n, b) ∷ bs) h = ground (arith, eq_iff n k, eq_iff n j, find-remove_ne k j bs h)

-- `for_backend` panics exactly if the lock is poisoned or nothing is registered: no unknown name
-- does it.
pub for_backend-panic_iff :
    (r : StorageRouter) (name : String)
    → (for_backend r name ≡ none) ↔ ((r.poisoned ≡ true) ⊎ (r.backends ≡ []))
unfolding for_backend find
for_backend-panic_iff r name = panics r.poisoned r.backends
  where
    panics :
        (p : Bool) (bs : List (String × Backend))
        → (for_backend (record { backends = bs; default = r.default; poisoned = p }) name ≡ none)
          ↔ ((p ≡ true) ⊎ (bs ≡ []))
    panics p [] = (λ e. inr refl, λ h. ground arith)
    panics p (b ∷ bs) = (λ e. ground arith, λ h. ground arith)

module _ (vault : Vault) (r : StorageRouter) (c : UserStorageConfig) (key : List ℕ) where
  -- In the router that a resolution of a configuration that is not local leaves, the same
  -- configuration resolves to the same backend, whatever key it brings, and changes nothing.
  pub for_config_cached :
      (b : Backend) (r' : StorageRouter) (key' : List ℕ)
      → (c.provider =ₛ "local") ≡ false
      → for_config vault r c key ≡ some (ok b, r')
      → for_config vault r' c key' ≡ some (ok b, r')
  unfolding for_config
  for_config_cached b r' key' remote e = ground (
    arith,
    find-insert (vault.show_uuid c.id) (vault.show_uuid c.id) b r.backends,
    eq_refl (vault.show_uuid c.id),
  )

  -- A resolution that fails leaves the router as it was.
  pub for_config_error :
      (e : StorageError) (r' : StorageRouter) → for_config vault r c key ≡ some (err e, r') → r' ≡ r
  unfolding for_config
  for_config_error e r' h = ground arith

  -- With distinct names and a lock that is not poisoned, a configuration with a Git provider that
  -- was evicted is built again from its own data, and no other name is lost.
  pub for_config-evict :
      (name : String)
      → IsMap r.backends
      → r.poisoned ≡ false
      → (c.provider =ₛ "local") ≡ false
      → name ≢ vault.show_uuid c.id
      → let r' = evict r (vault.show_uuid c.id) in
        (for_config vault r' c key ≡ some (get_or_create_git vault r' c key))
        × (get r' name ≡ get r name)
  unfolding for_config evict get
  for_config-evict name m up remote other = (
    ground (arith, find-remove (vault.show_uuid c.id) r.backends m),
    ground (arith, find-remove_ne (vault.show_uuid c.id) name r.backends other),
  )

-- The backend that is built for a configuration reports the configuration's provider as its name.
pub backend_name-build_git :
    (vault : Vault) (c : UserStorageConfig) (key : List ℕ) (b : Backend)
    → build_git vault c key ≡ ok b
    → backend_name b ≡ c.provider
unfolding build_git backend_name new_git
backend_name-build_git vault c key b e =
    ground (arith, eq_iff c.provider "github", eq_iff c.provider "gitcode")
