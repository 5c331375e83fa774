-- ===== src/Routes/StorageConfigs/Limit.antt =====
-- How many configurations a user can have.
use pichost.Common.{
  ℕ, ◌≤◌, ◌<◌, ◌≡◌, String, List, [], ◌∷◌, Bool, true, false, Result, ok, err, arith, if◌then◌else◌,
  ◌=ₛ◌, ◌||◌, ◌==◌,
}
use pichost.Prog.{run}
use pichost.Prog.Laws.{run->>=_elim}
use pichost.TaskQueue.{Uuid}
use pichost.Crypto.{Ciphers}
use pichost.Upload.{Fault, api, error_json, bad_request}
use pichost.Routes.StorageConfigs.{
  Tables, Outside, exec, effect, CreateConfigRequest, UpdateConfigRequest,
}
use pichost.Routes.StorageConfigs.Handlers.{
  Settings, max_of, guard, check_config_limit, create_within_limit, create_supported, create_config,
  update_config, delete_config, set_default, UserStorageConfigResponse,
}
use pichost.Routes.StorageConfigs.Owned.{owned}
use pichost.Routes.StorageConfigs.Added.{
  owned-run, create_within_limit-Costs, update_config-Free, delete_config-Free, set_default-Free,
}

module _ (ciphers : Ciphers) (show_num : ℕ → String) (settings : Settings) where
  abbrev max : ℕ
  max = max_of settings.storage_max_user_configs

  limit-holds :
      (outside : Outside) (user : Uuid) (t t' : Tables) (a : Unit {0})
      → run (exec outside) (check_config_limit show_num settings.storage_max_user_configs user) t
        ≡ (ok a, t')
      → (owned user t' < max) × (t' ≡ t)
  unfolding check_config_limit run exec effect
  limit-holds outside user t t' a h = ground (arith, h)

  limit-still :
      (outside : Outside) (user : Uuid) (t t' : Tables) (e : Fault)
      → run (exec outside) (check_config_limit show_num settings.storage_max_user_configs user) t
        ≡ (err e, t')
      → t' ≡ t
  unfolding check_config_limit run exec effect
  limit-still outside user t t' e h = ground (arith, h)

  guard-still :
      {r : Result Fault (Unit {0})} (outside : Outside) (b : Bool) (f : Fault) (t t' : Tables)
      → run (exec outside) (guard b f) t ≡ (r, t')
      → t' ≡ t
  unfolding run
  guard-still outside true f t t' h = ground (arith, h)
  guard-still outside false f t t' h = ground (arith, h)

  module _ (outside : Outside) (v user : Uuid) (req : CreateConfigRequest) where
    abbrev Within : Result Fault UserStorageConfigResponse × Tables → Type 0
    Within (r, t) = owned v t ≤ max

    supported-Within :
        (t : Tables)
        → owned v t ≤ max
        → Within (run (exec outside) (create_supported ciphers show_num settings user req) t)
    unfolding create_supported
    supported-Within t h =
        run->>=_elim (exec outside) Within
          (check_config_limit show_num settings.storage_max_user_configs user) _ t
          (λ e t' z. ground (arith, h, limit-still outside user t t' e z))
          λ a t' z.
            let (room, same) = limit-holds outside user t t' a z in
            let grows =
              owned-run outside v (if user == v then 1 else 0)
                (create_within_limit ciphers show_num settings user req) t'
                (create_within_limit-Costs outside v ciphers show_num settings user req) in
            ground (arith, h, room, same, grows)

    create-Within :
        (t : Tables)
        → owned v t ≤ max
        → Within (run (exec outside) (create_config ciphers show_num settings user req) t)
    unfolding create_config
    create-Within t h =
        run->>=_elim (exec outside) Within
          (guard (req.provider =ₛ "github" || req.provider =ₛ "gitcode")
            (api (error_json bad_request "storage_config.unsupported_provider")))
          _ t (λ e t' z. ground (arith, h, guard-still outside _ _ t t' z))
          λ a t' z. supported-Within t' (ground (arith, h, guard-still outside _ _ t t' z))

  -- One request, with what happens outside in it.
  pub data Operation : Type 0 where
    create : (user : Uuid) (req : CreateConfigRequest) → Operation
    update : (user id : Uuid) (req : UpdateConfigRequest) → Operation
    delete : (user id : Uuid) → Operation
    choose : (user id : Uuid) → Operation

  abbrev pub perform : Operation × Outside → Tables → Tables
  perform (create user req, outside) t =
      (run (exec outside) (create_config ciphers show_num settings user req) t).1
  perform (update user id req, outside) t =
      (run (exec outside) (update_config ciphers show_num settings user id req) t).1
  perform (delete user id, outside) t = (run (exec outside) (delete_config user id) t).1
  perform (choose user id, outside) t = (run (exec outside) (set_default user id) t).1

  abbrev pub perform_all : List (Operation × Outside) → Tables → Tables
  perform_all [] t = t
  perform_all (o ∷ os) t = perform_all os (perform o t)

  perform-bound :
      (v : Uuid) (o : Operation × Outside) (t : Tables)
      → owned v t ≤ max
      → owned v (perform o t) ≤ max
  perform-bound v (create user req, outside) t h = create-Within outside v user req t h
  perform-bound v (update user id req, outside) t h = omega (
    arith,
    owned-run outside v 0 (update_config ciphers show_num settings user id req) t
        (update_config-Free outside v ciphers show_num settings user id req),
  )
  perform-bound v (delete user id, outside) t h = omega (
    arith,
    owned-run outside v 0 (delete_config user id) t (delete_config-Free outside v user id),
  )
  perform-bound v (choose user id, outside) t h =
      omega
        (arith, owned-run outside v 0 (set_default user id) t (set_default-Free outside v user id))

  -- Requests that create, change, remove and choose configurations one after the other, of any
  -- users, and whichever of their statements fail, leave a user who has no more configurations than
  -- the settings allow (five, unless they say otherwise) with no more than that.
  pub perform_all-bound :
      (v : Uuid) (os : List (Operation × Outside)) (t : Tables)
      → owned v t ≤ max_of settings.storage_max_user_configs
      → owned v (perform_all os t) ≤ max_of settings.storage_max_user_configs
  perform_all-bound v [] t h = h
  perform_all-bound v (o ∷ os) t h = perform_all-bound v os (perform o t) (perform-bound v o t h)
