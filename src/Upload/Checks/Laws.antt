-- ===== src/Upload/Checks/Laws.antt =====
-- What the checks of an upload let through.
use pichost.Common.{
  ℕ, ◌+◌, ◌^◌, ◌≤◌, ◌<◌, ◌≡◌, sym, ◌∙◌, ◌↔◌, inl, inr, List, [], ◌∷◌, Option, none, some, Bool,
  true, ok, arith, All, Option-cases, select,
}
use pichost.Prog.{run}
use pichost.Prog.Laws.{run-view}
use pichost.Storage.{UserStorageConfig}
use pichost.Storage.Router.{Vault}
use pichost.TaskQueue.{Uuid}
use pichost.Upload.{AuthUser}
use pichost.Upload.Calls.{
  World, usage, Filing, exec, Services, AreUp, is_chosen, first, is_default_of, order_by_time,
  insert_by_time,
}
use pichost.Upload.Checks.{UploadConfig, max_size, check_upload_quotas, resolve_upload_configs}

-- No quota, or room for the file.
abbrev pub HasRoom : Option ℕ → ℕ → ℕ → Type 0
HasRoom none used size = Unit
HasRoom (some quota) used size = used + size ≤ quota

pub check_quotas-exec :
    (vault : Vault) (filing : Filing) (config : UploadConfig) (user : AuthUser) (size : ℕ)
    (w : World)
    → usage user.id w.images + size < 2 ^ 63
    → (((run (exec vault filing) (check_upload_quotas config user size) w).0 ≡ ok tt) ↔ (
        (size ≤ max_size config user) × HasRoom user.storage_quota (usage user.id w.images) size))
      × ((run (exec vault filing) (check_upload_quotas config user size) w).1 ≡ w)
unfolding check_upload_quotas run exec
check_quotas-exec vault filing config user size w bound =
    ((λ e. (ground arith, ground arith), λ h. ground arith), ground arith)

All-select :
    (P : UserStorageConfig → Type 0) (p : UserStorageConfig → Bool) (cs : List UserStorageConfig)
    → ((c : UserStorageConfig) → p c ≡ true → P c)
    → All P (select p cs)
All-select P p [] h = tt
All-select P p (c ∷ cs) h = ground (arith, h c, All-select P p cs h)

All-insert_by_time :
    (P : UserStorageConfig → Type 0) (c : UserStorageConfig) (cs : List UserStorageConfig)
    → P c
    → All P cs
    → All P (insert_by_time c cs)
unfolding insert_by_time
All-insert_by_time P c [] p h = (p, tt)
All-insert_by_time P c (d ∷ ds) p (q, h) = ground (arith, All-insert_by_time P c ds p h)

All-order_by_time :
    (P : UserStorageConfig → Type 0) (cs : List UserStorageConfig)
    → All P cs
    → All P (order_by_time cs)
unfolding order_by_time
All-order_by_time P [] h = tt
All-order_by_time P (c ∷ cs) (p, h) =
    All-insert_by_time P c (order_by_time cs) p (All-order_by_time P cs h)

first-holds : {A : Type 0} (p : A → Bool) (xs : List A) (x : A) → first p xs ≡ some x → p x ≡ true
unfolding first
first-holds p [] x e = cc
first-holds p (y ∷ ys) x e = ground (arith, first-holds p ys x)

abbrev pub IsOwnedBy : Uuid → UserStorageConfig → Type 0
IsOwnedBy u c = c.user_id ≡ u

chosen-IsOwnedBy :
    (u : Uuid) (ids : List Uuid) (c : UserStorageConfig) → is_chosen u ids c ≡ true → IsOwnedBy u c
chosen-IsOwnedBy u ids c h = ground arith

chosen_configs-IsOwnedBy :
    (u : Uuid) (ids : List Uuid) (cs : List UserStorageConfig)
    → All (IsOwnedBy u) (order_by_time (select (is_chosen u ids) cs))
chosen_configs-IsOwnedBy u ids cs =
    All-order_by_time (IsOwnedBy u) _
      (All-select (IsOwnedBy u) (is_chosen u ids) cs (chosen-IsOwnedBy u ids))

module _ (vault : Vault) (filing : Filing) where
  resolve-exec :
      (u : Uuid) (ids : Option (List Uuid)) (w : World) (cs : List UserStorageConfig)
      → (run (exec vault filing) (resolve_upload_configs u ids) w).0 ≡ ok cs
      → All (IsOwnedBy u) cs
  unfolding resolve_upload_configs run exec
  resolve-exec u (some []) w cs e = ground arith
  resolve-exec u (some (i ∷ ids)) w cs e =
      ground (arith, chosen_configs-IsOwnedBy u (i ∷ ids) w.configs)
  resolve-exec u none w cs e = elim (Option-cases (first (is_default_of u) w.configs)) [
    | inl none_found ↦ ground arith
    | inr (c, found) ↦ ground (arith, first-holds (is_default_of u) w.configs c found)
  ]

  module _ (S : Services) (up : AreUp vault filing S) where
    -- On services that are up, an upload passes the size and quota checks exactly if the file is
    -- no larger than its user's role allows and, if the user has a quota, the file fits beside
    -- what the user stores. The checks change nothing. (The sum must stay in the range of `i64`.)
    pub check_upload_quotas_iff :
        (config : UploadConfig) (user : AuthUser) (size : ℕ) (d : S.Db)
        → usage user.id (S.view d).images + size < 2 ^ 63
        → let used = usage user.id (S.view d).images in
          (((run S.handle (check_upload_quotas config user size) d).0 ≡ ok tt)
            ↔ ((size ≤ max_size config user) × HasRoom user.storage_quota used size))
          × (S.view (run S.handle (check_upload_quotas config user size) d).1 ≡ S.view d)
    check_upload_quotas_iff config user size d bound =
        let (same, after) =
          run-view S.handle (exec vault filing) S.view up (check_upload_quotas config user size)
            d in
        let (decides, still) = check_quotas-exec vault filing config user size (S.view d) bound in
        ((λ e. decides.0 (sym same ∙ e), λ h. same ∙ decides.1 h), after ∙ still)

    -- On services that are up, whatever ids a request names, an upload goes only to
    -- configurations of its own user.
    pub resolve_upload_configs-IsOwnedBy :
        (u : Uuid) (ids : Option (List Uuid)) (d : S.Db) (cs : List UserStorageConfig)
        → (run S.handle (resolve_upload_configs u ids) d).0 ≡ ok cs
        → All (IsOwnedBy u) cs
    resolve_upload_configs-IsOwnedBy u ids d cs e =
        let (same, after) =
          run-view S.handle (exec vault filing) S.view up (resolve_upload_configs u ids) d in
        resolve-exec u ids (S.view d) cs (sym same ∙ e)
