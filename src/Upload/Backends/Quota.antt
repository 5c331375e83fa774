-- ===== src/Upload/Backends/Quota.antt =====
-- What a whole upload request may add to the bytes that its user stores.
use pichost.Common.{
  ℕ, ◌+◌, ◌≤◌, ◌<◌, ◌^◌, ◌≡◌, refl, sym, String, List, Option, some, Bool, true, false, Result, ok,
  err, arith, length, subst,
}
use pichost.Prog.{run, ret, ◌>>=◌}
use pichost.Prog.Laws.{run-view, run-bind}
use pichost.Prog.Costs.{run-Costs}
use pichost.Storage.Router.{Vault}
use pichost.TaskQueue.{Uuid}
use pichost.Upload.{Bytes, AuthUser, Fault}
use pichost.Upload.Calls.{Image, World, usage, exec, Filing, Services, AreUp}
use pichost.Upload.Checks.{Request, require, UploadConfig, check_upload_quotas}
use pichost.Upload.Checks.Laws.{check_quotas-exec, HasRoom}
use pichost.Upload.Backends.{Media}
use pichost.Upload.Backends.Process.{uploads, process_upload}
use pichost.Upload.Backends.Budget.{added, uploads-Adds, images_added, reserved}

module _ (vault : Vault) (filing : Filing) (P : World → Type 0) where
  settle :
      {A B : Type 0} (f : A → Request B) (w v : World) (r : Result Fault A)
      → v ≡ w
      → P w
      → ((x : A) → r ≡ ok x → P (run (exec vault filing) (f x) w).1)
      → P (run (exec vault filing) (elim r [ ok x ↦ f x | err e ↦ ret (err e) ]) v).1
  unfolding run
  settle f w v (ok x) e base go =
      subst (λ z. P (run (exec vault filing) (f x) z).1) (sym e) (go x refl)
  settle f w v (err x) e base go = subst P (sym e) base

  -- After a check that changes nothing: either the chain ends, or it goes on.
  checked :
      {A B : Type 0} (p : Request A) (f : A → Request B) (w : World)
      → (run (exec vault filing) p w).1 ≡ w
      → P w
      → ((x : A) → (run (exec vault filing) p w).0 ≡ ok x → P (run (exec vault filing) (f x) w).1)
      → P (run (exec vault filing) (p >>= f) w).1
  checked p f w e base go =
      let r = run (exec vault filing) p w in
      subst (λ (z : _ × World). P z.1) (sym (run-bind (exec vault filing) p _ w))
        (settle f w r.1 r.0 e base go)

reserved_from :
    (u : Uuid) (hash : String) (n : ℕ) (images : List Image)
    → usage u images ≤ reserved u hash n images
unfolding reserved
reserved_from u hash n images = omega arith

reserved_to :
    (u : Uuid) (hash : String) (n : ℕ) (images : List Image)
    → reserved u hash n images ≤ usage u images + n
unfolding reserved
reserved_to u hash n images = ground arith

require-still :
    (vault : Vault) (filing : Filing) (b : Bool) (f : Fault) (w : World)
    → (run (exec vault filing) (require b f) w).1 ≡ w
unfolding run
require-still vault filing true f w = refl
require-still vault filing false f w = refl

module _ (vault : Vault) (filing : Filing) (media : Media) where
  process-exec :
      (turns : List Bool) (rounds : ℕ) (settings : UploadConfig) (user : AuthUser) (bytes : Bytes)
      (file_name : String) (ids : Option (List Uuid)) (w : World) (quota : ℕ)
      → user.storage_quota ≡ some quota
      → usage user.id w.images ≤ quota
      → usage user.id w.images + length bytes < 2 ^ 63
      → usage user.id
          (run
            (exec vault filing)
            (process_upload media turns rounds settings user bytes file_name ids)
            w).1.images
        ≤ quota
  unfolding process_upload
  process-exec turns rounds settings user bytes file_name ids w quota has within small =
      let P : World → Type 0 = λ v. usage user.id v.images ≤ quota in
      let (decides, still) = check_quotas-exec vault filing settings user (length bytes) w small in
      checked vault filing P (require (media.is_image bytes) _) _ w
        (require-still vault filing _ _ w) (omega arith)
        λ _ _.
          checked vault filing P (check_upload_quotas settings user (length bytes)) _ w still
            (omega arith)
            λ _ passed.
              let room =
                subst (λ q. HasRoom q (usage user.id w.images) (length bytes)) has
                  (decides.0 passed).1 in
              let hash = media.sha256 bytes in
              let n = length bytes in
              let spent =
                run-Costs (added user.id hash n) (exec vault filing)
                  (λ v. reserved user.id hash n v.images) (images_added vault filing user.id hash n)
                  0 (uploads media turns rounds settings user bytes file_name ids) w
                  (uploads-Adds user.id hash n media turns rounds settings user bytes file_name ids
                    refl refl) in
              omega (
                arith,
                spent,
                reserved_from user.id hash n
                    (run (exec vault filing)
                      (uploads media turns rounds settings user bytes file_name ids) w).1.images,
                reserved_to user.id hash n w.images,
              )

  module _ (S : Services) (up : AreUp vault filing S) where
    -- On services that are up, whatever configurations a request names and however its uploads to
    -- them interleave, a user with a quota who is within it is within it afterwards. (The check
    -- counts the file once, and the table takes its contents once per user. The sum must stay in the
    -- range of `i64`, and no other request runs at the same time.)
    pub process_upload-usage :
        (turns : List Bool) (rounds : ℕ) (settings : UploadConfig) (user : AuthUser) (bytes : Bytes)
        (file_name : String) (ids : Option (List Uuid)) (d : S.Db) (quota : ℕ)
        → user.storage_quota ≡ some quota
        → usage user.id (S.view d).images ≤ quota
        → usage user.id (S.view d).images + length bytes < 2 ^ 63
        → let p = process_upload media turns rounds settings user bytes file_name ids in
          usage user.id (S.view (run S.handle p d).1).images ≤ quota
    process_upload-usage turns rounds settings user bytes file_name ids d quota has within small =
        let p = process_upload media turns rounds settings user bytes file_name ids in
        let (_, same) = run-view S.handle (exec vault filing) S.view up p d in
        subst (λ (w : World). usage user.id w.images ≤ quota) (sym same)
          (process-exec turns rounds settings user bytes file_name ids (S.view d) quota has within
            small)
