-- ===== src/TaskQueue/Recovery.antt =====
-- The recovery of stale tasks at start-up: `recover_stale_tasks` and `recover_single_task`.
use mathlib.Core.List.{append_assoc}
use pichost.Common.{
  ℕ, ◌-◌, ◌*◌, String, ◌≡◌, refl, sym, ap, ◌∙◌, ◌≢◌, List, [], ◌∷◌, ◌++◌, map, Option, none, some,
  Bool, true, false, not, ok, select, All, All-right, arith, subst, Bool-cases, inl, inr,
}
use pichost.Prog.{run, pure}
use pichost.Prog.Laws.{run->>=_ok}
use pichost.Redis.{Store, exec, put_field, put_list, erase_first, Server, IsUp}
use pichost.TaskQueue.{
  TaskPayload, Codec, key_pending, key_processing, task_key, is_stale, parse_updated_at,
  recover_single_task, recover_if_stale, recover_parsed, recovered, recover_each,
  recover_stale_tasks, requeue,
}
use pichost.TaskQueue.Keys.{task_key-eq}
use pichost.TaskQueue.Jobs.{
  Jobs, Stored, Represents, HasOtherId, HasId, DistinctIds, remove_id, id_text,
}
use pichost.TaskQueue.Contract.{on_server}
use pichost.TaskQueue.Lists.{
  erase_first-map, All-remove_id, remove_id-distinct, remove_id-fresh, HasId-append,
}

-- Each task in turn on top of those that wait.
abbrev pub put_back : List TaskPayload → List TaskPayload → List TaskPayload
put_back [] waiting = waiting
put_back (t ∷ ts) waiting = put_back ts (t ∷ waiting)

remove_id-middle :
    (kept ts : List TaskPayload) (t : TaskPayload)
    → DistinctIds (kept ++ t ∷ ts)
    → remove_id t.task_id (kept ++ t ∷ ts) ≡ kept ++ ts
unfolding remove_id
remove_id-middle [] ts t d = ground arith
remove_id-middle (k ∷ kept) ts t (other, d) =
    let different : t.task_id ≢ k.task_id =
      (All-right (HasOtherId k.task_id) kept (t ∷ ts) other).0 in
    ground (arith, different, remove_id-middle kept ts t d)

DistinctIds-right : (xs ys : List TaskPayload) → DistinctIds (xs ++ ys) → DistinctIds ys
DistinctIds-right [] ys d = d
DistinctIds-right (x ∷ xs) ys (other, d) = DistinctIds-right xs ys d

module _ (c : Codec) (cutoff : ℕ) where
  -- The task's last update is older than the cutoff.
  abbrev pub stale_in : Store → TaskPayload → Bool
  stale_in s t = is_stale c cutoff (parse_updated_at c (s.hash (task_key c t.task_id) "updated_at"))

module _ (c : Codec) (now cutoff : ℕ) where
  abbrev requeued : TaskPayload → Store → Store
  requeued t s =
      let key = task_key c t.task_id in
      let id = c.show_uuid t.task_id in
      let s1 = put_list key_processing (erase_first id (s.list key_processing)) s in
      let s2 = put_field key "status" "pending" s1 in
      let s3 = put_field key "updated_at" (c.show_time now) s2 in
      let s4 = put_field key "error" "recovered: stale" s3 in
      put_list key_pending (id ∷ s4.list key_pending) s4

  run-recover_stale :
      (t : TaskPayload) (s : Store)
      → Stored c s t
      → stale_in c cutoff s t ≡ true
      → run exec (recover_parsed c now cutoff (id_text c t) (c.parse_uuid (id_text c t))) s
        ≡ (ok (some t), requeued t s)
  unfolding recover_if_stale recover_single_task requeue run exec
  run-recover_stale t s (payload, e, d) old =
      rw (c.parse-show t.task_id) (ground (arith, old, e, d))

  run-recover_fresh :
      (t : TaskPayload) (s : Store)
      → stale_in c cutoff s t ≡ false
      → run exec (recover_parsed c now cutoff (id_text c t) (c.parse_uuid (id_text c t))) s
        ≡ (ok none, s)
  unfolding recover_if_stale run exec
  run-recover_fresh t s young = rw (c.parse-show t.task_id) (ground (arith, young))

  requeued-Represents :
      (t : TaskPayload) (s : Store) (j : Jobs)
      → Represents c s j
      → Stored c s t
      → HasId t.task_id j.processing
      → Represents c
          (requeued t s)
          (record j { pending = t ∷ j.pending; processing = remove_id t.task_id j.processing })
  requeued-Represents t s j h here held = record {
    pending_ids = ap (λ ids. c.show_uuid t.task_id ∷ ids) h.pending_ids;
    processing_ids =
        ap (erase_first (c.show_uuid t.task_id)) h.processing_ids
        ∙ erase_first-map c t.task_id j.processing;
    dead_ids = h.dead_ids;
    pending_data = (here, h.pending_data);
    processing_data = All-remove_id (Stored c s) t.task_id j.processing h.processing_data;
    distinct = (
      remove_id-fresh t.task_id j.pending j.processing h.distinct held,
      remove_id-distinct t.task_id j.pending j.processing h.distinct,
    );
  }

  stale_in-requeued :
      (t u : TaskPayload) (s : Store)
      → u.task_id ≢ t.task_id
      → stale_in c cutoff (requeued t s) u ≡ stale_in c cutoff s u
  stale_in-requeued t u s other = rw (task_key-eq c t.task_id u.task_id) (ground arith)

  abbrev Knows : (TaskPayload → Bool) → Store → TaskPayload → Type 0
  Knows p s t = stale_in c cutoff s t ≡ p t

  still-Knows :
      (p : TaskPayload → Bool) (t : TaskPayload) (s : Store) (ts : List TaskPayload)
      → All (HasOtherId t.task_id) ts
      → All (Knows p s) ts
      → All (Knows p (requeued t s)) ts
  still-Knows p t s [] h k = tt
  still-Knows p t s (u ∷ us) (other, h) (known, k) =
      (stale_in-requeued t u s other ∙ known, still-Knows p t s us h k)

  -- The loop goes on after a task that it recovered or left.
  each-exec :
      (t : TaskPayload) (ids : List String) (o : Option TaskPayload) (l : List TaskPayload)
      (s s' : Store)
      → run exec (recover_parsed c now cutoff (id_text c t) (c.parse_uuid (id_text c t))) s
        ≡ (ok o, s')
      → (run exec (recover_each c now cutoff ids) s').0 ≡ ok l
      → run exec (recover_each c now cutoff (id_text c t ∷ ids)) s
        ≡ (ok (recovered c o l), (run exec (recover_each c now cutoff ids) s').1)
  unfolding recover_each run
  each-exec t ids o l s s' here there =
      let r = run exec (recover_each c now cutoff ids) s' in
      run->>=_ok exec (recover_parsed c now cutoff (id_text c t) (c.parse_uuid (id_text c t))) _ s
        s' o here
      ∙ run->>=_ok exec (recover_each c now cutoff ids) (λ there. pure (recovered c o there)) s' r.1
          l (ap (λ x. (x, r.1)) there)

  recover_each-exec :
      (p : TaskPayload → Bool) (ts kept : List TaskPayload) (s : Store) (j : Jobs)
      → Represents c s (record j { processing = kept ++ ts })
      → All (Knows p s) ts
      → let r = run exec (recover_each c now cutoff (map (id_text c) ts)) s in
        (r.0 ≡ ok (select p ts))
        × Represents c r.1 (record j {
          pending = put_back (select p ts) j.pending;
          processing = kept ++ select (λ t. not (p t)) ts;
        })
  unfolding recover_each run
  recover_each-exec p [] kept s j h k = (refl, h)
  recover_each-exec p (t ∷ ts) kept s j h (known, k) = elim (Bool-cases (p t)) [
    | inl old ↦
        let here = (All-right (Stored c s) kept (t ∷ ts) h.processing_data).0 in
        let d = DistinctIds-right j.pending (kept ++ t ∷ ts) h.distinct in
        let others = (DistinctIds-right kept (t ∷ ts) d).0 in
        let moved =
          requeued-Represents t s (record j { processing = kept ++ t ∷ ts }) h here
            (HasId-append t.task_id kept (t ∷ ts) (inl refl)) in
        let h' =
          subst
            (λ q.
              Represents c (requeued t s) (record j { pending = t ∷ j.pending; processing = q }))
            (remove_id-middle kept ts t d) moved in
        let (answer, state) =
          recover_each-exec p ts kept (requeued t s) (record j { pending = t ∷ j.pending }) h'
            (still-Knows p t s ts others k) in
        rw
          (each-exec t (map (id_text c) ts) (some t) (select p ts) s (requeued t s)
            (run-recover_stale t s here (known ∙ old)) answer)
          (rw old (refl, state))
    | inr young ↦
        let h' =
          subst (λ q. Represents c s (record j { processing = q }))
            (sym (append_assoc kept (t ∷ []) ts)) h in
        let (answer, state) = recover_each-exec p ts (kept ++ t ∷ []) s j h' k in
        let stay = select (λ u. not (p u)) ts in
        let in_place =
          subst
            (λ q.
              Represents c (run exec (recover_each c now cutoff (map (id_text c) ts)) s).1
                (record j { pending = put_back (select p ts) j.pending; processing = q }))
            (append_assoc kept (t ∷ []) stay) state in
        rw
          (each-exec t (map (id_text c) ts) none (select p ts) s s
            (run-recover_fresh t s (known ∙ young)) answer)
          (rw young (refl, in_place))
  ]

  All-Knows : (s : Store) (ts : List TaskPayload) → All (Knows (stale_in c cutoff s) s) ts
  All-Knows s [] = tt
  All-Knows s (t ∷ ts) = (refl, All-Knows s ts)

module _ (c : Codec) where
  recover_stale_tasks-exec :
      (now secs : ℕ) (s : Store) (j : Jobs)
      → Represents c s j
      → let p = stale_in c (now - secs * 1000) s in
        let r = run exec (recover_stale_tasks c now secs) s in
        (r.0 ≡ ok (select p j.processing))
        × Represents c r.1 (record j {
          pending = put_back (select p j.processing) j.pending;
          processing = select (λ t. not (p t)) j.processing;
        })
  unfolding recover_stale_tasks run exec
  recover_stale_tasks-exec now secs s j h =
      let cutoff = now - secs * 1000 in
      rw h.processing_ids (
        recover_each-exec c now cutoff (stale_in c cutoff s) j.processing [] s j h
          (All-Knows c now cutoff s j.processing))

module _ (c : Codec) (S : Server) (up : IsUp S) where
  -- On a server that is up and keys that represent a queue, recovery puts back exactly the tasks
  -- in processing whose last update is older than the time limit, each with the payload that is
  -- stored, and returns them. They wait on top of the others; the rest stays in processing in its
  -- order.
  pub recover_stale_tasks-Represents :
      (now task_timeout_secs : ℕ) (d : S.Db) (j : Jobs)
      → Represents c (S.view d) j
      → let stale = stale_in c (now - task_timeout_secs * 1000) (S.view d) in
        let r = run S.handle (recover_stale_tasks c now task_timeout_secs) d in
        (r.0 ≡ ok (select stale j.processing))
        × Represents c (S.view r.1) (record j {
          pending = put_back (select stale j.processing) j.pending;
          processing = select (λ t. not (stale t)) j.processing;
        })
  recover_stale_tasks-Represents now secs d j h =
      on_server c S up (recover_stale_tasks c now secs) d _ _
        (recover_stale_tasks-exec c now secs (S.view d) j h)
