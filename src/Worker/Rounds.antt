-- ===== src/Worker/Rounds.antt =====
-- What a round of a worker does to the queue and to the database.
use pichost.Common.{
  ℕ, ◌≡◌, refl, ap, ◌∙◌, sym, String, List, ◌∷◌, Option, none, some, Result, ok, ltb, if◌then◌else◌,
  inl, inr, subst, Bool-cases,
}
use pichost.Prog.{Prog, ret, send, bind, run}
use pichost.Prog.Laws.{run-bind}
use pichost.Redis.{Store, Command, Reply, exec as redis_exec, pop_last}
use pichost.TaskQueue.{Uuid, TaskPayload, Codec, NackAction}
use pichost.TaskQueue.Jobs.{Jobs, Represents, claim, finish, fail, verdict}
use pichost.TaskQueue.RedisQueue.{
  StateQueueError, dequeue, ack, nack, HasTask, nack-exec, ack-exec, dequeue-exec,
  dequeue_empty-exec,
}
use pichost.Worker.{
  FailedTask, Call, Answer, redis, insert_task, mark_failed, sleep, Work, on_redis, Processed,
  completed, failed, elapsed, after_nack, or_retry, process, handle_dead_letter, handle_task_result,
  dequeue_or_retry, round,
}

-- The keys of Redis, the rows of `upload_tasks` and the images that are marked as failed.
pub record Desk : Type 0 where
  pub store : Store
  pub tasks : List FailedTask
  pub marked : List Uuid

abbrev at_store : {A : Type 0} → Desk → A × Store → A × Desk
at_store d (a, s) = (a, record d { store = s })

unfoldable pub exec : (c : Call) → Desk → Answer c × Desk
exec (redis c) d = at_store d (redis_exec c d.store)
exec (insert_task t) d = (ok tt, record d { tasks = t ∷ d.tasks })
exec (mark_failed i) d = (ok tt, record d { marked = i ∷ d.marked })
exec (sleep n) d = (tt, d)

-- Services that are up carry out each call.
pub record Services : Type 1 where
  pub Db : Type 0
  pub view : Db → Desk
  pub handle : (c : Call) → Db → Answer c × Db

abbrev pub AreUp : Services → Type 0
AreUp S =
    (c : Call) (d : S.Db)
    → ((S.handle c d).0 ≡ (exec c (S.view d)).0) × (S.view (S.handle c d).1 ≡ (exec c (S.view d)).1)

run-on_redis :
    {A : Type 0} (p : Prog Command Reply A) (d : Desk)
    → run exec (on_redis p) d ≡ at_store d (run redis_exec p d.store)
unfolding on_redis run exec
run-on_redis (ret a) d = refl
run-on_redis (send c k) d =
    run-on_redis (k (redis_exec c d.store).0) (record d { store = (redis_exec c d.store).1 })

run-then :
    {A B : Type 0} (p : Prog Command Reply A) (f : A → Work B) (d : Desk)
    → let r = run redis_exec p d.store in
      run exec (bind (on_redis p) f) d ≡ run exec (f r.0) (record d { store = r.1 })
run-then p f d = run-bind exec (on_redis p) f d ∙ ap (λ r. run exec (f r.0) r.1) (run-on_redis p d)

-- What the result of processing makes of a task that is being processed.
abbrev pub settle : Processed → TaskPayload → Jobs → Jobs
settle completed t j = finish t.task_id j
settle (failed e) t j = fail t j
settle elapsed t j = fail t j

-- An image is marked when its task fails with an error and no retry is left, not on a timeout.
abbrev pub marks : Processed → TaskPayload → List Uuid → List Uuid
marks completed t is = is
marks (failed e) t is = if ltb t.retry_count t.max_retries then is else t.image_id ∷ is
marks elapsed t is = is

module _ (c : Codec) where
  -- The desk has the queue `j` and the marked images `is`.
  abbrev pub Shows : Desk → Jobs → List Uuid → Type 0
  Shows d j is = Represents c d.store j × (d.marked ≡ is)

  after_nack-exec :
      (now : ℕ) (t : TaskPayload) (e : String) (r : Result StateQueueError NackAction) (d : Desk)
      → r ≡ ok (verdict t)
      → let d' = (run exec (after_nack c now t e r) d).1 in
        (d'.store ≡ d.store) × (d'.marked ≡ marks (failed e) t d.marked)
  unfolding run exec handle_dead_letter
  after_nack-exec now t e r d h = elim (Bool-cases (ltb t.retry_count t.max_retries)) [
    | inl left ↦ rw h (rw left (refl, refl))
    | inr over ↦ rw h (rw over (refl, refl))
  ]

  handle-exec :
      (now : ℕ) (t : TaskPayload) (result : Processed) (d : Desk) (j : Jobs) (is : List Uuid)
      → Shows d j is
      → HasTask t j.processing
      → Shows
          (run exec (handle_task_result c now t result) d).1
          (settle result t j)
          (marks result t is)
  unfolding handle_task_result run
  handle-exec now t completed d j is (h, m) held =
      rw (run-then (ack c now t.task_id) (λ _. ret tt) d)
        ((ack-exec c now t.task_id d.store j h).1, m)
  handle-exec now t (failed e) d j is (h, m) held =
      let p = nack c now t.task_id t.retry_count t.max_retries in
      let r = run redis_exec p d.store in
      let (answer, state) = nack-exec c now t d.store j h held in
      let (same, marked) = after_nack-exec now t e r.0 (record d { store = r.1 }) answer in
      rw (run-then p (after_nack c now t e) d) (
        subst (λ s. Represents c s (fail t j)) (sym same) state,
        marked ∙ ap (marks (failed e) t) m,
      )
  handle-exec now t elapsed d j is (h, m) held =
      let p = nack c now t.task_id t.retry_count t.max_retries in
      rw (run-then p (λ _. ret tt) d) ((nack-exec c now t d.store j h held).1, m)

  dequeue_or_retry-exec :
      (now timeout : ℕ) (d : Desk) (o : Option TaskPayload)
      → let r = run redis_exec (dequeue c now timeout) d.store in
        r.0 ≡ ok o → run exec (dequeue_or_retry c now timeout) d ≡ (o, record d { store = r.1 })
  unfolding dequeue_or_retry run
  dequeue_or_retry-exec now timeout d none e =
      run-then (dequeue c now timeout) (or_retry c) d ∙ rw e refl
  dequeue_or_retry-exec now timeout d (some t) e =
      run-then (dequeue c now timeout) (or_retry c) d ∙ rw e refl

  pub round-exec :
      (taken settled timeout : ℕ) (result : TaskPayload → Processed) (d : Desk) (j : Jobs)
      (is : List Uuid) (rest : List TaskPayload) (t : TaskPayload)
      → Shows d j is
      → pop_last j.pending ≡ some (rest, t)
      → Shows
          (run exec (round c taken settled timeout result) d).1
          (settle (result t) t (claim rest t j))
          (marks (result t) t is)
  unfolding round
  round-exec taken settled timeout result d j is rest t (h, m) e =
      let r = run redis_exec (dequeue c taken timeout) d.store in
      let (answer, state) = dequeue-exec c taken timeout d.store j rest t h e in
      rw (run-bind exec (dequeue_or_retry c taken timeout) (process c settled result) d) (
        rw (dequeue_or_retry-exec taken timeout d (some t) answer) (
          handle-exec settled t (result t) (record d { store = r.1 }) (claim rest t j) is (state, m)
            (inl refl)))

  pub idle_round-exec :
      (taken settled timeout : ℕ) (result : TaskPayload → Processed) (d : Desk) (j : Jobs)
      → Represents c d.store j
      → pop_last j.pending ≡ none
      → (run exec (round c taken settled timeout result) d).1 ≡ d
  unfolding round run
  idle_round-exec taken settled timeout result d j h e =
      let empty = dequeue_empty-exec c taken timeout d.store j h e in
      rw (run-bind exec (dequeue_or_retry c taken timeout) (process c settled result) d) (
        rw (dequeue_or_retry-exec taken timeout d none (ap (λ r. r.0) empty))
          (ap (λ r. record d { store = r.1 }) empty))
