-- ===== src/TaskQueue/Contract.antt =====
-- The queue's operations on a server, and what they are on `Jobs`.
use pichost.Common.{ℕ, String, ◌≡◌, refl, sym, ◌∙◌, List, some, none, ok, subst, Result}
use pichost.Prog.{run}
use pichost.Prog.Laws.{run-view}
use pichost.Redis.{Server, IsUp, exec, pop_last}
use pichost.TaskQueue.{
  Uuid, TaskPayload, Codec, Queued, QueueError, enqueue_task, dequeue_task, ack_task, nack_task,
}
use pichost.TaskQueue.Jobs.{Jobs, Represents, IsFresh, HasId, add, claim, finish, fail, verdict}
use pichost.TaskQueue.Refine.{
  enqueue_task-exec, dequeue_task-exec, dequeue_task_empty-exec, ack_task-exec, nack_task-exec,
}

module _ (c : Codec) (S : Server) (up : IsUp S) where
  pub on_server :
      {A : Type 0} (p : Queued A) (d : S.Db) (a : Result QueueError A) (j : Jobs)
      → (let r = run exec p (S.view d) in (r.0 ≡ a) × Represents c r.1 j)
      → let r = run S.handle p d in (r.0 ≡ a) × Represents c (S.view r.1) j
  on_server p d a j (result, state) =
      let (same, after) = run-view S.handle exec S.view up p d in
      (same ∙ result, subst (λ s. Represents c s j) (sym after) state)

  -- On a server that is up and keys that represent a queue, enqueueing a task with a fresh id
  -- succeeds and puts the task behind all that wait; nothing else moves, and every stored payload
  -- stays readable.
  pub enqueue_task-Represents :
      (now : ℕ) (t : TaskPayload) (d : S.Db) (j : Jobs)
      → Represents c (S.view d) j
      → IsFresh t.task_id j
      → let r = run S.handle (enqueue_task c now t) d in
        (r.0 ≡ ok tt) × Represents c (S.view r.1) (add t j)
  enqueue_task-Represents now t d j h new =
      on_server (enqueue_task c now t) d _ _ (enqueue_task-exec c now t (S.view d) j h new)

  -- On a server that is up and keys that represent a queue: if a task waits, dequeueing returns
  -- the payload of the one that waited longest, exactly as it was stored, and moves it to the
  -- processing list.
  pub dequeue_task-Represents :
      (now timeout : ℕ) (d : S.Db) (j : Jobs) (rest : List TaskPayload) (t : TaskPayload)
      → Represents c (S.view d) j
      → pop_last j.pending ≡ some (rest, t)
      → let r = run S.handle (dequeue_task c now timeout) d in
        (r.0 ≡ ok (some t)) × Represents c (S.view r.1) (claim rest t j)
  dequeue_task-Represents now timeout d j rest t h e =
      on_server (dequeue_task c now timeout) d _ _
        (dequeue_task-exec c now timeout (S.view d) j rest t h e)

  -- On a server that is up and keys that represent a queue: if no task waits, dequeueing returns
  -- `none` and moves nothing.
  pub dequeue_task_empty-Represents :
      (now timeout : ℕ) (d : S.Db) (j : Jobs)
      → Represents c (S.view d) j
      → pop_last j.pending ≡ none
      → let r = run S.handle (dequeue_task c now timeout) d in
        (r.0 ≡ ok none) × Represents c (S.view r.1) j
  dequeue_task_empty-Represents now timeout d j h e =
      on_server (dequeue_task c now timeout) d _ _
        (rw (dequeue_task_empty-exec c now timeout (S.view d) j h e) (refl, h))

  -- On a server that is up and keys that represent a queue, acknowledging a task takes one task
  -- with that id off the processing list and nothing else.
  pub ack_task-Represents :
      (now : ℕ) (u : Uuid) (d : S.Db) (j : Jobs)
      → Represents c (S.view d) j
      → let r = run S.handle (ack_task c now u) d in
        (r.0 ≡ ok tt) × Represents c (S.view r.1) (finish u j)
  ack_task-Represents now u d j h =
      on_server (ack_task c now u) d _ _ (ack_task-exec c now u (S.view d) j h)

  -- On a server that is up and keys that represent a queue, a negative acknowledgment of a task
  -- that is being processed takes it off that list. While its retry count is below its maximum it
  -- waits again with the count one higher; otherwise it goes to the dead list. The answer says
  -- which.
  pub nack_task-Represents :
      (now : ℕ) (t : TaskPayload) (error : String) (d : S.Db) (j : Jobs)
      → Represents c (S.view d) j
      → HasId t.task_id j.processing
      → let r = run S.handle (nack_task c now t error) d in
        (r.0 ≡ ok (verdict t)) × Represents c (S.view r.1) (fail t j)
  nack_task-Represents now t error d j h held =
      on_server (nack_task c now t error) d _ _ (nack_task-exec c now t error (S.view d) j h held)
