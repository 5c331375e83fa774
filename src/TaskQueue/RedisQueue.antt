-- ===== src/TaskQueue/RedisQueue.antt =====
-- The `Queue` trait as Redis implements it: `impl Queue for RedisQueue` in pichost-
-- worker/src/queue.rs, with the errors of pichost-core/src/state/mod.rs.
use pichost.Common.{
  ℕ, String, ◌≡◌, refl, ap, subst, ◌∙◌, List, [], ◌∷◌, Option, none, some, Result, ok, map_err, ◌⊎◌,
  inl, inr, All,
}
use pichost.Prog.Laws.{run-bind}
use pichost.Prog.{Prog, ret, send, bind, run, ◌>>=◌, ◌>>◌, throw}
use pichost.Redis.{pop_last, Store, Command, Reply, connect, hget, exec}
use pichost.Storage.{◌⧺◌}
use pichost.TaskQueue.{
  Uuid, TaskPayload, Codec, QueueError, redis, pool, serialize, missing_data, invalid_uuid,
  NackAction, Queued, Done, enqueue_task, dequeue_task, ack_task, nack_task, task_key,
}
use pichost.TaskQueue.Jobs.{Jobs, Represents, Stored, HasId, claim, finish, fail, verdict}
use pichost.TaskQueue.Refine.{
  nack_task-exec, ack_task-exec, dequeue_task-exec, dequeue_task_empty-exec,
}

pub data StateQueueError : Type 0 where
  other : String → StateQueueError

abbrev pub Queue : Type 0 → Type 0
Queue A = Prog Command Reply (Result StateQueueError A)

abbrev nack_err_msg : String
nack_err_msg = "nack: task failed"

module _ (codec : Codec) where
  open codec use {show_uuid, decode}

  abbrev pub message : QueueError → String
  message (redis m) = "redis error: " ⧺ m
  message (pool m) = "pool error: " ⧺ m
  message (serialize m) = "serialization error: " ⧺ m
  message (missing_data u) = "missing task data for id " ⧺ show_uuid u
  message (invalid_uuid m) = "invalid uuid: " ⧺ m

  -- `map_err(to_state_error)` after one of the queue's functions.
  abbrev pub to_state_error : {A : Type 0} → Queued A → Queue A
  to_state_error p = bind p λ r. ret (map_err (λ e. other (message e)) r)

  abbrev or_other : {A : Type 0} → Result String A → Queue A
  or_other r = ret (map_err other r)

  unfoldable pub enqueue : ℕ → TaskPayload → Queue Done
  enqueue now payload = to_state_error (enqueue_task codec now payload)

  unfoldable pub dequeue : ℕ → ℕ → Queue (Option TaskPayload)
  dequeue now timeout = to_state_error (dequeue_task codec now timeout)

  unfoldable pub ack : ℕ → Uuid → Queue Done
  ack now task_id = to_state_error (ack_task codec now task_id)

  abbrev reload : Uuid → Option String → Queue TaskPayload
  reload task_id none = throw (other ("missing task data for id " ⧺ show_uuid task_id))
  reload task_id (some j) = or_other (decode j)

  -- The stored payload, with the counts that the caller gives.
  unfoldable pub nack : ℕ → Uuid → ℕ → ℕ → Queue NackAction
  nack now task_id retry_count max_retries = do
    send connect or_other
    json ← send (hget (task_key codec task_id) "data") or_other
    task ← reload task_id json
    to_state_error (
        nack_task codec now (record task { retry_count = retry_count; max_retries = max_retries })
          nack_err_msg)

abbrev pub HasTask : TaskPayload → List TaskPayload → Type 0
HasTask t [] = ⊥
HasTask t (u ∷ us) = (u ≡ t) ⊎ HasTask t us

HasTask-HasId : (t : TaskPayload) (ts : List TaskPayload) → HasTask t ts → HasId t.task_id ts
HasTask-HasId t [] h = h
HasTask-HasId t (u ∷ us) (inl e) = inl (ap (λ (x : TaskPayload). x.task_id) e)
HasTask-HasId t (u ∷ us) (inr h) = inr (HasTask-HasId t us h)

module _ (c : Codec) where
  All-HasTask :
      (s : Store) (t : TaskPayload) (ts : List TaskPayload)
      → HasTask t ts
      → All (Stored c s) ts
      → Stored c s t
  All-HasTask s t [] h k = absurd h
  All-HasTask s t (u ∷ us) (inl e) (k, ks) = subst (Stored c s) e k
  All-HasTask s t (u ∷ us) (inr h) (k, ks) = All-HasTask s t us h ks

  -- What succeeds with a state of the queue does so through the trait.
  pub to_state_error-Represents :
      {A : Type 0} (p : Queued A) (s : Store) (a : A) (j : Jobs)
      → (let r = run exec p s in (r.0 ≡ ok a) × Represents c r.1 j)
      → let r = run exec (to_state_error c p) s in (r.0 ≡ ok a) × Represents c r.1 j
  unfolding run
  to_state_error-Represents p s a j (e, h) =
      rw (run-bind exec p (λ r. ret (map_err (λ x. other (message c x)) r)) s)
        (ap (map_err (λ x. other (message c x))) e, h)

  nack-reload :
      (now : ℕ) (t : TaskPayload) (s : Store)
      → Stored c s t
      → run exec (nack c now t.task_id t.retry_count t.max_retries) s
        ≡ run exec (to_state_error c (nack_task c now t nack_err_msg)) s
  unfolding nack run exec
  nack-reload now t s (payload, e, d) = rw e (rw d refl)

  pub nack-exec :
      (now : ℕ) (t : TaskPayload) (s : Store) (j : Jobs)
      → Represents c s j
      → HasTask t j.processing
      → let r = run exec (nack c now t.task_id t.retry_count t.max_retries) s in
        (r.0 ≡ ok (verdict t)) × Represents c r.1 (fail t j)
  nack-exec now t s j h held =
      rw (nack-reload now t s (All-HasTask s t j.processing held h.processing_data)) (
        to_state_error-Represents (nack_task c now t nack_err_msg) s (verdict t) (fail t j)
          (nack_task-exec c now t nack_err_msg s j h (HasTask-HasId t j.processing held)))

  pub ack-exec :
      (now : ℕ) (u : Uuid) (s : Store) (j : Jobs)
      → Represents c s j
      → let r = run exec (ack c now u) s in (r.0 ≡ ok tt) × Represents c r.1 (finish u j)
  unfolding ack
  ack-exec now u s j h =
      to_state_error-Represents (ack_task c now u) s tt (finish u j) (ack_task-exec c now u s j h)

  pub dequeue-exec :
      (now timeout : ℕ) (s : Store) (j : Jobs) (rest : List TaskPayload) (t : TaskPayload)
      → Represents c s j
      → pop_last j.pending ≡ some (rest, t)
      → let r = run exec (dequeue c now timeout) s in
        (r.0 ≡ ok (some t)) × Represents c r.1 (claim rest t j)
  unfolding dequeue
  dequeue-exec now timeout s j rest t h e =
      to_state_error-Represents (dequeue_task c now timeout) s (some t) (claim rest t j)
        (dequeue_task-exec c now timeout s j rest t h e)

  pub dequeue_empty-exec :
      (now timeout : ℕ) (s : Store) (j : Jobs)
      → Represents c s j
      → pop_last j.pending ≡ none
      → run exec (dequeue c now timeout) s ≡ (ok none, s)
  unfolding dequeue run
  dequeue_empty-exec now timeout s j h e =
      run-bind exec (dequeue_task c now timeout) (λ r. ret (map_err (λ x. other (message c x)) r)) s
      ∙ rw (dequeue_task_empty-exec c now timeout s j h e) refl
