-- ===== src/Worker.antt =====
-- The worker's loop: pichost-worker/src/main.rs. What `pipeline::process_task` comes to within
-- the time limit is an argument, as it is of `handle_task_result`; so are the times that the
-- clock shows.
pub mod Rounds
pub mod Retries
pub mod Pipeline
mod Examples
use pichost.Common.{
  ℕ, zero, suc, ◌+◌, String, List, [], ◌∷◌, Option, none, some, Result, ok, err, map_err,
}
use pichost.Prog.{Prog, ret, send, bind}
use pichost.Redis.{Command, Reply}
use pichost.TaskQueue.{Uuid, TaskPayload, Codec, NackAction, retry, dead_letter, Done}
use pichost.TaskQueue.RedisQueue.{StateQueueError, dequeue, ack, nack}

-- A row of `upload_tasks` that says why a task is dead.
pub record FailedTask : Type 0 where
  pub image_id : Uuid
  pub error : String
  pub retry_count : ℕ
  pub max_retries : ℕ
  pub completed_at : ℕ

pub data Call : Type 0 where
  redis : Command → Call
  insert_task : FailedTask → Call
  -- `UPDATE images SET status = 'failed' WHERE id = $1`
  mark_failed : (image_id : Uuid) → Call
  sleep : (seconds : ℕ) → Call

abbrev pub Answer : Call → Type 0
Answer (redis c) = Reply c
Answer (insert_task t) = Result String (Unit {0})
Answer (mark_failed i) = Result String (Unit {0})
Answer (sleep n) = Unit {0}

abbrev pub Work : Type 0 → Type 0
Work A = Prog Call Answer A

-- The queue's operations among the worker's calls.
unfoldable pub on_redis : {A : Type 0} → Prog Command Reply A → Work A
on_redis (ret a) = ret a
on_redis (send c k) = send (redis c) λ r. on_redis (k r)

-- What came of a task: `Ok(Ok(()))`, `Ok(Err(e))` and `Err(_elapsed)`.
pub data Processed : Type 0 where
  completed : Processed
  failed : (error : String) → Processed
  elapsed : Processed

-- Both statements' errors are ignored.
unfoldable pub handle_dead_letter : ℕ → Uuid → ℕ → ℕ → String → Work Done
handle_dead_letter now image_id retry_count max_retries error =
    send
      (insert_task (record {
        image_id = image_id;
        error = error;
        retry_count = retry_count;
        max_retries = max_retries;
        completed_at = now;
      }))
      λ _. send (mark_failed image_id) λ _. ret tt

module _ (codec : Codec) where
  abbrev pub after_nack : ℕ → TaskPayload → String → Result StateQueueError NackAction → Work Done
  after_nack now task error (ok retry) = ret tt
  after_nack now task error (ok dead_letter) =
      handle_dead_letter now task.image_id (task.retry_count + 1) task.max_retries error
  after_nack now task error (err e) = ret tt

  unfoldable pub nack_failed_task : ℕ → TaskPayload → String → Work Done
  unfolding handle_dead_letter
  nack_failed_task now task error =
      bind (on_redis (nack codec now task.task_id task.retry_count task.max_retries))
        λ r. after_nack now task error r

  unfoldable pub handle_task_result : ℕ → TaskPayload → Processed → Work Done
  unfolding nack_failed_task
  handle_task_result now task completed = bind (on_redis (ack codec now task.task_id)) λ _. ret tt
  handle_task_result now task (failed e) = nack_failed_task now task e
  handle_task_result now task elapsed =
      bind (on_redis (nack codec now task.task_id task.retry_count task.max_retries)) λ _. ret tt

  abbrev pub or_retry : Result StateQueueError (Option TaskPayload) → Work (Option TaskPayload)
  or_retry (ok (some t)) = ret (some t)
  or_retry (ok none) = ret none
  or_retry (err e) = send (sleep 1) λ _. ret none

  unfoldable pub dequeue_or_retry : ℕ → ℕ → Work (Option TaskPayload)
  dequeue_or_retry now timeout = bind (on_redis (dequeue codec now timeout)) or_retry

  abbrev pub process : ℕ → (TaskPayload → Processed) → Option TaskPayload → Work Done
  process now result none = ret tt
  process now result (some task) = handle_task_result now task (result task)

  -- One round of `worker_loop`: a task is taken at one time and settled at a later one.
  unfoldable pub round : ℕ → ℕ → ℕ → (TaskPayload → Processed) → Work Done
  unfolding dequeue_or_retry handle_task_result
  round taken settled timeout result =
      bind (dequeue_or_retry taken timeout) (process settled result)

  -- Rounds of `worker_loop`; `times n` are those of the round before which `n` are left.
  unfoldable pub worker_loop : ℕ → (ℕ → ℕ × ℕ) → ℕ → (TaskPayload → Processed) → Work Done
  unfolding round
  worker_loop zero times timeout result = ret tt
  worker_loop (suc n) times timeout result =
      bind (round (times n).0 (times n).1 timeout result) λ _. worker_loop n times timeout result
