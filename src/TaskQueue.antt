-- ===== src/TaskQueue.antt =====
-- The Redis task queue of the worker: pichost-worker/src/queue.rs, and the payload of
-- pichost-core/src/models.rs. UUIDs and times (milliseconds since 1970) are numbers; `i32` retry
-- counters are natural numbers. The text forms of UUIDs, times and payloads are those of the uuid,
-- chrono and serde_json libraries, the parameter `Codec`. The value of `Utc::now()` is an argument.
-- A log line is no part of the model.
pub mod Jobs
pub mod Keys
mod Lists
mod Runs
mod Refine
pub mod Contract
pub mod RedisQueue
pub mod Recovery
pub mod Samples
mod Examples
use Prim.Native.String
use pichost.Common.{
  ℕ, ◌+◌, ◌-◌, ◌*◌, String, List, [], ◌∷◌, Option, none, some, Result, ok, err, map_err, ◌≡◌, ltb,
  Bool, false, if◌then◌else◌,
}
use pichost.Prog.{Prog, ret, send, ◌>>=◌, ◌>>◌, pure, throw}
use pichost.Redis.{Command, connect, hset, hget, lpush, lrem, lrange, brpoplpush, Reply}

abbrev pub Uuid : Type 0
Uuid = ℕ

pub record TaskPayload : Type 0 where
  pub task_id : Uuid
  pub image_id : Uuid
  pub user_id : Uuid
  pub storage_backend : String
  pub storage_config_id : Option Uuid
  pub storage_backend_name : String
  pub source_key : String
  pub source_mime : String
  pub retry_count : ℕ
  pub max_retries : ℕ

-- What the libraries promise of the text forms: what is written is read back.
pub record Codec : Type 0 where
  pub show_uuid : Uuid → String
  pub parse_uuid : String → Result String Uuid
  pub parse-show : (u : Uuid) → parse_uuid (show_uuid u) ≡ ok u
  pub show_time : ℕ → String
  pub parse_time : String → Option ℕ
  pub parse-show_time : (t : ℕ) → parse_time (show_time t) ≡ some t
  pub encode : TaskPayload → Result String String
  pub decode : String → Result String TaskPayload
  pub decode-encode : (t : TaskPayload) → (j : String) × (encode t ≡ ok j) × (decode j ≡ ok t)

pub data QueueError : Type 0 where
  redis : String → QueueError
  pool : String → QueueError
  serialize : String → QueueError
  missing_data : Uuid → QueueError
  invalid_uuid : String → QueueError

pub data NackAction : Type 0 where
  retry dead_letter : NackAction

abbrev pub key_pending : String
key_pending = "pichost:tasks:pending"

abbrev pub key_processing : String
key_processing = "pichost:tasks:processing"

abbrev pub key_dead : String
key_dead = "pichost:tasks:dead"

abbrev pub key_prefix : String
key_prefix = "pichost:task:"

-- An operation of the queue, and a step of one.
abbrev pub Queued : Type 0 → Type 0
Queued A = Prog Command Reply (Result QueueError A)

abbrev pub Done : Type 0
Done = Unit {0}

abbrev pub lift : {A : Type 0} → Result String A → Queued A
lift r = ret (map_err redis r)

abbrev pub get_conn : Queued Done
get_conn = send connect (λ r. ret (map_err pool r))

abbrev pub hset_field : String → String → String → Queued Done
hset_field k f v = send (hset k f v) lift

abbrev pub hget_field : String → String → Queued (Option String)
hget_field k f = send (hget k f) lift

abbrev pub push_left : String → String → Queued Done
push_left k v = send (lpush k v) lift

abbrev pub remove_one : String → String → Queued Done
remove_one k v = send (lrem k v) lift

abbrev pub retried : TaskPayload → TaskPayload
retried task = record task { retry_count = task.retry_count + 1 }

module _ (codec : Codec) where
  open codec use {show_uuid, parse_uuid, show_time, parse_time, encode, decode}

  unfoldable pub task_key : Uuid → String
  task_key task_id = String.◌++◌ key_prefix (show_uuid task_id)

  pub enqueue_task : ℕ → TaskPayload → Queued Done
  enqueue_task now task = do
    get_conn
    let key = task_key task.task_id
    json ← ret (map_err serialize (encode task))
    hset_field key "data" json
    hset_field key "status" "pending"
    hset_field key "created_at" (show_time now)
    hset_field key "updated_at" (show_time now)
    push_left key_pending (show_uuid task.task_id)
    pure tt

  abbrev read_uuid : String → Queued Uuid
  read_uuid id_str =
      ret (
        map_err (λ e. invalid_uuid (String.◌++◌ "invalid task id in queue: " e))
          (parse_uuid id_str))

  -- A task with no data is taken off the processing list.
  abbrev data_or_orphan : Uuid → Option String → Queued String
  data_or_orphan task_id (some j) = pure j
  data_or_orphan task_id none = do
    remove_one key_processing (show_uuid task_id)
    throw (missing_data task_id)

  -- What `dequeue_task` does with the id that it moved.
  take_task : ℕ → String → Queued (Option TaskPayload)
  take_task now task_id_str = do
    task_id ← read_uuid task_id_str
    let key = task_key task_id
    found ← hget_field key "data"
    json ← data_or_orphan task_id found
    task ← ret (map_err serialize (decode json))
    hset_field key "status" "processing"
    hset_field key "updated_at" (show_time now)
    pure (some task)

  abbrev take_some : ℕ → Option String → Queued (Option TaskPayload)
  take_some now none = pure none
  take_some now (some s) = take_task now s

  pub dequeue_task : ℕ → ℕ → Queued (Option TaskPayload)
  unfolding take_task
  dequeue_task now timeout = do
    get_conn
    moved ← send (brpoplpush key_pending key_processing timeout) lift
    take_some now moved

  pub ack_task : ℕ → Uuid → Queued Done
  ack_task now task_id = do
    get_conn
    let key = task_key task_id
    remove_one key_processing (show_uuid task_id)
    hset_field key "status" "done"
    hset_field key "updated_at" (show_time now)
    pure tt

  retry_task : TaskPayload → Queued NackAction
  retry_task task = do
    let key = task_key task.task_id
    json ← ret (map_err serialize (encode (retried task)))
    hset_field key "data" json
    hset_field key "status" "pending"
    push_left key_pending (show_uuid task.task_id)
    pure retry

  bury_task : TaskPayload → Queued NackAction
  bury_task task = do
    push_left key_dead (show_uuid task.task_id)
    hset_field (task_key task.task_id) "status" "dead"
    pure dead_letter

  pub nack_task : ℕ → TaskPayload → String → Queued NackAction
  unfolding retry_task bury_task
  nack_task now task error = do
    get_conn
    let key = task_key task.task_id
    remove_one key_processing (show_uuid task.task_id)
    hset_field key "error" error
    hset_field key "updated_at" (show_time now)
    if ltb task.retry_count task.max_retries then retry_task task else bury_task task

  -- Remove a stale task from the processing list and put it back.
  requeue : ℕ → Uuid → String → TaskPayload → Queued (Option TaskPayload)
  requeue now task_id id_str task = do
    remove_one key_processing id_str
    let key = task_key task_id
    hset_field key "status" "pending"
    hset_field key "updated_at" (show_time now)
    hset_field key "error" "recovered: stale"
    push_left key_pending id_str
    pure (some task)

  abbrev requeue_decoded :
      ℕ → Uuid → String → Result String TaskPayload → Queued (Option TaskPayload)
  requeue_decoded now task_id id_str (err e) = pure none
  requeue_decoded now task_id id_str (ok task) = requeue now task_id id_str task

  abbrev requeue_found : ℕ → Uuid → String → Option String → Queued (Option TaskPayload)
  requeue_found now task_id id_str none = pure none
  requeue_found now task_id id_str (some j) = requeue_decoded now task_id id_str (decode j)

  pub recover_single_task : ℕ → Uuid → String → Queued (Option TaskPayload)
  unfolding requeue
  recover_single_task now task_id id_str = do
    json ← hget_field (task_key task_id) "data"
    requeue_found now task_id id_str json

  -- `parse_task_updated_at`, and the test of the timestamp against the cutoff.
  abbrev pub is_stale : ℕ → Option ℕ → Bool
  is_stale cutoff none = false
  is_stale cutoff (some updated_at) = ltb updated_at cutoff

  abbrev pub parse_updated_at : Option String → Option ℕ
  parse_updated_at none = none
  parse_updated_at (some s) = parse_time s

  -- One round of the loop of `recover_stale_tasks`, from an id to the task that it recovers.
  recover_if_stale : ℕ → ℕ → Uuid → String → Option String → Queued (Option TaskPayload)
  unfolding recover_single_task
  recover_if_stale now cutoff task_id id_str updated_at =
      if is_stale cutoff (parse_updated_at updated_at)
      then recover_single_task now task_id id_str
      else pure none

  abbrev recover_parsed : ℕ → ℕ → String → Result String Uuid → Queued (Option TaskPayload)
  recover_parsed now cutoff id_str (err e) = pure none
  recover_parsed now cutoff id_str (ok task_id) = do
    updated_at ← hget_field (task_key task_id) "updated_at"
    recover_if_stale now cutoff task_id id_str updated_at

  abbrev recovered : Option TaskPayload → List TaskPayload → List TaskPayload
  recovered none ts = ts
  recovered (some t) ts = t ∷ ts

  recover_each : ℕ → ℕ → List String → Queued (List TaskPayload)
  recover_each now cutoff [] = pure []
  recover_each now cutoff (id_str ∷ ids) =
      let rest = recover_each now cutoff ids in
      do
        here ← recover_parsed now cutoff id_str (parse_uuid id_str)
        there ← rest
        pure (recovered here there)

  pub recover_stale_tasks : ℕ → ℕ → Queued (List TaskPayload)
  unfolding recover_each recover_if_stale
  recover_stale_tasks now task_timeout_secs = do
    get_conn
    task_ids ← send (lrange key_processing) lift
    recover_each now (now - task_timeout_secs * 1000) task_ids
