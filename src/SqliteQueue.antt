-- ===== src/SqliteQueue.antt =====
-- The queue of the lite mode in a SQLite table: pichost-core/src/state/sqlite_queue.rs, and the
-- loop that works it off inside the API process, `lite_worker_task` and `handle_task` of pichost-
-- api/src/app.rs. `exec` gives each statement its meaning on the table `pending_tasks`, whose
-- rows stand in the order of `created_at`. The columns with the times of a claim and an update
-- are left out, except whether `claimed_at` is set; no statement reads another.
pub mod Retries
mod Examples
use pichost.Common.{
  ℕ, zero, suc, ◌+◌, String, List, [], ◌∷◌, ◌++◌, Option, none, some, Result, ok, err, map_err,
  Bool, true, false, not, ◌&&◌, ◌=ₛ◌, if◌then◌else◌, any, select, map, ltb,
}
use pichost.Prog.{Prog, ret, send, bind, ◌>>=◌, ◌>>◌, pure}
use pichost.TaskQueue.{Uuid, TaskPayload, Codec, NackAction, retry, dead_letter, Done}
use pichost.TaskQueue.RedisQueue.{StateQueueError, other}

pub data Call : Type 0 where
  insert_task : (task_id payload_json : String) → Call
  claim_oldest : Call
  delete_task : (task_id : String) → Call
  set_pending : (task_id : String) (retry_count : ℕ) → Call
  set_dead : (task_id : String) → Call
  reset_processing : Call
  sleep : (milliseconds : ℕ) → Call

abbrev pub Answer : Call → Type 0
Answer (insert_task i p) = Result String (Unit {0})
Answer claim_oldest = Result String (Option (String × String))
Answer (delete_task i) = Result String (Unit {0})
Answer (set_pending i n) = Result String (Unit {0})
Answer (set_dead i) = Result String (Unit {0})
Answer reset_processing = Result String (Unit {0})
Answer (sleep n) = Unit {0}

pub record Row : Type 0 where
  pub task_id : String
  pub payload_json : String
  pub status : String
  pub retry_count : ℕ
  pub claimed : Bool

abbrev pub is_free : Row → Bool
is_free r = r.status =ₛ "pending" && not r.claimed

abbrev pub has_id : String → Row → Bool
has_id i r = r.task_id =ₛ i

abbrev update : (Row → Bool) → (Row → Row) → List Row → List Row
update p f rows = map (λ r. if p r then f r else r) rows

abbrev put_row : Row → Option (String × String) × List Row → Option (String × String) × List Row
put_row r (o, rows) = (o, r ∷ rows)

-- The oldest row that is free becomes `processing`.
unfoldable pub claim_first : List Row → Option (String × String) × List Row
claim_first [] = (none, [])
claim_first (r ∷ rows) =
    let rest = claim_first rows in
    if is_free r
    then (
      some (r.task_id, r.payload_json),
      record r { status = "processing"; claimed = true } ∷ rows,
    )
    else put_row r rest

abbrev claimed_row :
    Option (String × String) × List Row → Result String (Option (String × String)) × List Row
claimed_row (o, rows) = (ok o, rows)

unfoldable pub exec : (c : Call) → List Row → Answer c × List Row
unfolding claim_first
exec (insert_task i p) rows =
    if any (has_id i) rows then (err "UNIQUE constraint failed", rows) else (
      ok tt,
      rows
          ++ record {
            task_id = i;
            payload_json = p;
            status = "pending";
            retry_count = 0;
            claimed = false;
          }
            ∷ [],
    )
exec claim_oldest rows = claimed_row (claim_first rows)
exec (delete_task i) rows = (ok tt, select (λ r. not (has_id i r)) rows)
exec (set_pending i n) rows = (
  ok tt,
  update (has_id i) (λ r. record r { status = "pending"; claimed = false; retry_count = n }) rows,
)
exec (set_dead i) rows =
    (ok tt, update (has_id i) (λ r. record r { status = "dead"; claimed = false }) rows)
exec reset_processing rows = (
  ok tt,
  update (λ r. r.status =ₛ "processing") (λ r. record r { status = "pending"; claimed = false })
      rows,
)
exec (sleep n) rows = (tt, rows)

abbrev pub Queue : Type 0 → Type 0
Queue A = Prog Call Answer (Result StateQueueError A)

abbrev or_other : {A : Type 0} → Result String A → Queue A
or_other r = ret (map_err other r)

unfoldable pub reclaim_stale : Queue Done
reclaim_stale = send reset_processing or_other

module _ (codec : Codec) where
  open codec use {show_uuid, encode, decode}

  unfoldable pub enqueue : TaskPayload → Queue Done
  enqueue p = do json ← or_other (encode p); send (insert_task (show_uuid p.task_id) json) or_other

  abbrev decode_row : Option (String × String) → Queue (Option TaskPayload)
  decode_row none = pure none
  decode_row (some (id, json)) = do task ← or_other (decode json); pure (some task)

  unfoldable pub dequeue : Queue (Option TaskPayload)
  dequeue = do row ← send claim_oldest or_other; decode_row row

  unfoldable pub ack : Uuid → Queue Done
  ack task_id = send (delete_task (show_uuid task_id)) or_other

  unfoldable pub nack : Uuid → ℕ → ℕ → Queue NackAction
  nack task_id retry_count max_retries =
      if ltb retry_count max_retries
      then send (set_pending (show_uuid task_id) (retry_count + 1)) (λ r. or_other r >> pure retry)
      else send (set_dead (show_uuid task_id)) (λ r. or_other r >> pure dead_letter)

  -- Whether `process_task` succeeded; both branches only log the queue's answer.
  unfoldable pub handle_task : TaskPayload → Bool → Prog Call Answer Done
  unfolding ack nack
  handle_task payload true = bind (ack payload.task_id) λ _. ret tt
  handle_task payload false =
      bind (nack payload.task_id payload.retry_count payload.max_retries) λ _. ret tt

  abbrev pub handle_row :
      (TaskPayload → Bool) → Result StateQueueError (Option TaskPayload) → Prog Call Answer Done
  handle_row processed (ok (some payload)) = handle_task payload (processed payload)
  handle_row processed (ok none) = send (sleep 500) λ _. ret tt
  handle_row processed (err e) = send (sleep 500) λ _. ret tt

  -- Rounds of the loop; `processed` is what the pipeline makes of a task.
  unfoldable pub lite_worker_task : ℕ → (TaskPayload → Bool) → Prog Call Answer Done
  unfolding dequeue handle_task
  lite_worker_task zero processed = ret tt
  lite_worker_task (suc n) processed =
      let rest = lite_worker_task n processed in
      bind (bind dequeue (handle_row processed)) λ _. rest
