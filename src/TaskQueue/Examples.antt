-- ===== src/TaskQueue/Examples.antt =====
-- The queue's operations on a small queue.
use pichost.Common.{◌≡◌, refl, [], ◌∷◌, some, ok, arith, inl}
use pichost.Prog.{run}
use pichost.Redis.{Store, exec, pop_last}
use pichost.TaskQueue.{retry, enqueue_task, dequeue_task, ack_task, nack_task}
use pichost.TaskQueue.Jobs.{Jobs, Represents, add, claim, finish, fail}
use pichost.TaskQueue.Contract.{
  enqueue_task-Represents, dequeue_task-Represents, ack_task-Represents, nack_task-Represents,
}
use pichost.TaskQueue.{recover_stale_tasks, task_key}
use pichost.TaskQueue.Recovery.{recover_stale_tasks-Represents}
use pichost.TaskQueue.Samples.{
  encode, decode, read_num, write_option, codec, server, server_is_up, job, nothing, idle,
}

idle-Represents : Represents codec nothing idle
idle-Represents = record {
  pending_ids = refl;
  processing_ids = refl;
  dead_ids = refl;
  pending_data = tt;
  processing_data = tt;
  distinct = tt;
}

-- Two tasks wait, and the first of them is then taken.
abbrev one_waits : Store
one_waits = (run exec (enqueue_task codec 100 (job 1)) nothing).1

abbrev two_wait : Store
two_wait = (run exec (enqueue_task codec 200 (job 2)) one_waits).1

abbrev one_taken : Store
one_taken = (run exec (dequeue_task codec 300 5) two_wait).1

one_waits-Represents : Represents codec one_waits (add (job 1) idle)
one_waits-Represents =
    (enqueue_task-Represents codec server server_is_up 100 (job 1) nothing idle idle-Represents
      tt).1

two_wait-Represents : Represents codec two_wait (add (job 2) (add (job 1) idle))
two_wait-Represents =
    (enqueue_task-Represents codec server server_is_up 200 (job 2) one_waits (add (job 1) idle)
      one_waits-Represents (ground arith, tt)).1

enqueue_task-Represents_example :
    let r = run exec (enqueue_task codec 200 (job 2)) one_waits in
    (r.0 ≡ ok tt) × Represents codec r.1 (add (job 2) (add (job 1) idle))
enqueue_task-Represents_example =
    enqueue_task-Represents codec server server_is_up 200 (job 2) one_waits (add (job 1) idle)
      one_waits-Represents (ground arith, tt)

dequeue_task-Represents_example :
    let r = run exec (dequeue_task codec 300 5) two_wait in
    (r.0 ≡ ok (some (job 1)))
    × Represents codec r.1 (claim (job 2 ∷ []) (job 1) (add (job 2) (add (job 1) idle)))
unfolding pop_last
dequeue_task-Represents_example =
    dequeue_task-Represents codec server server_is_up 300 5 two_wait
      (add (job 2) (add (job 1) idle)) (job 2 ∷ []) (job 1) two_wait-Represents refl

abbrev busy : Jobs
busy = claim (job 2 ∷ []) (job 1) (add (job 2) (add (job 1) idle))

one_taken-Represents : Represents codec one_taken busy
unfolding pop_last
one_taken-Represents =
    (dequeue_task-Represents codec server server_is_up 300 5 two_wait
      (add (job 2) (add (job 1) idle)) (job 2 ∷ []) (job 1) two_wait-Represents refl).1

ack_task-Represents_example :
    let r = run exec (ack_task codec 400 1) one_taken in
    (r.0 ≡ ok tt) × Represents codec r.1 (finish 1 busy)
ack_task-Represents_example =
    ack_task-Represents codec server server_is_up 400 1 one_taken busy one_taken-Represents

nack_task-Represents_example :
    let r = run exec (nack_task codec 400 (job 1) "no decoder") one_taken in
    (r.0 ≡ ok retry) × Represents codec r.1 (fail (job 1) busy)
nack_task-Represents_example =
    nack_task-Represents codec server server_is_up 400 (job 1) "no decoder" one_taken busy
      one_taken-Represents (inl refl)

recover_stale_tasks-Represents_example :
    let r = run exec (recover_stale_tasks codec 10000 5) one_taken in
    (r.0 ≡ ok (job 1 ∷ []))
    × Represents codec r.1 (record busy { pending = job 1 ∷ job 2 ∷ []; processing = [] })
unfolding run dequeue_task exec pop_last enqueue_task encode read_num task_key decode write_option
recover_stale_tasks-Represents_example =
    recover_stale_tasks-Represents codec server server_is_up 10000 5 one_taken busy
      one_taken-Represents
