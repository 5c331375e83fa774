-- ===== src/Worker/Examples.antt =====
-- Rounds on a small queue.
use pichost.Common.{ℕ, ◌≤◌, ◌≡◌, refl, [], ◌∷◌}
use pichost.Prog.{run}
use pichost.TaskQueue.{enqueue_task}
use pichost.TaskQueue.Jobs.{Represents, claim}
use pichost.TaskQueue.Contract.{enqueue_task-Represents}
use pichost.TaskQueue.Samples.{codec, server, server_is_up, job, nothing, idle}
use pichost.Redis.{pop_last, exec as redis_exec}
use pichost.Worker.{failed, elapsed, round, worker_loop}
use pichost.Worker.Rounds.{Desk, exec, Services, AreUp, Shows, settle}
use pichost.Worker.Retries.{
  only, tried, dead_with, exhausted, round-Represents, worker_loop-exhausts,
}

abbrev services : Services
services = record { Db = Desk; view = λ d. d; handle = exec }

abbrev services_are_up : AreUp services
services_are_up = λ c d. (refl, refl)

abbrev one_waits : Desk
one_waits = record {
  store = (run redis_exec (enqueue_task codec 100 (job 1)) nothing).1;
  tasks = [];
  marked = [];
}

idle-Represents : Represents codec nothing idle
idle-Represents = record {
  pending_ids = refl;
  processing_ids = refl;
  dead_ids = refl;
  pending_data = tt;
  processing_data = tt;
  distinct = tt;
}

one_waits-Represents : Represents codec one_waits.store (only (job 1) [])
one_waits-Represents =
    (enqueue_task-Represents codec server server_is_up 100 (job 1) nothing idle idle-Represents
      tt).1

round-Represents_example :
    let after = (run exec (round codec 200 300 5 (λ _. elapsed)) one_waits).1 in
    Represents codec after.store (settle elapsed (job 1) (claim [] (job 1) (only (job 1) [])))
    × (after.marked ≡ [])
unfolding pop_last
round-Represents_example =
    round-Represents codec services services_are_up 200 300 5 (λ _. elapsed) one_waits
      (only (job 1) []) [] (job 1) one_waits-Represents refl

worker_loop-exhausts_example :
    let after : ℕ → Desk = λ m.
      (run exec (worker_loop codec m (λ n. (n, n)) 5 (λ _. failed "no decoder")) one_waits).1 in
    ((m : ℕ)
      → m ≤ 3
      → Represents codec (after m).store (only (tried m (job 1)) []) × ((after m).marked ≡ []))
    × Shows codec (after 4) (dead_with (exhausted (job 1) ∷ [])) (11 ∷ [])
worker_loop-exhausts_example =
    worker_loop-exhausts codec services services_are_up (λ n. (n, n)) 5 3 "no decoder" one_waits
      (job 1) [] one_waits-Represents refl
