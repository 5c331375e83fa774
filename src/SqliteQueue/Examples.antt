-- ===== src/SqliteQueue/Examples.antt =====
-- A task in the table.
use pichost.Common.{◌≡◌, [], ◌∷◌, false, arith}
use pichost.Prog.{run}
use pichost.TaskQueue.Samples.{codec, job}
use pichost.SqliteQueue.{Row, exec, lite_worker_task}
use pichost.SqliteQueue.Retries.{waiting, lite_worker_task-waits}

abbrev dead_row : Row
dead_row = record {
  task_id = "x";
  payload_json = "";
  status = "dead";
  retry_count = 3;
  claimed = false;
}

lite_worker_task-waits_example :
    (run exec
      (lite_worker_task codec 8 (λ _. false))
      (waiting codec (job 1) (codec.decode-encode (job 1)).0 0 ∷ [])).1
    ≡ waiting codec (job 1) (codec.decode-encode (job 1)).0 1 ∷ []
lite_worker_task-waits_example =
    lite_worker_task-waits codec (job 1) (codec.decode-encode (job 1)).0 7 0
      (codec.decode-encode (job 1)).2 (omega arith)
