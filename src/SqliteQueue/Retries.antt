-- ===== src/SqliteQueue/Retries.antt =====
-- Retries in the lite mode.
use pichost.Common.{
  ℕ, zero, suc, ◌+◌, ◌<◌, ◌≡◌, refl, String, List, [], ◌∷◌, some, ok, true, false, arith, eq_refl,
  any, ◌++◌, lt→ltb,
}
use pichost.Prog.{run, bind}
use pichost.Prog.Laws.{run-bind}
use pichost.TaskQueue.{TaskPayload, Codec}
use pichost.SqliteQueue.{
  Row, is_free, has_id, enqueue, exec, claim_first, dequeue, nack, handle_task, handle_row,
  lite_worker_task,
}

module _ (c : Codec) where
  -- The row of a task that waits, with some retry count in its column.
  abbrev pub waiting : TaskPayload → String → ℕ → Row
  waiting t json n = record {
    task_id = c.show_uuid t.task_id;
    payload_json = json;
    status = "pending";
    retry_count = n;
    claimed = false;
  }

  one_round :
      (t : TaskPayload) (json : String) (n : ℕ)
      → c.decode json ≡ ok t
      → t.retry_count < t.max_retries
      → (run exec (bind (dequeue c) (handle_row c (λ _. false))) (waiting t json n ∷ [])).1
        ≡ waiting t json (t.retry_count + 1) ∷ []
  unfolding dequeue handle_task nack run exec claim_first
  one_round t json n d left =
      let more = lt→ltb t.retry_count t.max_retries left in
      ground (arith, d, more, eq_refl (c.show_uuid t.task_id))

  -- A task with a retry left whose processing fails each time, alone in the table, is never dead:
  -- after any number of rounds it waits, and its payload has the retry count that it had at first.
  -- (The count is raised in a column that no statement reads.)
  pub lite_worker_task-waits :
      (t : TaskPayload) (json : String) (rounds n : ℕ)
      → c.decode json ≡ ok t
      → t.retry_count < t.max_retries
      → (run exec (lite_worker_task c (suc rounds) (λ _. false)) (waiting t json n ∷ [])).1
        ≡ waiting t json (t.retry_count + 1) ∷ []
  unfolding lite_worker_task run
  lite_worker_task-waits t json zero n d left =
      rw (run-bind exec (bind (dequeue c) (handle_row c (λ _. false))) _ (waiting t json n ∷ []))
        (one_round t json n d left)
  lite_worker_task-waits t json (suc rounds) n d left =
      rw (run-bind exec (bind (dequeue c) (handle_row c (λ _. false))) _ (waiting t json n ∷ [])) (
        rw (one_round t json n d left)
          (lite_worker_task-waits t json rounds (t.retry_count + 1) d left))

claim_first-append :
    (rows : List Row) (r : Row)
    → any is_free rows ≡ false
    → is_free r ≡ true
    → claim_first (rows ++ r ∷ []) ≡ (
      some (r.task_id, r.payload_json),
      rows ++ record r { status = "processing"; claimed = true } ∷ [],
    )
unfolding claim_first
claim_first-append [] r none_free free = ground arith
claim_first-append (x ∷ rows) r none_free free = ground (arith, claim_first-append rows r)

none_free-append :
    (rows : List Row) (r : Row)
    → any is_free rows ≡ false
    → is_free r ≡ false
    → any is_free (rows ++ r ∷ []) ≡ false
none_free-append [] r h k = ground arith
none_free-append (x ∷ rows) r h k = ground (arith, none_free-append rows r)

module _ (c : Codec) (t : TaskPayload) (json : String) (rows : List Row) where
  enqueue-exec :
      c.encode t ≡ ok json
      → any (has_id (c.show_uuid t.task_id)) rows ≡ false
      → run exec (enqueue c t) rows ≡ (ok tt, rows ++ waiting c t json 0 ∷ [])
  unfolding enqueue run exec
  enqueue-exec e new = ground (arith, e, new)

  abbrev taken : Row
  taken = record (waiting c t json 0) { status = "processing"; claimed = true }

  dequeue-exec :
      c.decode json ≡ ok t
      → any is_free rows ≡ false
      → run exec (dequeue c) (rows ++ waiting c t json 0 ∷ []) ≡ (ok (some t), rows ++ taken ∷ [])
  unfolding dequeue run exec
  dequeue-exec d none_free =
      ground (arith, d, claim_first-append rows (waiting c t json 0) none_free refl)

module _ (c : Codec) where
  -- Enqueueing a task with a new id, when nothing else waits, succeeds, and the next dequeue
  -- returns exactly this task and leaves nothing that another dequeue could take.
  pub dequeue-enqueue :
      (t : TaskPayload) (rows : List Row)
      → any is_free rows ≡ false
      → any (has_id (c.show_uuid t.task_id)) rows ≡ false
      → let queued = run exec (enqueue c t) rows in
        let taken = run exec (dequeue c) queued.1 in
        (queued.0 ≡ ok tt) × (taken.0 ≡ ok (some t)) × (any is_free taken.1 ≡ false)
  dequeue-enqueue t rows none_free new =
      let (json, e, d) = c.decode-encode t in
      rw (enqueue-exec c t json rows e new) (
        rw (dequeue-exec c t json rows d none_free)
          (refl, refl, none_free-append rows (taken c t json rows) none_free refl))
