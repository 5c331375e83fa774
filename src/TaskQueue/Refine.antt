-- ===== src/TaskQueue/Refine.antt =====
-- What each operation of the queue does to keys that represent `Jobs`, when no command fails.
use mathlib.Core.List.{append_assoc}
use mathlib.Core.Option
use pichost.Common.{
  ℕ, String, ◌≡◌, refl, ap, ◌∙◌, List, [], ◌∷◌, ◌++◌, some, none, ok, All, ◌≢◌, ltb, arith, eq_refl,
  true, false, All-left, All-right, subst, Bool-cases, inl, inr,
}
use pichost.Prog.{run}
use pichost.Redis.{Store, exec, put_field, erase_first}
use pichost.TaskQueue.{
  Uuid, TaskPayload, Codec, task_key, retried, enqueue_task, dequeue_task, ack_task, nack_task,
  retry, dead_letter,
}
use pichost.TaskQueue.Keys.{task_key-eq}
use pichost.TaskQueue.Jobs.{
  Jobs, Stored, Represents, IsFresh, HasOtherId, HasId, DistinctIds, add, claim, remove_id, finish,
  fail, verdict,
}
use pichost.TaskQueue.Lists.{
  pop_last-map, erase_first-map, pop_last-append, All-remove_id, remove_id-distinct,
  remove_id-fresh,
}
use pichost.Redis.{pop_last}
use pichost.TaskQueue.Runs.{
  run-enqueue_task, run-dequeue_task, run-dequeue_task_empty, run-ack_task, run-nack_task_retry,
  run-nack_task_dead,
}

module _ (c : Codec) where
  Stored-put :
      (t : TaskPayload) (u : Uuid) (v : String) (s : Store)
      → t.task_id ≢ u
      → Stored c s t
      → Stored c (put_field (task_key c u) "data" v s) t
  Stored-put t u v s other (p, e, d) = (p, rw (task_key-eq c u t.task_id) (ground arith), d)

  -- A write of one task's payload keeps what is stored of the others.
  All-Stored-put :
      (u : Uuid) (v : String) (s : Store) (ts : List TaskPayload)
      → All (HasOtherId u) ts
      → All (Stored c s) ts
      → All (Stored c (put_field (task_key c u) "data" v s)) ts
  All-Stored-put u v s [] new h = tt
  All-Stored-put u v s (t ∷ ts) (other, new) (here, h) =
      (Stored-put t u v s other here, All-Stored-put u v s ts new h)

  pub enqueue_task-exec :
      (now : ℕ) (t : TaskPayload) (s : Store) (j : Jobs)
      → Represents c s j
      → IsFresh t.task_id j
      → let r = run exec (enqueue_task c now t) s in (r.0 ≡ ok tt) × Represents c r.1 (add t j)
  enqueue_task-exec now t s j h new =
      let (payload, e, d) = c.decode-encode t in
      let P = HasOtherId t.task_id in
      rw (run-enqueue_task c now t payload s e) (
        refl,
        record {
          pending_ids = ap (λ ids. c.show_uuid t.task_id ∷ ids) h.pending_ids;
          processing_ids = h.processing_ids;
          dead_ids = h.dead_ids;
          pending_data = (
            (payload, rw eq_refl refl, d),
            All-Stored-put t.task_id payload s j.pending (All-left P j.pending j.processing new)
                h.pending_data,
          );
          processing_data =
              All-Stored-put t.task_id payload s j.processing
                (All-right P j.pending j.processing new) h.processing_data;
          distinct = (new, h.distinct);
        },
      )

  pub dequeue_task-exec :
      (now timeout : ℕ) (s : Store) (j : Jobs) (rest : List TaskPayload) (t : TaskPayload)
      → Represents c s j
      → pop_last j.pending ≡ some (rest, t)
      → let r = run exec (dequeue_task c now timeout) s in
        (r.0 ≡ ok (some t)) × Represents c r.1 (claim rest t j)
  dequeue_task-exec now timeout s j rest t h e =
      let split = pop_last-append j.pending rest t e in
      let texts = ap pop_last h.pending_ids ∙ pop_last-map c j.pending ∙ ap (Option.map _) e in
      let kept = subst (All (Stored c s)) split h.pending_data in
      let (payload, found, d) = (All-right (Stored c s) rest (t ∷ []) kept).0 in
      rw (run-dequeue_task c now timeout t rest payload s texts found d) (
        refl,
        record {
          pending_ids = refl;
          processing_ids = ap (λ ids. c.show_uuid t.task_id ∷ ids) h.processing_ids;
          dead_ids = h.dead_ids;
          pending_data = All-left (Stored c s) rest (t ∷ []) kept;
          processing_data = ((payload, found, d), h.processing_data);
          distinct =
              subst DistinctIds
                (ap (λ ts. ts ++ j.processing) split ∙ append_assoc rest (t ∷ []) j.processing)
                h.distinct;
        },
      )

  pub dequeue_task_empty-exec :
      (now timeout : ℕ) (s : Store) (j : Jobs)
      → Represents c s j
      → pop_last j.pending ≡ none
      → run exec (dequeue_task c now timeout) s ≡ (ok none, s)
  dequeue_task_empty-exec now timeout s j h e =
      run-dequeue_task_empty c now timeout s
        (ap pop_last h.pending_ids ∙ pop_last-map c j.pending ∙ ap (Option.map _) e)

  pub ack_task-exec :
      (now : ℕ) (u : Uuid) (s : Store) (j : Jobs)
      → Represents c s j
      → let r = run exec (ack_task c now u) s in (r.0 ≡ ok tt) × Represents c r.1 (finish u j)
  ack_task-exec now u s j h = rw (run-ack_task c now u s) (
    refl,
    record {
      pending_ids = h.pending_ids;
      processing_ids =
          ap (erase_first (c.show_uuid u)) h.processing_ids ∙ erase_first-map c u j.processing;
      dead_ids = h.dead_ids;
      pending_data = h.pending_data;
      processing_data = All-remove_id (Stored c s) u j.processing h.processing_data;
      distinct = remove_id-distinct u j.pending j.processing h.distinct;
    },
  )

  nack_task_retry-exec :
      (now : ℕ) (t : TaskPayload) (error : String) (s : Store) (j : Jobs)
      → Represents c s j
      → HasId t.task_id j.processing
      → ltb t.retry_count t.max_retries ≡ true
      → let r = run exec (nack_task c now t error) s in
        (r.0 ≡ ok retry)
        × Represents c r.1 (record j {
          pending = retried t ∷ j.pending;
          processing = remove_id t.task_id j.processing;
        })
  nack_task_retry-exec now t error s j h held more =
      let (payload, e, d) = c.decode-encode (retried t) in
      let left = remove_id t.task_id j.processing in
      let P = HasOtherId t.task_id in
      let others = remove_id-fresh t.task_id j.pending j.processing h.distinct held in
      rw (run-nack_task_retry c now t error payload s more e) (
        refl,
        record {
          pending_ids = ap (λ ids. c.show_uuid t.task_id ∷ ids) h.pending_ids;
          processing_ids =
              ap (erase_first (c.show_uuid t.task_id)) h.processing_ids
              ∙ erase_first-map c t.task_id j.processing;
          dead_ids = h.dead_ids;
          pending_data = (
            (payload, rw eq_refl refl, d),
            All-Stored-put t.task_id payload s j.pending (All-left P j.pending left others)
                h.pending_data,
          );
          processing_data =
              All-Stored-put t.task_id payload s left (All-right P j.pending left others)
                (All-remove_id (Stored c s) t.task_id j.processing h.processing_data);
          distinct = (others, remove_id-distinct t.task_id j.pending j.processing h.distinct);
        },
      )

  nack_task_dead-exec :
      (now : ℕ) (t : TaskPayload) (error : String) (s : Store) (j : Jobs)
      → Represents c s j
      → ltb t.retry_count t.max_retries ≡ false
      → let r = run exec (nack_task c now t error) s in
        (r.0 ≡ ok dead_letter)
        × Represents c r.1
            (record j { dead = t ∷ j.dead; processing = remove_id t.task_id j.processing })
  nack_task_dead-exec now t error s j h over = rw (run-nack_task_dead c now t error s over) (
    refl,
    record {
      pending_ids = h.pending_ids;
      processing_ids =
          ap (erase_first (c.show_uuid t.task_id)) h.processing_ids
          ∙ erase_first-map c t.task_id j.processing;
      dead_ids = ap (λ ids. c.show_uuid t.task_id ∷ ids) h.dead_ids;
      pending_data = h.pending_data;
      processing_data = All-remove_id (Stored c s) t.task_id j.processing h.processing_data;
      distinct = remove_id-distinct t.task_id j.pending j.processing h.distinct;
    },
  )

  pub nack_task-exec :
      (now : ℕ) (t : TaskPayload) (error : String) (s : Store) (j : Jobs)
      → Represents c s j
      → HasId t.task_id j.processing
      → let r = run exec (nack_task c now t error) s in
        (r.0 ≡ ok (verdict t)) × Represents c r.1 (fail t j)
  nack_task-exec now t error s j h held = elim (Bool-cases (ltb t.retry_count t.max_retries)) [
    | inl more ↦ rw more (nack_task_retry-exec now t error s j h held more)
    | inr over ↦ rw over (nack_task_dead-exec now t error s j h over)
  ]
