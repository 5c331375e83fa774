-- ===== src/TaskQueue/Runs.antt =====
-- What each operation of the queue does to the keys in Redis when no command fails.
use pichost.Common.{ℕ, String, ◌≡◌, refl, List, ◌∷◌, map, some, none, ok, ltb, arith, true, false}
use pichost.Prog.{run}
use pichost.Redis.{Store, exec, put_field, put_list, erase_first, pop_last}
use pichost.TaskQueue.{
  Uuid, TaskPayload, Codec, key_pending, key_processing, key_dead, task_key, retried, enqueue_task,
  dequeue_task, ack_task, nack_task, retry, dead_letter,
}
use pichost.TaskQueue.Jobs.{id_text}

module _ (c : Codec) where
  abbrev pub enqueued : ℕ → TaskPayload → String → Store → Store
  enqueued now t payload s =
      let key = task_key c t.task_id in
      let s1 = put_field key "data" payload s in
      let s2 = put_field key "status" "pending" s1 in
      let s3 = put_field key "created_at" (c.show_time now) s2 in
      let s4 = put_field key "updated_at" (c.show_time now) s3 in
      put_list key_pending (c.show_uuid t.task_id ∷ s4.list key_pending) s4

  pub run-enqueue_task :
      (now : ℕ) (t : TaskPayload) (payload : String) (s : Store)
      → c.encode t ≡ ok payload
      → run exec (enqueue_task c now t) s ≡ (ok tt, enqueued now t payload s)
  unfolding enqueue_task run exec
  run-enqueue_task now t payload s e = ground arith

  abbrev pub taken : ℕ → TaskPayload → List TaskPayload → Store → Store
  taken now t rest s =
      let key = task_key c t.task_id in
      let s1 = put_list key_pending (map (id_text c) rest) s in
      let s2 = put_list key_processing (c.show_uuid t.task_id ∷ s1.list key_processing) s1 in
      put_field key "updated_at" (c.show_time now) (put_field key "status" "processing" s2)

  pub run-dequeue_task :
      (now timeout : ℕ) (t : TaskPayload) (rest : List TaskPayload) (payload : String) (s : Store)
      → pop_last (s.list key_pending) ≡ some (map (id_text c) rest, id_text c t)
      → s.hash (task_key c t.task_id) "data" ≡ some payload
      → c.decode payload ≡ ok t
      → run exec (dequeue_task c now timeout) s ≡ (ok (some t), taken now t rest s)
  unfolding dequeue_task run exec
  run-dequeue_task now timeout t rest payload s e f d = ground (arith, c.parse-show t.task_id)

  pub run-dequeue_task_empty :
      (now timeout : ℕ) (s : Store)
      → pop_last (s.list key_pending) ≡ none
      → run exec (dequeue_task c now timeout) s ≡ (ok none, s)
  unfolding dequeue_task run exec
  run-dequeue_task_empty now timeout s e = ground arith

  abbrev pub acked : ℕ → Uuid → Store → Store
  acked now u s =
      let s1 = put_list key_processing (erase_first (c.show_uuid u) (s.list key_processing)) s in
      put_field (task_key c u) "updated_at" (c.show_time now)
        (put_field (task_key c u) "status" "done" s1)

  pub run-ack_task :
      (now : ℕ) (u : Uuid) (s : Store) → run exec (ack_task c now u) s ≡ (ok tt, acked now u s)
  unfolding ack_task run exec
  run-ack_task now u s = refl

  abbrev pub nacked : ℕ → TaskPayload → String → Store → Store
  nacked now t error s =
      let u = t.task_id in
      let s1 = put_list key_processing (erase_first (c.show_uuid u) (s.list key_processing)) s in
      put_field (task_key c u) "updated_at" (c.show_time now)
        (put_field (task_key c u) "error" error s1)

  abbrev pub requeued : TaskPayload → String → Store → Store
  requeued t payload s =
      let s1 = put_field (task_key c t.task_id) "data" payload s in
      let s2 = put_field (task_key c t.task_id) "status" "pending" s1 in
      put_list key_pending (c.show_uuid t.task_id ∷ s2.list key_pending) s2

  abbrev pub buried : TaskPayload → Store → Store
  buried t s =
      let s1 = put_list key_dead (c.show_uuid t.task_id ∷ s.list key_dead) s in
      put_field (task_key c t.task_id) "status" "dead" s1

  pub run-nack_task_retry :
      (now : ℕ) (t : TaskPayload) (error payload : String) (s : Store)
      → ltb t.retry_count t.max_retries ≡ true
      → c.encode (retried t) ≡ ok payload
      → run exec (nack_task c now t error) s ≡ (ok retry, requeued t payload (nacked now t error s))
  unfolding nack_task run exec
  run-nack_task_retry now t error payload s more e = ground arith

  pub run-nack_task_dead :
      (now : ℕ) (t : TaskPayload) (error : String) (s : Store)
      → ltb t.retry_count t.max_retries ≡ false
      → run exec (nack_task c now t error) s ≡ (ok dead_letter, buried t (nacked now t error s))
  unfolding nack_task run exec
  run-nack_task_dead now t error s over = ground arith
