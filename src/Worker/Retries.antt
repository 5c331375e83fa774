-- ===== src/Worker/Retries.antt =====
-- How often a worker tries a task.
use pichost.Common.{
  ℕ, zero, suc, ◌+◌, ◌<◌, ◌≤◌, ◌≡◌, refl, ◌∙◌, sym, String, List, [], ◌∷◌, some, arith, subst,
}
use pichost.Prog.{run}
use pichost.Prog.Laws.{run-bind, run-view}
use pichost.Redis.{pop_last}
use pichost.TaskQueue.{TaskPayload, Uuid, Codec, retried}
use pichost.TaskQueue.Jobs.{Jobs, Represents, claim, fail, remove_id}
use pichost.Worker.{Processed, failed, round, worker_loop}
use pichost.Worker.Rounds.{Desk, exec, Services, AreUp, settle, marks, Shows, round-exec}

-- The task with every retry used up.
abbrev pub exhausted : TaskPayload → TaskPayload
exhausted t = record t { retry_count = t.max_retries }

-- The task after so many failed tries.
abbrev pub tried : ℕ → TaskPayload → TaskPayload
tried m t = record t { retry_count = t.retry_count + m }

abbrev pub only : TaskPayload → List TaskPayload → Jobs
only t dead = record { pending = t ∷ []; processing = []; dead = dead }

module _ (c : Codec) (S : Services) (up : AreUp S) where
  -- On services that are up, if a task waits, a round takes the task that waited longest. If it
  -- is completed, it is gone; if it failed or ran out of time, it waits again with one more
  -- retry, or is dead if none is left. Its image is marked as failed exactly if it died of an
  -- error: a task that dies of a timeout leaves its image as it is.
  pub round-Represents :
      (taken settled timeout : ℕ) (result : TaskPayload → Processed) (d : S.Db) (j : Jobs)
      (rest : List TaskPayload) (t : TaskPayload)
      → Represents c (S.view d).store j
      → pop_last j.pending ≡ some (rest, t)
      → let after = S.view (run S.handle (round c taken settled timeout result) d).1 in
        Represents c after.store (settle (result t) t (claim rest t j))
        × (after.marked ≡ marks (result t) t (S.view d).marked)
  round-Represents taken settled timeout result d j rest t h e =
      let (_, same) = run-view S.handle exec S.view up (round c taken settled timeout result) d in
      subst
        (λ s.
          Shows c s (settle (result t) t (claim rest t j)) (marks (result t) t (S.view d).marked))
        (sym same)
        (round-exec c taken settled timeout result (S.view d) j (S.view d).marked rest t (h, refl)
          e)

last_of : (t : TaskPayload) → pop_last (t ∷ []) ≡ some ([], t)
unfolding pop_last
last_of t = refl

fail-left :
    (t : TaskPayload) (dead : List TaskPayload)
    → t.retry_count < t.max_retries
    → fail t (claim [] t (only t dead)) ≡ only (retried t) dead
unfolding remove_id
fail-left t dead h = ground arith

abbrev pub dead_with : List TaskPayload → Jobs
dead_with ts = record { pending = []; processing = []; dead = ts }

fail-over :
    (t : TaskPayload) (dead : List TaskPayload)
    → t.retry_count ≡ t.max_retries
    → fail t (claim [] t (only t dead)) ≡ dead_with (exhausted t ∷ dead)
unfolding remove_id
fail-over t dead h = ground arith

marks-left :
    (e : String) (t : TaskPayload) (is : List Uuid)
    → t.retry_count < t.max_retries
    → marks (failed e) t is ≡ is
marks-left e t is h = ground arith

marks-over :
    (e : String) (t : TaskPayload) (is : List Uuid)
    → t.retry_count ≡ t.max_retries
    → marks (failed e) t is ≡ t.image_id ∷ is
marks-over e t is h = ground arith

module _ (c : Codec) (times : ℕ → ℕ × ℕ) (timeout : ℕ) (e : String) where
  one_failure :
      (taken settled : ℕ) (t : TaskPayload) (d : Desk) (dead : List TaskPayload) (is : List Uuid)
      → Shows c d (only t dead) is
      → t.retry_count < t.max_retries
      → Shows c
          (run exec (round c taken settled timeout (λ _. failed e)) d).1
          (only (retried t) dead)
          is
  one_failure taken settled t d dead is h left =
      let (state, marked) =
        round-exec c taken settled timeout (λ _. failed e) d (only t dead) is [] t h (last_of t) in
      (subst (Represents c _) (fail-left t dead left) state, marked ∙ marks-left e t is left)

  last_failure :
      (taken settled : ℕ) (t : TaskPayload) (d : Desk) (dead : List TaskPayload) (is : List Uuid)
      → Shows c d (only t dead) is
      → t.retry_count ≡ t.max_retries
      → Shows c
          (run exec (round c taken settled timeout (λ _. failed e)) d).1
          (dead_with (exhausted t ∷ dead))
          (t.image_id ∷ is)
  last_failure taken settled t d dead is h over =
      let (state, marked) =
        round-exec c taken settled timeout (λ _. failed e) d (only t dead) is [] t h (last_of t) in
      (subst (Represents c _) (fail-over t dead over) state, marked ∙ marks-over e t is over)

  tries :
      (n : ℕ) (t : TaskPayload) (d : Desk) (dead : List TaskPayload) (is : List Uuid)
      → Shows c d (only t dead) is
      → t.retry_count + n ≡ t.max_retries
      → Shows c
          (run exec (worker_loop c (suc n) times timeout (λ _. failed e)) d).1
          (dead_with (exhausted t ∷ dead))
          (t.image_id ∷ is)
  unfolding worker_loop run
  tries zero t d dead is h k =
      rw (run-bind exec (round c (times 0).0 (times 0).1 timeout (λ _. failed e)) _ d)
        (last_failure (times 0).0 (times 0).1 t d dead is h (omega arith))
  tries (suc n) t d dead is h k =
      rw (run-bind exec (round c (times (suc n)).0 (times (suc n)).1 timeout (λ _. failed e)) _ d) (
        tries n (retried t) _ dead is
          (one_failure (times (suc n)).0 (times (suc n)).1 t d dead is h (omega arith))
          (omega arith))

  -- While retries are left, the task waits again after each round.
  goes_on :
      (m : ℕ) (t : TaskPayload) (d : Desk) (dead : List TaskPayload) (is : List Uuid)
      → Shows c d (only t dead) is
      → t.retry_count + m ≤ t.max_retries
      → Shows c
          (run exec (worker_loop c m times timeout (λ _. failed e)) d).1
          (only (tried m t) dead)
          is
  unfolding worker_loop run
  goes_on zero t d dead is h k =
      let same : t.retry_count + 0 ≡ t.retry_count = omega arith in
      subst (λ (n : ℕ). Shows c d (only (record t { retry_count = n }) dead) is) (sym same) h
  goes_on (suc m) t d dead is h k =
      let moved : t.retry_count + 1 + m ≡ t.retry_count + suc m = omega arith in
      rw (run-bind exec (round c (times m).0 (times m).1 timeout (λ _. failed e)) _ d) (
        subst
          (λ (n : ℕ).
            Shows c
              (run exec (worker_loop c m times timeout (λ _. failed e))
                (run exec (round c (times m).0 (times m).1 timeout (λ _. failed e)) d).1).1
              (only (record t { retry_count = n }) dead) is)
          moved
          (goes_on m (retried t) _ dead is
            (one_failure (times m).0 (times m).1 t d dead is h (omega arith)) (omega arith)))

module _ (c : Codec) (S : Services) (up : AreUp S) where
  -- On services that are up, a task that fails with an error each time, alone in the queue, is
  -- tried once and then once for each retry that it has left: after each of these tries but the
  -- last it waits again, with that many retries counted, its image is not marked and no task has
  -- died; after the last one it is dead, nothing waits or is being processed, and its image is
  -- marked as failed once.
  pub worker_loop-exhausts :
      (times : ℕ → ℕ × ℕ) (timeout n : ℕ) (e : String) (d : S.Db) (t : TaskPayload)
      (dead : List TaskPayload)
      → Represents c (S.view d).store (only t dead)
      → t.retry_count + n ≡ t.max_retries
      → let after : ℕ → Desk =
          λ m. S.view (run S.handle (worker_loop c m times timeout (λ _. failed e)) d).1 in
        ((m : ℕ)
          → m ≤ n
          → Represents c (after m).store (only (tried m t) dead)
            × ((after m).marked ≡ (S.view d).marked))
        × Shows c (after (suc n)) (dead_with (exhausted t ∷ dead)) (t.image_id ∷ (S.view d).marked)
  worker_loop-exhausts times timeout n e d t dead h k =
      let p = λ (m : ℕ). worker_loop c m times timeout (λ _. failed e) in
      (
        λ m small.
            let (_, same) = run-view S.handle exec S.view up (p m) d in
            subst (λ s. Shows c s (only (tried m t) dead) (S.view d).marked) (sym same)
              (goes_on c times timeout e m t (S.view d) dead (S.view d).marked (h, refl)
                (omega arith)),
        let (_, same) = run-view S.handle exec S.view up (p (suc n)) d in
            let (dies, marked) =
              tries c times timeout e n t (S.view d) dead (S.view d).marked (h, refl) k in
            subst (λ s. Shows c s (dead_with (exhausted t ∷ dead)) (t.image_id ∷ (S.view d).marked))
              (sym same) (dies, marked),
      )
