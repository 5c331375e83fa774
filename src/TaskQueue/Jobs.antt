-- ===== src/TaskQueue/Jobs.antt =====
-- What the queue promises: three lists of tasks. `Represents` ties them to the keys in Redis.
use pichost.Common.{
  ◌≡◌, ◌⊎◌, ◌++◌, String, List, [], ◌∷◌, map, some, ok, All, ◌≢◌, ◌==◌, if◌then◌else◌, ltb,
}
use pichost.Redis.{Store}
use pichost.TaskQueue.{
  Uuid, TaskPayload, Codec, key_pending, key_processing, key_dead, task_key, retried, NackAction,
  retry, dead_letter,
}

-- The newest task first.
pub record Jobs : Type 0 where
  pub pending : List TaskPayload
  pub processing : List TaskPayload
  pub dead : List TaskPayload

abbrev pub id_text : Codec → TaskPayload → String
id_text c t = c.show_uuid t.task_id

-- The task's hash holds a text of its payload.
abbrev pub Stored : Codec → Store → TaskPayload → Type 0
Stored c s t =
    (payload : String) × (s.hash (task_key c t.task_id) "data" ≡ some payload)
    × (c.decode payload ≡ ok t)

abbrev pub HasOtherId : Uuid → TaskPayload → Type 0
HasOtherId u t = t.task_id ≢ u

abbrev pub DistinctIds : List TaskPayload → Type 0
DistinctIds [] = Unit
DistinctIds (t ∷ ts) = All (HasOtherId t.task_id) ts × DistinctIds ts

abbrev pub HasId : Uuid → List TaskPayload → Type 0
HasId u [] = ⊥
HasId u (t ∷ ts) = (t.task_id ≡ u) ⊎ HasId u ts

pub record Represents (c : Codec) (s : Store) (j : Jobs) : Type 0 where
  pub pending_ids : s.list key_pending ≡ map (id_text c) j.pending
  pub processing_ids : s.list key_processing ≡ map (id_text c) j.processing
  pub dead_ids : s.list key_dead ≡ map (id_text c) j.dead
  pub pending_data : All (Stored c s) j.pending
  pub processing_data : All (Stored c s) j.processing
  pub distinct : DistinctIds (j.pending ++ j.processing)

-- No task that waits or is being processed has the id.
abbrev pub IsFresh : Uuid → Jobs → Type 0
IsFresh u j = All (HasOtherId u) (j.pending ++ j.processing)

abbrev pub add : TaskPayload → Jobs → Jobs
add t j = record j { pending = t ∷ j.pending }

-- The task that waited longest goes to the processing list.
abbrev pub claim : List TaskPayload → TaskPayload → Jobs → Jobs
claim rest t j = record j { pending = rest; processing = t ∷ j.processing }

unfoldable pub remove_id : Uuid → List TaskPayload → List TaskPayload
remove_id u [] = []
remove_id u (t ∷ ts) = if t.task_id == u then ts else t ∷ remove_id u ts

abbrev pub finish : Uuid → Jobs → Jobs
finish u j = record j { processing = remove_id u j.processing }

-- A failed task waits again with one more retry, or is dead.
abbrev pub fail : TaskPayload → Jobs → Jobs
fail t j =
    if ltb t.retry_count t.max_retries
    then record j { pending = retried t ∷ j.pending; processing = remove_id t.task_id j.processing }
    else record j { dead = t ∷ j.dead; processing = remove_id t.task_id j.processing }

-- `retry` while retries are left, `dead_letter` after.
abbrev pub verdict : TaskPayload → NackAction
verdict t = if ltb t.retry_count t.max_retries then retry else dead_letter
