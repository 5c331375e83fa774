-- ===== src/Worker/Pipeline/Steps.antt =====
-- The steps of a task: what reads changes nothing, what writes does the same in every world.
use pichost.Common.{
  ℕ, ◌≡◌, refl, String, List, Option, none, some, Result, ok, err, Bool, true, false, if◌then◌else◌,
  map_err, arith, inl, inr, Bool-cases,
}
use pichost.Prog.{ret, pure, run, ◌>>=◌, send}
use pichost.Storage.{StorageError, Backend}
use pichost.TaskQueue.{Uuid, TaskPayload}
use pichost.Upload.{Bytes}
use pichost.Worker.Pipeline.{
  PipelineError, ImageFormat, Imaging, WorkerConfig, Call, World, Setting, Object, exec, put_object,
  find_object, put_into, Step, in_place,
}
use pichost.Worker.Pipeline.Variants.{
  should_thumbnail, should_webp, resolve_backend, fetch_storage_config, backend_of,
  read_source_image, fetch_watermark_config, load_watermarked_image, generate_thumbnail,
  convert_to_webp,
}

abbrev pub put_some : ℕ → String → Option Bytes → List Object → List Object
put_some n k none os = os
put_some n k (some v) os = put_into n k v os

abbrev pub present : Option Bytes → Bool
present none = false
present (some v) = true

abbrev pub with_object : ℕ → String → Option Bytes → World → World
with_object n k o w = record w { objects = put_some n k o w.objects }

module _ (lib : Imaging) (show_uuid : Uuid → String) (config : WorkerConfig) (setting : Setting)
    (down : Call → Bool) where
  open lib use {Picture, guess_format}
  open setting use {place}

  abbrev pub go : {A : Type 0} → Step A → World → Result PipelineError A × World
  go p w = run (exec setting down) p w

  backend-pure :
      (task : TaskPayload) (c : Option Uuid) (v w : World)
      → go (backend_of lib show_uuid config task c) v
        ≡ ((go (backend_of lib show_uuid config task c) w).0, v)
  unfolding fetch_storage_config run exec
  backend-pure task none v w = ground arith
  backend-pure task (some i) v w = ground arith

  -- What reads only is answered alike in every world, and changes none.
  pub resolve-pure :
      (task : TaskPayload) (v w : World)
      → go (resolve_backend lib show_uuid config task) v
        ≡ ((go (resolve_backend lib show_uuid config task) w).0, v)
  unfolding resolve_backend
  resolve-pure task v w = backend-pure task task.storage_config_id v w

  pub read-pure :
      (b : Backend) (task : TaskPayload) (v w : World)
      → find_object (place b) task.source_key v.objects
        ≡ find_object (place b) task.source_key w.objects
      → go (read_source_image lib show_uuid config b task) v
        ≡ ((go (read_source_image lib show_uuid config b task) w).0, v)
  unfolding read_source_image run exec
  read-pure b task v w same = ground (arith, same)

  pub drawn-pure :
      (task : TaskPayload) (img : Picture) (v w : World)
      → go (load_watermarked_image lib show_uuid config task img) v
        ≡ ((go (load_watermarked_image lib show_uuid config task img) w).0, v)
  unfolding load_watermarked_image fetch_watermark_config run exec
  drawn-pure task img v w = ground arith

  -- Both variants are made like this: if the format gets one, it is encoded and written.
  abbrev pub written :
      Bool
      → Result PipelineError Bytes
      → Backend
      → String
      → String
      → (StorageError → PipelineError)
      → Step Bool
  written test enc b k mime f =
      if test
      then (ret enc >>= λ buf.
          send (put_object b k buf mime) (λ r. ret (map_err f r)) >>= λ _. pure true)
      else pure false

  -- A success wrote these bytes, or none, and it would do so in every world.
  abbrev pub Writes : Bool → Backend → String → Step Bool → World → World → Bool → Type 0
  Writes test b k p w d flag =
      (o : Option Bytes) × (flag ≡ test)
      × (present o ≡ test)
      × (d ≡ with_object (place b) k o w)
      × ((v : World) → go p v ≡ (ok flag, with_object (place b) k o v))

  written-Writes :
      (test : Bool) (enc : Result PipelineError Bytes) (b : Backend) (k mime : String)
      (f : StorageError → PipelineError) (w d : World) (flag : Bool)
      → in_place b ≡ true
      → go (written test enc b k mime f) w ≡ (ok flag, d)
      → Writes test b k (written test enc b k mime f) w d flag
  unfolding run exec
  written-Writes false enc b k mime f w d flag p h =
      (none, ground (arith, h), refl, ground (arith, h), λ v. ground (arith, h))
  written-Writes true (err e) b k mime f w d flag p h = absurd (ground (arith, h))
  written-Writes true (ok x) b k mime f w d flag p h =
      elim (Bool-cases (down (put_object b k x mime))) [
        | inl e ↦ absurd (ground (arith, h, e))
        | inr e ↦ (
          some x,
          ground (arith, h, e, p),
          refl,
          ground (arith, h, e, p),
          λ v. ground (arith, h, e, p),
        )
      ]

  pub thumb-Writes :
      (img : Picture) (fmt : ImageFormat) (b : Backend) (k : String) (w d : World) (flag : Bool)
      → in_place b ≡ true
      → go (generate_thumbnail lib show_uuid config img fmt b k) w ≡ (ok flag, d)
      → Writes
          (should_thumbnail fmt)
          b
          k
          (generate_thumbnail lib show_uuid config img fmt b k)
          w
          d
          flag
  unfolding generate_thumbnail
  thumb-Writes img fmt b k w d flag p = written-Writes (should_thumbnail fmt) _ b k _ _ w d flag p

  pub webp-Writes :
      (img : Picture) (fmt : ImageFormat) (b : Backend) (k : String) (w d : World) (flag : Bool)
      → in_place b ≡ true
      → go (convert_to_webp lib show_uuid config img fmt b k) w ≡ (ok flag, d)
      → Writes (should_webp fmt) b k (convert_to_webp lib show_uuid config img fmt b k) w d flag
  unfolding convert_to_webp
  webp-Writes img fmt b k w d flag p =
      written-Writes (should_webp fmt) (ok (lib.encode_webp img config.webp_quality)) b k _ _ w d
        flag p

  written-rows :
      (test : Bool) (enc : Result PipelineError Bytes) (b : Backend) (k mime : String)
      (f : StorageError → PipelineError) (w : World)
      → (go (written test enc b k mime f) w).1.rows ≡ w.rows
  unfolding run exec
  written-rows false enc b k mime f w = refl
  written-rows true (err e) b k mime f w = refl
  written-rows true (ok x) b k mime f w = ground arith

  pub thumb-rows :
      (img : Picture) (fmt : ImageFormat) (b : Backend) (k : String) (w : World)
      → (go (generate_thumbnail lib show_uuid config img fmt b k) w).1.rows ≡ w.rows
  unfolding generate_thumbnail
  thumb-rows img fmt b k = written-rows (should_thumbnail fmt) _ b k _ _

  pub webp-rows :
      (img : Picture) (fmt : ImageFormat) (b : Backend) (k : String) (w : World)
      → (go (convert_to_webp lib show_uuid config img fmt b k) w).1.rows ≡ w.rows
  unfolding convert_to_webp
  webp-rows img fmt b k =
      written-rows (should_webp fmt) (ok (lib.encode_webp img config.webp_quality)) b k _ _
