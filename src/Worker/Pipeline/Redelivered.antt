-- ===== src/Worker/Pipeline/Redelivered.antt =====
-- A task that is delivered twice, with failures of its own each time.
use pichost.Common.{
  ℕ, ◌≡◌, sym, ◌∙◌, ap, String, Result, ok, err, Bool, true, false, arith, inl, inr, Bool-cases,
}
use pichost.Prog.{run, ◌>>=◌}
use pichost.Prog.Laws.{run->>=_inv, run->>=_ok}
use pichost.Storage.{Backend, StorageError}
use pichost.TaskQueue.{Uuid, TaskPayload}
use pichost.Upload.{Bytes}
use pichost.Worker.Pipeline.{
  PipelineError, ImageFormat, Imaging, WorkerConfig, Call, World, Setting, exec, put_object, Step,
}
use pichost.Worker.Pipeline.Variants.{
  resolve_backend, fetch_storage_config, read_source_image, fetch_watermark_config,
  load_watermarked_image, generate_thumbnail, convert_to_webp, process_image_variants,
  update_image_record, process_task, thumb_key_of, webp_key_of, should_thumbnail, should_webp,
}
use pichost.Worker.Pipeline.Steps.{written}
use pichost.Worker.Pipeline.Results.{IsInPlace, outcome, both}
use pichost.Worker.Pipeline.Again.{IsApart, same_again}

-- No call fails.
abbrev pub never : Call → Bool
never c = false

module _ (lib : Imaging) (show_uuid : Uuid → String) (config : WorkerConfig) (setting : Setting)
    (down : Call → Bool) where
  open lib use {Picture}

  -- What goes through although calls may fail goes through alike when none does.
  Sure : {A : Type 0} → Step A → Type 0
  Sure {A} p =
      (w d : World) (a : A)
      → run (exec setting down) p w ≡ (ok a, d)
      → run (exec setting never) p w ≡ (ok a, d)

  Sure-then :
      {A B : Type 0} (p : Step A) (f : A → Step B)
      → Sure p
      → ((a : A) → Sure (f a))
      → Sure (p >>= f)
  unfolding Sure
  Sure-then {A} {B} p f hp hf w d b h =
      let G = run (exec setting never) (p >>= f) w ≡ (ok b, d) in
      run->>=_inv (exec setting down) G p f w d b h
        λ a d1 q h1. run->>=_ok (exec setting never) p f w d1 a (hp w d1 a q) ∙ hf a d1 d b h1

  resolve-Sure : (task : TaskPayload) → Sure (resolve_backend lib show_uuid config task)
  unfolding Sure resolve_backend fetch_storage_config run exec
  resolve-Sure task w d a h = ground (arith, h)

  read-Sure :
      (b : Backend) (task : TaskPayload) → Sure (read_source_image lib show_uuid config b task)
  unfolding Sure read_source_image run exec
  read-Sure b task w d a h = ground (arith, h)

  drawn-Sure :
      (task : TaskPayload) (img : Picture)
      → Sure (load_watermarked_image lib show_uuid config task img)
  unfolding Sure load_watermarked_image fetch_watermark_config run exec
  drawn-Sure task img w d a h = ground (arith, h)

  written-Sure :
      (test : Bool) (enc : Result PipelineError Bytes) (b : Backend) (k mime : String)
      (f : StorageError → PipelineError)
      → Sure (written lib show_uuid config setting down test enc b k mime f)
  unfolding Sure run exec
  written-Sure false enc b k mime f w d a h = h
  written-Sure true (err e) b k mime f w d a h = h
  written-Sure true (ok x) b k mime f w d a h = elim (Bool-cases (down (put_object b k x mime))) [
    | inl e ↦ absurd (ground (arith, h, e))
    | inr e ↦ ground (arith, h, e)
  ]

  thumb-Sure :
      (img : Picture) (fmt : ImageFormat) (b : Backend) (k : String)
      → Sure (generate_thumbnail lib show_uuid config img fmt b k)
  unfolding generate_thumbnail
  thumb-Sure img fmt b k = written-Sure (should_thumbnail fmt) _ b k _ _

  webp-Sure :
      (img : Picture) (fmt : ImageFormat) (b : Backend) (k : String)
      → Sure (convert_to_webp lib show_uuid config img fmt b k)
  unfolding convert_to_webp
  webp-Sure img fmt b k =
      written-Sure (should_webp fmt) (ok (lib.encode_webp img config.webp_quality)) b k _ _

  both-Sure :
      (task : TaskPayload) (b : Backend) (img : Picture) (fmt : ImageFormat)
      → Sure (both lib show_uuid config setting down task b img fmt)
  unfolding process_image_variants Sure run
  both-Sure task b img fmt =
      Sure-then
        (generate_thumbnail lib show_uuid config img fmt b (thumb_key_of lib show_uuid config task))
        _ (thumb-Sure img fmt b _)
        λ t.
          Sure-then
            (convert_to_webp lib show_uuid config img fmt b (webp_key_of lib show_uuid config task))
            _ (webp-Sure img fmt b _) (λ x w d a h. h)

  record-Sure :
      (task : TaskPayload) (size : ℕ × ℕ) (wrote : Bool × Bool)
      → Sure (update_image_record lib show_uuid config task size wrote)
  unfolding Sure update_image_record run exec
  record-Sure task size wrote w d a h = ground (arith, h)

  process_task-Sure : (task : TaskPayload) → Sure (process_task lib show_uuid config task)
  unfolding process_task
  process_task-Sure task = Sure-then _ _ (resolve-Sure task) λ b.
      Sure-then _ _ (read-Sure b task) λ source. Sure-then _ _ (drawn-Sure task source.0) λ img.
        Sure-then _ _ (both-Sure task b img source.1)
          λ wrote. record-Sure task (lib.width source.0, lib.height source.0) wrote

  pub outcome-never :
      (task : TaskPayload) (w d : World)
      → outcome lib show_uuid config setting down task w ≡ (ok tt, d)
      → outcome lib show_uuid config setting never task w ≡ (ok tt, d)
  unfolding Sure
  outcome-never task w d h = process_task-Sure task w d tt h

module _ (lib : Imaging) (show_uuid : Uuid → String) (config : WorkerConfig)
    (setting : Setting) where
  -- Whichever calls fail: when a task went through whose backend is not a Git service and whose
  -- source is neither of its variants, then processing it once more goes through if no call fails
  -- then, and whenever it goes through, whichever calls may fail then, it changes nothing.
  pub process_task-again :
      (task : TaskPayload) (w w' : World) (down later : Call → Bool)
      → IsApart lib show_uuid config setting never task
      → IsInPlace lib show_uuid config setting never task w
      → outcome lib show_uuid config setting down task w ≡ (ok tt, w')
      → (outcome lib show_uuid config setting never task w' ≡ (ok tt, w'))
        × ((v : World) → outcome lib show_uuid config setting later task w' ≡ (ok tt, v) → v ≡ w')
  process_task-again task w w' down later apart p_in h =
      let once = outcome-never lib show_uuid config setting down task w w' h in
      let twice = same_again lib show_uuid config setting never task w w' apart p_in once in
      (
        twice,
        λ v k.
            ap (λ r. r.1)
              (sym (outcome-never lib show_uuid config setting later task w' v k) ∙ twice),
      )
