-- ===== src/Worker/Pipeline/Ready.antt =====
-- What the row of an image says after its task went through.
use pichost.Common.{◌≡◌, sym, ◌∙◌, ap, subst, String, Option, none, some, ok, Bool, map}
use pichost.Storage.{Backend}
use pichost.TaskQueue.{Uuid, TaskPayload}
use pichost.Upload.{Bytes}
use pichost.Worker.Pipeline.{
  ImageFormat, Imaging, WorkerConfig, Processed, Call, World, Setting, find_object, put_into, mark,
}
use pichost.Worker.Pipeline.Variants.{
  should_thumbnail, should_webp, some_if, resolve_backend, thumb_key_of, webp_key_of,
}
use pichost.Worker.Pipeline.Steps.{go, present, put_some}
use pichost.Worker.Pipeline.Results.{
  IsInPlace, written_record, apply, source_in, outcome, process_task-plan,
}
use pichost.Worker.Pipeline.Again.{find-put_self, find-put_other, middle-ne}

module _ (lib : Imaging) (show_uuid : Uuid → String) (config : WorkerConfig)
    (setting : Setting) where
  open lib use {Picture, guess_format}
  open setting use {place}

  abbrev IsStored : Backend → Option String → World → Type 0
  IsStored b none w = Unit {0}
  IsStored b (some k) w = (v : Bytes) × (find_object (place b) k w.objects ≡ some v)

  module _ (down : Call → Bool) where
    -- The row is ready, and it names a thumbnail and a WebP form exactly if the source's format gets
    -- one. What it names is stored in the task's backend.
    pub record IsReady (task : TaskPayload) (w w' : World) : Type 0 where
      pub backend : Backend
      pub bytes : Bytes
      pub fmt : ImageFormat
      pub entry : Processed
      pub resolves :
          (go lib show_uuid config setting down (resolve_backend lib show_uuid config task) w).0
          ≡ ok backend
      pub is_source : source_in lib show_uuid config setting task backend w ≡ some bytes
      pub has_format : guess_format bytes ≡ ok fmt
      pub rows : w'.rows ≡ map (mark task.image_id entry) w.rows
      pub names_thumb :
          entry.thumbnail_key
          ≡ some_if (should_thumbnail fmt) (thumb_key_of lib show_uuid config task)
      pub names_webp :
          entry.webp_key ≡ some_if (should_webp fmt) (webp_key_of lib show_uuid config task)
      pub has_thumb : IsStored backend entry.thumbnail_key w'
      pub has_webp : IsStored backend entry.webp_key w'

    thumb-IsStored :
        (task : TaskPayload) (b : Backend) (o1 o2 : Option Bytes) (w : World)
        → let os =
            put_some
              (place b)
              (webp_key_of lib show_uuid config task)
              o2
              (put_some (place b) (thumb_key_of lib show_uuid config task) o1 w.objects) in
          IsStored b
            (some_if (present o1) (thumb_key_of lib show_uuid config task))
            (record w { objects = os })
    unfolding some_if
    thumb-IsStored task b none o2 w = tt
    thumb-IsStored task b (some v) none w =
        (v, find-put_self (place b) (thumb_key_of lib show_uuid config task) v w.objects)
    thumb-IsStored task b (some v) (some x) w =
        let tk = thumb_key_of lib show_uuid config task in
        let wk = webp_key_of lib show_uuid config task in
        (
          v,
          find-put_other (place b) wk tk x (put_into (place b) tk v w.objects) (λ e.
                middle-ne (show_uuid task.user_id) (show_uuid task.image_id)
                  (show_uuid task.image_id) (sym e))
              ∙ find-put_self (place b) tk v w.objects,
        )

    webp-IsStored :
        (task : TaskPayload) (b : Backend) (o1 o2 : Option Bytes) (w : World)
        → let os =
            put_some
              (place b)
              (webp_key_of lib show_uuid config task)
              o2
              (put_some (place b) (thumb_key_of lib show_uuid config task) o1 w.objects) in
          IsStored b
            (some_if (present o2) (webp_key_of lib show_uuid config task))
            (record w { objects = os })
    unfolding some_if
    webp-IsStored task b o1 none w = tt
    webp-IsStored task b o1 (some x) w = (
      x,
      find-put_self (place b) (webp_key_of lib show_uuid config task) x
          (put_some (place b) (thumb_key_of lib show_uuid config task) o1 w.objects),
    )

    -- Whichever calls fail: when a task whose backend is not a Git service goes through, the row of
    -- its image is ready and names exactly
    -- the variants that the format of the source in the task's backend gets, each under the key of
    -- the task, and each is stored in that backend.
    pub process_task-IsReady :
        (task : TaskPayload) (w w' : World)
        → IsInPlace lib show_uuid config setting down task w
        → outcome lib show_uuid config setting down task w ≡ (ok tt, w')
        → IsReady task w w'
    process_task-IsReady task w w' p_in h =
        let (pl, e, (bytes, fmt, resolves, is_source, has_format, t, b), again) =
          process_task-plan lib show_uuid config setting down task w w' p_in h in
        let tk = thumb_key_of lib show_uuid config task in
        let wk = webp_key_of lib show_uuid config task in
        let p = written_record lib show_uuid config setting task pl in
        let v = apply lib show_uuid config setting task pl w in
        record {
          backend = pl.backend;
          bytes = bytes;
          fmt = fmt;
          entry = p;
          resolves = resolves;
          is_source = is_source;
          has_format = has_format;
          rows = ap (λ u. u.rows) e;
          names_thumb = ap (λ x. some_if x tk) t;
          names_webp = ap (λ x. some_if x wk) b;
          has_thumb =
              subst (IsStored pl.backend p.thumbnail_key) (sym e)
                (thumb-IsStored task pl.backend pl.thumb pl.web (record w { rows = v.rows }));
          has_webp =
              subst (IsStored pl.backend p.webp_key) (sym e)
                (webp-IsStored task pl.backend pl.thumb pl.web (record w { rows = v.rows }));
        }
