-- ===== src/Worker/Pipeline/Again.antt =====
-- A task that is processed again, as a queue that delivers at least once may ask.
use pichost.Common.{
  ℕ, ◌≡◌, ◌≢◌, refl, sym, ◌∙◌, ap, ap₂, subst, String, List, [], ◌∷◌, Option, none, some, Result,
  ok, Bool, eq_iff, eq_refl, map, arith,
}
use pichost.Storage.{◌⧺◌}
use text.Mathlib.TextLemmas.{append_cancel_left, cons-append}
use Prim.Native.Char.{Char, code}
use Prim.Native.String
use pichost.TaskQueue.{Uuid, TaskPayload}
use pichost.Upload.{Bytes}
use pichost.Worker.Pipeline.{
  PipelineError, Imaging, WorkerConfig, Processed, Call, World, Setting, Object, Row, find_object,
  put_into, mark,
}
use pichost.Worker.Pipeline.Variants.{thumb_key_of, webp_key_of}
use pichost.Worker.Pipeline.Steps.{put_some}
use pichost.Worker.Pipeline.Results.{
  IsInPlace, written_record, apply, source_in, outcome, process_task-plan,
}

abbrev second_code : String → ℕ
second_code String.[] = 0
second_code (String.◌∷◌ c String.[]) = 0
second_code (String.◌∷◌ c (String.◌∷◌ d s)) = code d

second_code-append :
    (c d : Char) (x s : String)
    → second_code (String.◌++◌ (String.◌∷◌ c (String.◌∷◌ d x)) s) ≡ code d
second_code-append c d x s = rw cons-append (rw cons-append refl)

-- Two texts with these parts after the same start differ.
pub middle-ne : (a s t : String) → a ⧺ "/thumb." ⧺ s ≢ a ⧺ "/webp." ⧺ t
middle-ne a s t e =
    let rest = append_cancel_left a ("/thumb." ⧺ s) ("/webp." ⧺ t) e in
    let codes : ◌≡◌ {A = ℕ} 116 119 =
      sym (second_code-append "/" "t" "humb." s)
      ∙ ap second_code rest
      ∙ second_code-append "/" "w" "ebp." t in
    absurd (omega (arith, codes))

module _ (n : ℕ) where
  pub find-put_self :
      (k : String) (v : Bytes) (os : List Object) → find_object n k (put_into n k v os) ≡ some v
  find-put_self k v [] = ground (arith, eq_refl k)
  find-put_self k v (o ∷ os) = ground (arith, eq_refl k, find-put_self k v os)

  pub find-put_other :
      (k j : String) (v : Bytes) (os : List Object)
      → k ≢ j
      → find_object n j (put_into n k v os) ≡ find_object n j os
  find-put_other k j v [] h = ground (arith, h, eq_iff k j)
  find-put_other k j v (o ∷ os) h =
      ground (arith, h, eq_iff k j, eq_iff o.key k, eq_iff o.key j, find-put_other k j v os h)

  -- A write of what is there changes nothing.
  put_same :
      (k : String) (v : Bytes) (os : List Object)
      → find_object n k os ≡ some v
      → put_into n k v os ≡ os
  put_same k v [] h = absurd (ground (arith, h))
  put_same k v (o ∷ os) h = ground (arith, h, eq_iff o.key k, put_same k v os)

  put-twice :
      (k j : String) (a b : Option Bytes) (os : List Object)
      → k ≢ j
      → let once = put_some n j b (put_some n k a os) in put_some n j b (put_some n k a once) ≡ once
  put-twice k j none none os h = refl
  put-twice k j none (some b) os h = put_same j b _ (find-put_self j b os)
  put-twice k j (some a) none os h = put_same k a _ (find-put_self k a os)
  put-twice k j (some a) (some b) os h =
      let o1 = put_into n k a os in
      let o2 = put_into n j b o1 in
      ap (put_into n j b)
        (put_same k a o2 (find-put_other j k b o1 (λ e. h (sym e)) ∙ find-put_self k a os))
      ∙ put_same j b o2 (find-put_self j b o1)

module _ (lib : Imaging) (show_uuid : Uuid → String) (config : WorkerConfig) (setting : Setting)
    (down : Call → Bool) where
  open setting use {place}

  mark-mark :
      (i : Uuid) (p : Processed) (rows : List Row)
      → map (mark i p) (map (mark i p) rows) ≡ map (mark i p) rows
  mark-mark i p [] = refl
  mark-mark i p (r ∷ rows) = ground (arith, mark-mark i p rows)

  -- Neither variant is written over the source.
  abbrev pub IsApart : TaskPayload → Type 0
  IsApart task =
      (thumb_key_of lib show_uuid config task ≢ task.source_key)
      × (webp_key_of lib show_uuid config task ≢ task.source_key)

  find-put_some :
      (n : ℕ) (k j : String) (o : Option Bytes) (os : List Object)
      → k ≢ j
      → find_object n j (put_some n k o os) ≡ find_object n j os
  find-put_some n k j none os h = refl
  find-put_some n k j (some v) os h = find-put_other n k j v os h

  pub same_again :
      (task : TaskPayload) (w w' : World)
      → IsApart task
      → IsInPlace lib show_uuid config setting down task w
      → outcome lib show_uuid config setting down task w ≡ (ok tt, w')
      → outcome lib show_uuid config setting down task w' ≡ (ok tt, w')
  same_again task w w' (t, b) p_in h =
      let (pl, e, is, again) =
        process_task-plan lib show_uuid config setting down task w w' p_in h in
      let tk = thumb_key_of lib show_uuid config task in
      let wk = webp_key_of lib show_uuid config task in
      let n = place pl.backend in
      let once = put_some n wk pl.web (put_some n tk pl.thumb w.objects) in
      let applied = apply lib show_uuid config setting task pl w in
      let source : source_in lib show_uuid config setting task pl.backend applied
          ≡ source_in lib show_uuid config setting task pl.backend w =
        find-put_some n wk task.source_key pl.web (put_some n tk pl.thumb w.objects) b
        ∙ find-put_some n tk task.source_key pl.thumb w.objects t in
      let p = written_record lib show_uuid config setting task pl in
      let twice : apply lib show_uuid config setting task pl applied ≡ applied =
        ap₂
          (λ (rs : List Row) (os : List Object).
            let v : World = record { rows = rs; objects = os } in v)
          (mark-mark task.image_id p w.rows)
          (put-twice n tk wk pl.thumb pl.web w.objects (
            middle-ne (show_uuid task.user_id) (show_uuid task.image_id)
              (show_uuid task.image_id))) in
      subst (λ v. outcome lib show_uuid config setting down task v ≡ (ok tt, v)) (sym e)
        (again applied source
          ∙ ap (λ v. let r : Result PipelineError (Unit {0}) × World = (ok tt, v) in r) twice)
