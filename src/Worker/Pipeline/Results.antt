-- ===== src/Worker/Pipeline/Results.antt =====
-- What a task that was processed leaves behind.
use pichost.Common.{
  ℕ, ◌≡◌, refl, sym, ◌∙◌, ap, ap₂, subst, String, Option, some, Result, ok, Bool, map, arith, inl,
  inr, Bool-cases, true, Option-cases,
}
use pichost.Prog.{run}
use pichost.Prog.Laws.{run->>=_ok, run->>=_inv}
use pichost.Storage.{Backend}
use pichost.TaskQueue.{Uuid, TaskPayload}
use pichost.Upload.{Bytes}
use pichost.Worker.Pipeline.{
  in_place, PipelineError, ImageFormat, Imaging, WorkerConfig, Processed, Call, World, Setting,
  exec, update_image, find_object, mark, Step,
}
use pichost.Worker.Pipeline.Variants.{
  should_thumbnail, should_webp, resolve_backend, read_source_image, load_watermarked_image,
  generate_thumbnail, convert_to_webp, process_image_variants, update_image_record, process_task,
  thumb_key_of, webp_key_of, record_of,
}
use pichost.Worker.Pipeline.Steps.{
  go, present, put_some, with_object, resolve-pure, read-pure, drawn-pure, thumb-Writes,
  webp-Writes,
}

-- What a task comes to: the backend, the size and the bytes of the variants.
pub record Plan : Type 0 where
  pub backend : Backend
  pub size : ℕ × ℕ
  pub thumb : Option Bytes
  pub web : Option Bytes

module _ (lib : Imaging) (show_uuid : Uuid → String) (config : WorkerConfig)
    (setting : Setting) where
  open lib use {Picture, guess_format, width, height}
  open setting use {place}

  abbrev pub written_record : TaskPayload → Plan → Processed
  written_record task pl =
      record_of lib show_uuid config task pl.size (present pl.thumb, present pl.web)

  abbrev pub apply : TaskPayload → Plan → World → World
  apply task pl w = record {
    rows = map (mark task.image_id (written_record task pl)) w.rows;
    objects =
        put_some (place pl.backend) (webp_key_of lib show_uuid config task) pl.web
          (put_some (place pl.backend) (thumb_key_of lib show_uuid config task) pl.thumb w.objects);
  }

  abbrev pub source_in : TaskPayload → Backend → World → Option Bytes
  source_in task b w = find_object (place b) task.source_key w.objects

  module _ (down : Call → Bool) where
    abbrev pub outcome : TaskPayload → World → Result PipelineError (Unit {0}) × World
    outcome task w = run (exec setting down) (process_task lib show_uuid config task) w

    -- The task's backend, if it has one, is not a Git service.
    abbrev pub IsInPlace : TaskPayload → World → Type 0
    IsInPlace task w =
        (b : Backend)
        → (go lib show_uuid config setting down (resolve_backend lib show_uuid config task) w).0
          ≡ ok b
        → in_place b ≡ true

    -- The plan is that of the task's backend and source.
    abbrev pub IsPlanOf : TaskPayload → Plan → World → Type 0
    IsPlanOf task pl w =
        (bytes : Bytes) × (fmt : ImageFormat) × ((go lib show_uuid config setting down
            (resolve_backend lib show_uuid config task) w).0
          ≡ ok pl.backend)
        × (source_in task pl.backend w ≡ some bytes)
        × (guess_format bytes ≡ ok fmt)
        × (present pl.thumb ≡ should_thumbnail fmt)
        × (present pl.web ≡ should_webp fmt)

    read-found :
        (b : Backend) (task : TaskPayload) (w d : World) (img : Picture) (fmt : ImageFormat)
        → go lib show_uuid config setting down (read_source_image lib show_uuid config b task) w
          ≡ (ok (img, fmt), d)
        → (bytes : Bytes) × (source_in task b w ≡ some bytes) × (guess_format bytes ≡ ok fmt)
    unfolding read_source_image run exec
    read-found b task w d img fmt h = elim (Option-cases (source_in task b w)) [
      | inl e ↦ absurd (ground (arith, e, h))
      | inr (bytes, e) ↦ (bytes, e, ground (arith, e, h))
    ]

    pub same-world :
        {A : Type 0} (p : Step A) (w d : World) (a x : Result PipelineError A)
        → run (exec setting down) p w ≡ (a, d)
        → run (exec setting down) p w ≡ (x, w)
        → d ≡ w
    same-world p w d a x q e = ap (λ r. r.1) (sym q ∙ e)

    -- What ran in one world runs alike in another.
    alike :
        {A : Type 0} (p : Step A) (w d v : World) (a : Result PipelineError A)
        → run (exec setting down) p w ≡ (a, d)
        → run (exec setting down) p v ≡ ((run (exec setting down) p w).0, v)
        → run (exec setting down) p v ≡ (a, v)
    alike p w d v a q e = e ∙ ap (λ r. (r.0, v)) q

    marked :
        (task : TaskPayload) (size : ℕ × ℕ) (wrote : Bool × Bool) (w d : World)
        → run (exec setting down) (update_image_record lib show_uuid config task size wrote) w
          ≡ (ok tt, d)
        → let rec = record_of lib show_uuid config task size wrote in
          (d ≡ record w { rows = map (mark task.image_id rec) w.rows })
          × ((v : World)
              → run (exec setting down) (update_image_record lib show_uuid config task size wrote) v
                ≡ (ok tt, record v { rows = map (mark task.image_id rec) v.rows }))
    unfolding update_image_record run exec
    marked task size wrote w d h =
        let rec = record_of lib show_uuid config task size wrote in
        elim (Bool-cases (down (update_image task.image_id rec))) [
          | inl e ↦ absurd (ground (arith, h, e))
          | inr e ↦ (ground (arith, h, e), λ v. ground (arith, h, e))
        ]

    -- The variants, and the record that names them.
    abbrev put_both : TaskPayload → Backend → Option Bytes → Option Bytes → World → World
    put_both task b o1 o2 w =
        with_object (place b) (webp_key_of lib show_uuid config task) o2
          (with_object (place b) (thumb_key_of lib show_uuid config task) o1 w)

    abbrev pub both : TaskPayload → Backend → Picture → ImageFormat → Step (Bool × Bool)
    both task b img fmt =
        process_image_variants lib show_uuid config img fmt b
          (thumb_key_of lib show_uuid config task) (webp_key_of lib show_uuid config task)

    abbrev BothDone :
        TaskPayload → Backend → Picture → ImageFormat → World → World → Bool × Bool → Type 0
    BothDone task b img fmt w d wrote =
        (o1 : Option Bytes) × (o2 : Option Bytes) × (present o1 ≡ should_thumbnail fmt)
        × (present o2 ≡ should_webp fmt)
        × (wrote ≡ (present o1, present o2))
        × (d ≡ put_both task b o1 o2 w)
        × ((v : World)
            → run (exec setting down) (both task b img fmt) v ≡ (ok wrote, put_both task b o1 o2 v))

    variants-BothDone :
        (task : TaskPayload) (b : Backend) (img : Picture) (fmt : ImageFormat) (w e : World)
        (wrote : Bool × Bool)
        → in_place b ≡ true
        → run (exec setting down) (both task b img fmt) w ≡ (ok wrote, e)
        → BothDone task b img fmt w e wrote
    unfolding process_image_variants run
    variants-BothDone task b img fmt w e wrote p h =
        let X = exec setting down in
        let G = BothDone task b img fmt w e wrote in
        let tk = thumb_key_of lib show_uuid config task in
        let wk = webp_key_of lib show_uuid config task in
        let thumb = generate_thumbnail lib show_uuid config img fmt b tk in
        let web = convert_to_webp lib show_uuid config img fmt b wk in
        run->>=_inv X G thumb _ w e wrote h λ f1 d q h1.
          run->>=_inv X G web _ d e wrote h1 λ f2 d2 q2 h2.
            let (o1, s1, t1, e1, r1) =
              thumb-Writes lib show_uuid config setting down img fmt b tk w d f1 p q in
            let (o2, s2, t2, e2, r2) =
              webp-Writes lib show_uuid config setting down img fmt b wk d d2 f2 p q2 in
            let g : ◌≡◌ {A = Bool × Bool} (f1, f2) wrote = ground (arith, h2) in
            (
              o1,
              o2,
              t1,
              t2,
              sym g
                  ∙ ap₂ (λ (x : Bool) (y : Bool). let p : Bool × Bool = (x, y) in p) (s1 ∙ sym t1)
                      (s2 ∙ sym t2),
              ap (λ r. r.1) (sym h2) ∙ e2 ∙ ap (with_object (place b) wk o2) e1,
              λ v.
                  let v1 = with_object (place b) tk o1 v in
                  let v2 = put_both task b o1 o2 v in
                  run->>=_ok X thumb _ v v1 f1 (r1 v)
                  ∙ run->>=_ok X web _ v1 v2 f2 (r2 v1)
                  ∙ ap
                      (λ (x : Bool × Bool).
                        let r : Result PipelineError (Bool × Bool) × World = (ok x, v2) in r)
                      g,
            )

    -- A task that goes through carries out a plan, and carries out the same plan in every world in
    -- which its source is the same.
    pub process_task-plan :
        (task : TaskPayload) (w w' : World)
        → IsInPlace task w
        → outcome task w ≡ (ok tt, w')
        → (pl : Plan) × (w' ≡ apply task pl w)
          × IsPlanOf task pl w
          × ((v : World)
              → source_in task pl.backend v ≡ source_in task pl.backend w
              → outcome task v ≡ (ok tt, apply task pl v))
    unfolding process_task
    process_task-plan task w w' in_its_place h =
        let X = exec setting down in
        let G =
          (pl : Plan) × (w' ≡ apply task pl w)
          × IsPlanOf task pl w
          × ((v : World)
              → source_in task pl.backend v ≡ source_in task pl.backend w
              → outcome task v ≡ (ok tt, apply task pl v)) in
        let P1 = resolve_backend lib show_uuid config task in
        run->>=_inv X G P1 _ w w' tt h λ b d1 q1 h1.
          let P2 = read_source_image lib show_uuid config b task in
          run->>=_inv X G P2 _ d1 w' tt h1 λ source d2 q2 h2.
            let P3 = load_watermarked_image lib show_uuid config task source.0 in
            run->>=_inv X G P3 _ d2 w' tt h2 λ img d3 q3 h3.
              let P4 = both task b img source.1 in
              run->>=_inv X G P4 _ d3 w' tt h3 λ wrote d4 q4 h4.
                let (o1, o2, t1, t2, g, e4, r4) =
                  variants-BothDone task b img source.1 d3 d4 wrote
                    (in_its_place b (ap (λ r. r.0) q1)) q4 in
                let size : ℕ × ℕ = (width source.0, height source.0) in
                let (e5, r5) = marked task size wrote d4 w' h4 in
                let pl : Plan = record { backend = b; size = size; thumb = o1; web = o2 } in
                let e1 =
                  same-world P1 w d1 (ok b) _ q1
                    (resolve-pure lib show_uuid config setting down task w w) in
                let e2 =
                  same-world P2 d1 d2 (ok source) _ q2
                    (read-pure lib show_uuid config setting down b task d1 d1 refl) in
                let e3 =
                  same-world P3 d2 d3 (ok img) _ q3
                    (drawn-pure lib show_uuid config setting down task source.0 d2 d2) in
                let same : d3 ≡ w = e3 ∙ e2 ∙ e1 in
                let finish = λ (x : Bool × Bool) (u : World). record u {
                  rows =
                      map (mark task.image_id (record_of lib show_uuid config task size x)) u.rows;
                } in
                let (bytes, found, guessed) = read-found b task d1 d2 source.0 source.1 q2 in
                (
                  pl,
                  e5 ∙ ap₂ finish g (e4 ∙ ap (put_both task b o1 o2) same),
                  (
                    bytes,
                    source.1,
                    ap (λ r. r.0) q1,
                    subst (λ u. source_in task b u ≡ some bytes) e1 found,
                    guessed,
                    t1,
                    t2,
                  ),
                  λ v eq.
                      let v4 = put_both task b o1 o2 v in
                      let eq1 = eq ∙ ap (source_in task b) (sym e1) in
                      run->>=_ok X P1 _ v v b (
                        alike P1 w d1 v (ok b) q1
                          (resolve-pure lib show_uuid config setting down task v w))
                      ∙ run->>=_ok X P2 _ v v source (
                          alike P2 d1 d2 v (ok source) q2
                            (read-pure lib show_uuid config setting down b task v d1 eq1))
                      ∙ run->>=_ok X P3 _ v v img (
                          alike P3 d2 d3 v (ok img) q3
                            (drawn-pure lib show_uuid config setting down task source.0 v d2))
                      ∙ run->>=_ok X P4 _ v v4 wrote (r4 v)
                      ∙ r5 v4
                      ∙ ap
                          (λ (x : Bool × Bool).
                            let r : Result PipelineError (Unit {0}) × World =
                              (ok tt, finish x v4) in
                            r)
                          g,
                )
