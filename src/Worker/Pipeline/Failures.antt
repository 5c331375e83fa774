-- ===== src/Worker/Pipeline/Failures.antt =====
-- A task that fails leaves the table as it was.
use pichost.Common.{
  ℕ, ◌≡◌, refl, sym, ◌∙◌, ap, subst, String, Result, ok, err, Bool, inl, inr, Bool-cases,
}
use pichost.Prog.{run}
use pichost.Prog.Laws.{run->>=_elim}
use pichost.Storage.{Backend}
use pichost.TaskQueue.{Uuid, TaskPayload}
use pichost.Worker.Pipeline.{
  PipelineError, ImageFormat, Imaging, WorkerConfig, Call, World, Setting, exec, update_image,
}
use pichost.Worker.Pipeline.Variants.{
  resolve_backend, read_source_image, load_watermarked_image, generate_thumbnail, convert_to_webp,
  process_image_variants, update_image_record, process_task, thumb_key_of, webp_key_of, record_of,
}
use pichost.Worker.Pipeline.Steps.{resolve-pure, read-pure, drawn-pure}
use pichost.Worker.Pipeline.Steps.{thumb-rows, webp-rows}
use pichost.Worker.Pipeline.Results.{outcome, both, same-world}

module _ (lib : Imaging) (show_uuid : Uuid → String) (config : WorkerConfig)
    (setting : Setting) where
  open lib use {Picture}

  module _ (down : Call → Bool) where
    abbrev OnError : {A : Type 0} → World → Result PipelineError A × World → Type 0
    OnError w (ok a, w') = Unit {0}
    OnError w (err e, w') = w'.rows ≡ w.rows

    both-rows :
        (task : TaskPayload) (b : Backend) (img : Picture) (fmt : ImageFormat) (w : World)
        → (run (exec setting down) (both lib show_uuid config setting down task b img fmt) w).1.rows
          ≡ w.rows
    unfolding process_image_variants run
    both-rows task b img fmt w =
        let P : Result PipelineError (Bool × Bool) × World → Type 0 = λ r. r.1.rows ≡ w.rows in
        let X = exec setting down in
        let tk = thumb_key_of lib show_uuid config task in
        let wk = webp_key_of lib show_uuid config task in
        run->>=_elim X P (generate_thumbnail lib show_uuid config img fmt b tk) _ w
          (λ x d q.
            ap (λ r. r.1.rows) (sym q)
            ∙ thumb-rows lib show_uuid config setting down img fmt b tk w)
          (λ a d q.
            let kept =
              ap (λ r. r.1.rows) (sym q)
              ∙ thumb-rows lib show_uuid config setting down img fmt b tk w in
            let then_kept = webp-rows lib show_uuid config setting down img fmt b wk d ∙ kept in
            run->>=_elim X P (convert_to_webp lib show_uuid config img fmt b wk) _ d
              (λ x d2 q2. ap (λ r. r.1.rows) (sym q2) ∙ then_kept)
              (λ a2 d2 q2. ap (λ r. r.1.rows) (sym q2) ∙ then_kept))

    update-OnError :
        (task : TaskPayload) (size : ℕ × ℕ) (wrote : Bool × Bool) (w d : World)
        → d.rows ≡ w.rows
        → OnError w
            (run (exec setting down) (update_image_record lib show_uuid config task size wrote) d)
    unfolding update_image_record run exec
    update-OnError task size wrote w d e =
        elim (Bool-cases
          (down (update_image task.image_id (record_of lib show_uuid config task size wrote)))) [
            | inl q ↦ rw (q, OnError, run) e
            | inr q ↦ rw (q, OnError, run) tt
          ]

    on_error :
        (task : TaskPayload) (w : World)
        → OnError w (outcome lib show_uuid config setting down task w)
    unfolding process_task
    on_error task w =
        let X = exec setting down in
        let P1 = resolve_backend lib show_uuid config task in
        let pure1 = resolve-pure lib show_uuid config setting down task w w in
        run->>=_elim X (OnError w) P1 _ w
          (λ x d q.
            ap (λ u. u.rows)
              (same-world lib show_uuid config setting down P1 w d (err x) _ q pure1))
          (λ b d1 q1.
            let e1 = same-world lib show_uuid config setting down P1 w d1 (ok b) _ q1 pure1 in
            let P2 = read_source_image lib show_uuid config b task in
            let pure2 = read-pure lib show_uuid config setting down b task d1 d1 refl in
            run->>=_elim X (OnError w) P2 _ d1
              (λ x d q.
                ap (λ u. u.rows)
                  (same-world lib show_uuid config setting down P2 d1 d (err x) _ q pure2 ∙ e1))
              (λ source d2 q2.
                let e2 =
                  same-world lib show_uuid config setting down P2 d1 d2 (ok source) _ q2 pure2
                  ∙ e1 in
                let P3 = load_watermarked_image lib show_uuid config task source.0 in
                let pure3 = drawn-pure lib show_uuid config setting down task source.0 d2 d2 in
                run->>=_elim X (OnError w) P3 _ d2
                  (λ x d q.
                    ap (λ u. u.rows)
                      (same-world lib show_uuid config setting down P3 d2 d (err x) _ q pure3 ∙ e2))
                  (λ img d3 q3.
                    let e3 =
                      same-world lib show_uuid config setting down P3 d2 d3 (ok img) _ q3 pure3
                      ∙ e2 in
                    let kept = both-rows task b img source.1 d3 ∙ ap (λ u. u.rows) e3 in
                    run->>=_elim X (OnError w)
                      (both lib show_uuid config setting down task b img source.1) _ d3
                      (λ x d q. ap (λ r. r.1.rows) (sym q) ∙ kept)
                      (λ wrote d q.
                        update-OnError task _ wrote w d (ap (λ r. r.1.rows) (sym q) ∙ kept)))))

    -- Whichever calls fail: a task that fails leaves every row as it was.
    pub process_task-fails :
        (task : TaskPayload) (w w' : World) (e : PipelineError)
        → outcome lib show_uuid config setting down task w ≡ (err e, w')
        → w'.rows ≡ w.rows
    process_task-fails task w w' e h = subst (OnError w) h (on_error task w)
