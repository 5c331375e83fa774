-- ===== src/Worker/Pipeline/Examples.antt =====
-- A worker with a picture that is a number, in a local backend.
use pichost.Common.{
  ℕ, ◌≡◌, refl, String, [], ◌∷◌, none, some, ok, err, Bool, false, arith, ◌+◌, ◌==◌, ◌=ₛ◌,
  if◌then◌else◌,
}
use pichost.Prog.{run}
use text.Mathlib.TextEquality.{eq_iff}
use pichost.Storage.{Backend, local, trim_slashes, display}
use pichost.TaskQueue.{Uuid, TaskPayload}
use pichost.Worker.Pipeline.{
  png, Imaging, WorkerConfig, Processed, Call, World, Setting, exec, webp, put_object,
}
use pichost.Worker.Pipeline.Variants.{process_task, resolve_backend}
use pichost.Worker.Pipeline.Results.{IsInPlace, outcome}
use pichost.Worker.Pipeline.Redelivered.{never, process_task-again}
use pichost.Worker.Pipeline.Ready.{IsReady, process_task-IsReady}
use pichost.Worker.Pipeline.Failures.{process_task-fails}

abbrev lib : Imaging
lib = record {
  Picture = ℕ;
  read_picture = λ b. elim b [ [] ↦ err "empty" | x ∷ r ↦ ok x ];
  guess_format = λ b. ok png;
  width = λ p. p;
  height = λ p. p;
  has_alpha = λ p. false;
  scaled = λ m w h. (m, m);
  resize_exact = λ p s. s.0;
  encode_jpeg = λ p q. ok (p ∷ q ∷ []);
  encode_png = λ p. ok (p ∷ []);
  encode_webp = λ p q. 7 ∷ p ∷ [];
  apply_watermark = λ p c. ok (p + 1);
  parse_watermark = λ s. none;
  decode_key = λ s. none;
}

abbrev show_uuid : Uuid → String
show_uuid i = if i == 10 then "i" else "u"

abbrev config : WorkerConfig
config = record {
  token_encryption_key = none;
  public_url = "http://h/";
  thumbnail_size = 64;
  thumbnail_quality = 80;
  webp_quality = 75;
}

abbrev disk : Backend
disk = local "/data" "http://h"

abbrev setting : Setting
setting = record {
  config_of = λ i. none;
  watermark_of = λ u. some none;
  for_config = λ c k. none;
  for_backend = λ n. some disk;
  place = λ b. 0;
  today = "2024/05/01";
}

abbrev task : TaskPayload
task = record {
  task_id = 5;
  image_id = 10;
  user_id = 1;
  storage_backend = "local";
  storage_config_id = none;
  storage_backend_name = "local";
  source_key = "u/a";
  source_mime = "image/png";
  retry_count = 0;
  max_retries = 3;
}

abbrev before : World
before = record {
  rows = record { id = 10; status = "processing"; processed = none } ∷ [];
  objects = record { site = 0; key = "u/a"; content = 100 ∷ [] } ∷ [];
}

abbrev entry : Processed
entry = record {
  width = 100;
  height = 100;
  thumbnail_key = some "u/thumb.i";
  thumbnail_url = some "http://h/u/thumb/i";
  webp_key = some "u/webp.i";
  webp_url = some "http://h/u/webp/i";
}

abbrev done : World
done = record {
  rows = record { id = 10; status = "ready"; processed = some entry } ∷ [];
  objects =
      record { site = 0; key = "u/a"; content = 100 ∷ [] }
      ∷ record { site = 0; key = "u/thumb.i"; content = 64 ∷ 80 ∷ [] }
      ∷ record { site = 0; key = "u/webp.i"; content = 7 ∷ 100 ∷ [] }
      ∷ [];
}

abbrev up : Call → Bool
up c = false

-- The thumbnail is written, and the WebP form is not.
abbrev no_webp : Call → Bool
no_webp (put_object b k v m) = m =ₛ "image/webp"
no_webp c = false

abbrev half_done : World
half_done = record before {
  objects =
      record { site = 0; key = "u/a"; content = 100 ∷ [] }
      ∷ record { site = 0; key = "u/thumb.i"; content = 64 ∷ 80 ∷ [] }
      ∷ [];
}

processed : outcome lib show_uuid config setting up task before ≡ (ok tt, done)
unfolding process_task exec trim_slashes run
processed = refl

on_disk : IsInPlace lib show_uuid config setting never task before
unfolding run exec resolve_backend
on_disk = λ b e. ground (arith, e)

process_task-again_example :
    (outcome lib show_uuid config setting never task done ≡ (ok tt, done))
    × ((v : World) → outcome lib show_uuid config setting no_webp task done ≡ (ok tt, v) → v ≡ done)
process_task-again_example =
    process_task-again lib show_uuid config setting task before done up no_webp
      (ground (arith, eq_iff "u/thumb.i" "u/a"), ground (arith, eq_iff "u/webp.i" "u/a")) on_disk
      processed

process_task-IsReady_example : IsReady lib show_uuid config setting up task before done
process_task-IsReady_example =
    process_task-IsReady lib show_uuid config setting up task before done on_disk processed

not_written :
    outcome lib show_uuid config setting no_webp task before
    ≡ (err (webp "webp storage write: write failed: down"), half_done)
unfolding process_task exec trim_slashes run display
not_written = refl

process_task-fails_example : half_done.rows ≡ before.rows
process_task-fails_example =
    process_task-fails lib show_uuid config setting no_webp task before half_done
      (webp "webp storage write: write failed: down") not_written
