-- ===== src/Worker/Pipeline/Variants.antt =====
-- `process_task` and what it calls.
use pichost.Common.{
  ℕ, String, Option, none, some, Result, err, map_err, Bool, true, false, not, ◌=ₛ◌, ◌&&◌,
  if◌then◌else◌, get_or, replicate,
}
use pichost.Prog.{ret, send, ◌>>=◌, pure, throw}
use pichost.Storage.{StorageError, display, UserStorageConfig, Backend, ◌⧺◌, trim_slashes}
use pichost.TaskQueue.{Uuid, TaskPayload}
use pichost.Upload.{Bytes}
use pichost.Worker.Pipeline.{
  PipelineError, storage_read, decode, thumbnail, webp, watermark, database, backend_resolution,
  panicked, ImageFormat, png, jpeg, gif, avif, bmp, WatermarkConfig, Imaging, WorkerConfig,
  Processed, select_config, select_watermark, resolve_config, resolve_name, get_object, put_object,
  update_image, Step,
}

abbrev or_else : {E A : Type 0} → (E → PipelineError) → Result E A → Step A
or_else f r = ret (map_err f r)

unfoldable pub should_thumbnail : ImageFormat → Bool
should_thumbnail gif = false
should_thumbnail fmt = true

unfoldable pub should_webp : ImageFormat → Bool
should_webp png = true
should_webp jpeg = true
should_webp avif = true
should_webp bmp = true
should_webp fmt = false

unfoldable pub some_if : Bool → String → Option String
some_if flag val = if flag then some val else none

abbrev found_or : {A : Type 0} → PipelineError → Option A → Step A
found_or e none = throw e
found_or e (some a) = pure a

abbrev resolved : Option (Result StorageError Backend) → Step Backend
resolved none = throw panicked
resolved (some r) = or_else (λ e. backend_resolution (display e)) r

unfoldable pub fetch_storage_config : (Uuid → String) → Uuid → Step UserStorageConfig
fetch_storage_config show_uuid config_id = do
  row ←
      send (select_config config_id)
        (or_else (λ e. backend_resolution ("config db query failed: " ⧺ e)))
  found_or (backend_resolution ("storage config " ⧺ show_uuid config_id ⧺ " not found")) row

module _ (lib : Imaging) (show_uuid : Uuid → String) (config : WorkerConfig) where
  open lib use {
    Picture, read_picture, guess_format, width, height, has_alpha, scaled, resize_exact,
    encode_jpeg, encode_png, encode_webp, apply_watermark, parse_watermark, decode_key,
  }

  abbrev decoded : Option String → Option Bytes
  decoded none = none
  decoded (some k) = decode_key k

  -- A key that cannot be decoded counts as none.
  unfoldable pub resolve_encryption_key : Bytes
  resolve_encryption_key = get_or (decoded config.token_encryption_key) (replicate 32 0)

  abbrev pub backend_of : TaskPayload → Option Uuid → Step Backend
  backend_of task none = send (resolve_name task.storage_backend) (found_or panicked)
  backend_of task (some config_id) = do
    storage_config ← fetch_storage_config show_uuid config_id
    send (resolve_config storage_config resolve_encryption_key) resolved

  unfoldable pub resolve_backend : TaskPayload → Step Backend
  unfolding fetch_storage_config resolve_encryption_key
  resolve_backend task = backend_of task task.storage_config_id

  unfoldable pub read_source_image : Backend → TaskPayload → Step (Picture × ImageFormat)
  read_source_image backend task = do
    bytes ← send (get_object backend task.source_key) (or_else (λ e. storage_read (display e)))
    img ← or_else decode (read_picture bytes)
    fmt ← or_else decode (guess_format bytes)
    pure (img, fmt)

  abbrev parsed : Option (Option String) → Option WatermarkConfig
  parsed (some (some v)) = parse_watermark v
  parsed (some none) = none
  parsed none = none

  unfoldable pub fetch_watermark_config : TaskPayload → Step (Option WatermarkConfig)
  fetch_watermark_config task = do
    row ←
        send (select_watermark task.user_id)
          (or_else (λ e. database ("Failed to fetch watermark config: " ⧺ e)))
    pure (parsed row)

  abbrev drawn : Picture → Option WatermarkConfig → Step Picture
  drawn raw_img none = pure raw_img
  drawn raw_img (some c) =
      if c.enabled && not (c.text =ₛ "")
      then or_else watermark (apply_watermark raw_img c)
      else pure raw_img

  unfoldable pub load_watermarked_image : TaskPayload → Picture → Step Picture
  unfolding fetch_watermark_config
  load_watermarked_image task raw_img = do c ← fetch_watermark_config task; drawn raw_img c

  -- The encoder of a thumbnail, with the MIME type.
  unfoldable pub thumbnail_output_format : Picture → ImageFormat → ImageFormat × String
  thumbnail_output_format img png =
      if has_alpha img then (png, "image/png") else (jpeg, "image/jpeg")
  thumbnail_output_format img fmt = (jpeg, "image/jpeg")

  abbrev encode_as : ImageFormat → Picture → Result String Bytes
  encode_as jpeg img = map_err (λ e. "jpeg encode: " ⧺ e) (encode_jpeg img config.thumbnail_quality)
  encode_as png img = map_err (λ e. "png encode: " ⧺ e) (encode_png img)
  encode_as fmt img = err "unsupported thumb output format"

  abbrev small : Picture → Picture
  small img = resize_exact img (scaled config.thumbnail_size (width img) (height img))

  -- Whether a thumbnail was written.
  unfoldable pub generate_thumbnail : Picture → ImageFormat → Backend → String → Step Bool
  unfolding should_thumbnail thumbnail_output_format
  generate_thumbnail img fmt storage key =
      if should_thumbnail fmt
      then (do
        buf ← or_else thumbnail (encode_as (thumbnail_output_format img fmt).0 (small img))
        stored ←
            send (put_object storage key buf (thumbnail_output_format img fmt).1)
              (or_else (λ e. thumbnail ("thumb storage write: " ⧺ display e)))
        pure true)
      else pure false

  unfoldable pub convert_to_webp : Picture → ImageFormat → Backend → String → Step Bool
  unfolding should_webp
  convert_to_webp img fmt storage key =
      if should_webp fmt
      then (do
        stored ←
            send (put_object storage key (encode_webp img config.webp_quality) "image/webp")
              (or_else (λ e. webp ("webp storage write: " ⧺ display e)))
        pure true)
      else pure false

  unfoldable pub process_image_variants :
      Picture → ImageFormat → Backend → String → String → Step (Bool × Bool)
  unfolding generate_thumbnail convert_to_webp
  process_image_variants img fmt source_backend thumb_key webp_key = do
    thumb_written ← generate_thumbnail img fmt source_backend thumb_key
    webp_written ← convert_to_webp img fmt source_backend webp_key
    pure (thumb_written, webp_written)

  abbrev pub thumb_key_of : TaskPayload → String
  thumb_key_of task = show_uuid task.user_id ⧺ "/thumb." ⧺ show_uuid task.image_id

  abbrev pub webp_key_of : TaskPayload → String
  webp_key_of task = show_uuid task.user_id ⧺ "/webp." ⧺ show_uuid task.image_id

  abbrev base_url : String
  base_url = trim_slashes config.public_url

  abbrev pub record_of : TaskPayload → ℕ × ℕ → Bool × Bool → Processed
  record_of task (w, h) (thumb_written, webp_written) = record {
    width = w;
    height = h;
    thumbnail_key = some_if thumb_written (thumb_key_of task);
    thumbnail_url = some_if thumb_written (base_url ⧺ "/u/thumb/" ⧺ show_uuid task.image_id);
    webp_key = some_if webp_written (webp_key_of task);
    webp_url = some_if webp_written (base_url ⧺ "/u/webp/" ⧺ show_uuid task.image_id);
  }

  unfoldable pub update_image_record : TaskPayload → ℕ × ℕ → Bool × Bool → Step (Unit {0})
  unfolding some_if
  update_image_record task size written =
      send (update_image task.image_id (record_of task size written)) (or_else database)

  unfoldable pub process_task : TaskPayload → Step (Unit {0})
  unfolding resolve_backend read_source_image load_watermarked_image process_image_variants
      update_image_record
  process_task task = do
    backend ← resolve_backend task
    source ← read_source_image backend task
    img ← load_watermarked_image task source.0
    written ← process_image_variants img source.1 backend (thumb_key_of task) (webp_key_of task)
    update_image_record task (width source.0, height source.0) written
