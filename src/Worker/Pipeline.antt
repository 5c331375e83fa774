-- ===== src/Worker/Pipeline.antt =====
-- What a worker does with one task: pichost-worker/src/pipeline.rs and processor.rs. Decoding,
-- scaling, drawing and encoding of images are libraries, the parameter `Imaging`; a size that the
-- source computes in f64 is its field `scaled`. This file has the data and the calls; `exec` gives
-- the calls their meaning on the columns of `images` that the worker writes and on the objects of
-- the backends, and they fail where `down` says so.
pub mod Variants
pub mod Steps
pub mod Results
pub mod Again
pub mod Redelivered
pub mod Ready
pub mod Failures
mod Examples
use pichost.Common.{
  ℕ, String, List, [], ◌∷◌, Option, none, some, Result, ok, err, Bool, true, false, ◌&&◌, ◌==◌,
  ◌=ₛ◌, if◌then◌else◌, map, ok_or, get_or,
}
use pichost.Prog.{Prog}
use pichost.Storage.{
  StorageError, read_failed, write_failed, UserStorageConfig, Backend, local, rustfs, git,
  GitStorage, ◌⧺◌,
}
use pichost.TaskQueue.{Uuid}
use pichost.Upload.{Bytes}

pub data PipelineError : Type 0 where
  storage_read : String → PipelineError
  storage_write : String → PipelineError
  decode : String → PipelineError
  thumbnail : String → PipelineError
  webp : String → PipelineError
  watermark : String → PipelineError
  database : String → PipelineError
  backend_resolution : String → PipelineError
  -- A panic of the router.
  panicked : PipelineError

-- The formats that the source tells apart.
pub data ImageFormat : Type 0 where
  png jpeg gif web_p avif bmp other_format : ImageFormat

-- Of the settings of a watermark, what decides whether it is drawn, and the rest as text.
pub record WatermarkConfig : Type 0 where
  pub enabled : Bool
  pub text : String
  pub look : String

pub record Imaging : Type 1 where
  pub Picture : Type 0
  pub read_picture : Bytes → Result String Picture
  pub guess_format : Bytes → Result String ImageFormat
  pub width : Picture → ℕ
  pub height : Picture → ℕ
  pub has_alpha : Picture → Bool
  pub scaled : (max_size width height : ℕ) → ℕ × ℕ
  pub resize_exact : Picture → ℕ × ℕ → Picture
  pub encode_jpeg : Picture → (quality : ℕ) → Result String Bytes
  pub encode_png : Picture → Result String Bytes
  pub encode_webp : Picture → (quality : ℕ) → Bytes
  pub apply_watermark : Picture → WatermarkConfig → Result String Picture
  pub parse_watermark : String → Option WatermarkConfig
  pub decode_key : String → Option Bytes

pub record WorkerConfig : Type 0 where
  pub token_encryption_key : Option String
  pub public_url : String
  pub thumbnail_size : ℕ
  pub thumbnail_quality : ℕ
  pub webp_quality : ℕ

-- What `update_image_record` writes.
pub record Processed : Type 0 where
  pub width : ℕ
  pub height : ℕ
  pub thumbnail_key : Option String
  pub thumbnail_url : Option String
  pub webp_key : Option String
  pub webp_url : Option String

pub data Call : Type 0 where
  select_config : (id : Uuid) → Call
  select_watermark : (user_id : Uuid) → Call
  resolve_config : (config : UserStorageConfig) (encryption_key : Bytes) → Call
  resolve_name : (storage_backend : String) → Call
  get_object : (backend : Backend) (key : String) → Call
  put_object : (backend : Backend) (key : String) (bytes : Bytes) (mime : String) → Call
  update_image : (id : Uuid) → Processed → Call

abbrev pub Answer : Call → Type 0
Answer (select_config i) = Result String (Option UserStorageConfig)
-- The row, and its column, which may be null.
Answer (select_watermark u) = Result String (Option (Option String))
-- `none` is a panic
Answer (resolve_config c k) = Option (Result StorageError Backend)
Answer (resolve_name n) = Option Backend
Answer (get_object b k) = Result StorageError Bytes
Answer (put_object b k v m) = Result StorageError String
Answer (update_image i p) = Result String (Unit {0})

abbrev pub Step : Type 0 → Type 0
Step A = Prog Call Answer (Result PipelineError A)

-- A row of `images`; `processed` is `none` where nothing was written yet.
pub record Row : Type 0 where
  pub id : Uuid
  pub status : String
  pub processed : Option Processed

pub record Object : Type 0 where
  pub site : ℕ
  pub key : String
  pub content : Bytes

pub record World : Type 0 where
  pub rows : List Row
  pub objects : List Object

-- What a worker reads and what does not change while it works: the configurations, the users'
-- watermarks, the backends that the router has for names and configurations, the place of each
-- backend, and the day as `%Y/%m/%d`.
pub record Setting : Type 0 where
  pub config_of : Uuid → Option UserStorageConfig
  pub watermark_of : Uuid → Option (Option String)
  pub for_config : UserStorageConfig → Bytes → Option (Result StorageError Backend)
  pub for_backend : String → Option Backend
  pub place : Backend → ℕ
  pub today : String

abbrev pub is_at : ℕ → String → Object → Bool
is_at n k o = o.site == n && o.key =ₛ k

abbrev pub find_object : ℕ → String → List Object → Option Bytes
find_object n k [] = none
find_object n k (o ∷ os) = if is_at n k o then some o.content else find_object n k os

-- A write replaces the object, or adds one.
abbrev pub put_into : ℕ → String → Bytes → List Object → List Object
put_into n k v [] = record { site = n; key = k; content = v } ∷ []
put_into n k v (o ∷ os) =
    if is_at n k o then record { site = n; key = k; content = v } ∷ os else o ∷ put_into n k v os

unfoldable pub mime_to_ext : String → String
mime_to_ext mime =
    if mime =ₛ "image/png"
    then "png"
    else if mime =ₛ "image/jpeg"
    then "jpg"
    else if mime =ₛ "image/gif"
    then "gif"
    else if mime =ₛ "image/webp"
    then "webp"
    else if mime =ₛ "image/svg+xml"
    then "svg"
    else if mime =ₛ "image/avif"
    then "avif"
    else if mime =ₛ "image/bmp"
    then "bmp"
    else "bin"

-- `GitStorage::build_path`, on a given day.
unfoldable pub build_path : GitStorage → (today key mime : String) → String
unfolding mime_to_ext
build_path g today key mime =
    get_or g.path_prefix "pichost" ⧺ "/" ⧺ today ⧺ "/" ⧺ key ⧺ "." ⧺ mime_to_ext mime

-- The key under which a backend files an object: what its `put` returns.
abbrev pub filed : Backend → (today key mime : String) → String
filed (local p u) today key mime = key
filed (rustfs e b) today key mime = key
filed (git g) today key mime = build_path g today key mime

-- Git services take a file without a `sha` only at a path that has none.
abbrev rejects : Backend → Option Bytes → Bool
rejects (git g) (some v) = true
rejects b o = false

-- Whether a backend files objects under the keys that it is given, and replaces them.
abbrev pub in_place : Backend → Bool
in_place (git g) = false
in_place b = true

abbrev pub mark : Uuid → Processed → Row → Row
mark i p r = if r.id == i then record r { status = "ready"; processed = some p } else r

module _ (setting : Setting) (down : Call → Bool) where
  open setting use {config_of, watermark_of, for_config, for_backend, place, today}

  unfoldable pub exec : (c : Call) → World → Answer c × World
  exec (select_config i) w =
      if down (select_config i) then (err "down", w) else (ok (config_of i), w)
  exec (select_watermark u) w =
      if down (select_watermark u) then (err "down", w) else (ok (watermark_of u), w)
  exec (resolve_config c k) w = (for_config c k, w)
  exec (resolve_name n) w = (for_backend n, w)
  exec (get_object b k) w =
      if down (get_object b k)
      then (err (read_failed "down"), w)
      else (ok_or (find_object (place b) k w.objects) (read_failed "no such object"), w)
  exec (put_object b k v m) w =
      let key = filed b today k m in
      if down (put_object b k v m)
      then (err (write_failed "down"), w)
      else if rejects b (find_object (place b) key w.objects)
      then (err (write_failed "Git API"), w)
      else (ok key, record w { objects = put_into (place b) key v w.objects })
  exec (update_image i p) w =
      if down (update_image i p)
      then (err "down", w)
      else (ok tt, record w { rows = map (mark i p) w.rows })
