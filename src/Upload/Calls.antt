-- ===== src/Upload/Calls.antt =====
-- The calls that an upload makes: SQL statements, the storage router, a backend, the queue,
-- random numbers and the clock. `exec` gives the meaning of each on the tables and objects of
-- services that are up, the refusals of an INSERT by migrations/0002_create_images.sql among them;
-- the services themselves are a parameter.
use pichost.Common.{
  ℕ, ◌+◌, String, List, [], ◌∷◌, Option, none, some, Bool, true, false, Result, ok, err, ◌==◌, leb,
  ◌&&◌, ◌||◌, not, ◌=ₛ◌, if◌then◌else◌, any, select, ◌≡◌,
}
use Prim.Native.String.{count}
use pichost.Storage.{StorageError, UserStorageConfig, Backend}
use pichost.Storage.Router.{Vault, StorageRouter, for_config}
use pichost.TaskQueue.{Uuid, TaskPayload}
use pichost.Upload.{Bytes, ImageRow}

-- The columns that the INSERT of `insert_image_record` binds.
pub record NewImage : Type 0 where
  pub user_id : Uuid
  pub public_key : String
  pub original_name : String
  pub storage_key : String
  pub storage_backend : String
  pub mime_type : String
  pub file_size : ℕ
  pub width : Option ℕ
  pub height : Option ℕ
  pub sha256 : String
  pub url : String
  pub storage_config_id : Option Uuid

-- A row of `images`; the processing columns are those of `from_row`.
pub record Image : Type 0 where
  pub id : Uuid
  pub new : NewImage
  pub open new use *
  pub status : String
  pub thumbnail_url : Option String
  pub webp_url : Option String
  pub created_at : ℕ
  pub category_id : Option Uuid

pub data Call : Type 0 where
  sum_file_size : (user_id : Uuid) → Call
  image_exists : (user_id : Uuid) (sha256 : String) (config_id : Option Uuid) → Call
  select_duplicate : (user_id : Uuid) (sha256 : String) (config_id : Option Uuid) → Call
  key_exists : (public_key : String) → Call
  select_configs : (user_id : Uuid) (ids : List Uuid) → Call
  select_default : (user_id : Uuid) → Call
  insert_image : NewImage → Call
  resolve_backend : (config : UserStorageConfig) (encryption_key : Bytes) → Call
  put_object : (storage : Backend) (key : String) (bytes : Bytes) (mime_type : String) → Call
  enqueue : TaskPayload → Call
  random_u32 : Call
  new_uuid : Call
  utc_now : Call

abbrev pub Answer : Call → Type 0
Answer (sum_file_size u) = Result String ℕ
Answer (image_exists u h i) = Result String Bool
Answer (select_duplicate u h i) = Result String ImageRow
Answer (key_exists k) = Result String Bool
Answer (select_configs u ids) = Result String (List UserStorageConfig)
Answer (select_default u) = Result String (Option UserStorageConfig)
Answer (insert_image n) = Result String Uuid
-- `none` is a panic
Answer (resolve_backend c k) = Option (Result StorageError Backend)
Answer (put_object b k d m) = Result StorageError String
Answer (enqueue t) = Result String (Unit {0})
Answer random_u32 = ℕ
Answer new_uuid = Uuid
Answer utc_now = ℕ

pub record Stored : Type 0 where
  pub storage : Backend
  pub key : String
  pub bytes : Bytes

-- The tables `images` and `user_storage_configs`, the objects that the backends hold, the queue,
-- the router, the random numbers to come, the next UUID and time, and whether the database is
-- PostgreSQL, which checks the widths of columns, or SQLite, which does not.
pub record World : Type 0 where
  pub images : List Image
  pub configs : List UserStorageConfig
  pub objects : List Stored
  pub queued : List TaskPayload
  pub router : StorageRouter
  pub randoms : ℕ → ℕ
  pub drawn : ℕ
  pub next_uuid : ℕ
  pub clock : ℕ
  pub postgres : Bool

-- `SELECT SUM(file_size) … WHERE user_id = $1`
unfoldable pub usage : Uuid → List Image → ℕ
usage u [] = 0
usage u (i ∷ is) = (if i.user_id == u then i.file_size else 0) + usage u is

-- `IS NOT DISTINCT FROM`
abbrev pub same_config : Option Uuid → Option Uuid → Bool
same_config none none = true
same_config (some a) (some b) = a == b
same_config none (some b) = false
same_config (some a) none = false

abbrev pub is_duplicate : Uuid → String → Option Uuid → Image → Bool
is_duplicate u h i img = img.user_id == u && img.sha256 =ₛ h && same_config img.storage_config_id i

-- `UNIQUE (user_id, sha256)`, under whichever configuration.
abbrev pub has_content : Uuid → String → Image → Bool
has_content u h img = img.user_id == u && img.sha256 =ₛ h

abbrev pub has_key : String → Image → Bool
has_key k img = img.public_key =ₛ k

-- The widths of the VARCHAR columns, in characters.
unfoldable pub fits : NewImage → Bool
fits n =
    leb (count n.public_key) 16
    && leb (count n.original_name) 255
    && leb (count n.storage_key) 512
    && leb (count n.storage_backend) 32
    && leb (count n.mime_type) 128
    && leb (count n.sha256) 64
    && leb (count n.url) 1024

-- An INSERT is refused for a value that is not unique or too long.
abbrev pub violates : World → NewImage → Bool
violates w n =
    any (has_content n.user_id n.sha256) w.images
    || any (has_key n.public_key) w.images
    || (w.postgres && not (fits n))

unfoldable pub first {ℓ} : {A : Type ℓ} → (A → Bool) → List A → Option A
first p [] = none
first p (x ∷ xs) = if p x then some x else first p xs

unfoldable pub insert_by_time : UserStorageConfig → List UserStorageConfig → List UserStorageConfig
insert_by_time c [] = c ∷ []
insert_by_time c (d ∷ ds) =
    if leb c.created_at d.created_at then c ∷ d ∷ ds else d ∷ insert_by_time c ds

-- `ORDER BY created_at`
unfoldable pub order_by_time : List UserStorageConfig → List UserStorageConfig
unfolding insert_by_time
order_by_time [] = []
order_by_time (c ∷ cs) = insert_by_time c (order_by_time cs)

abbrev pub is_chosen : Uuid → List Uuid → UserStorageConfig → Bool
is_chosen u ids c = any (λ i. c.id == i) ids && c.user_id == u

abbrev pub is_default_of : Uuid → UserStorageConfig → Bool
is_default_of u c = c.user_id == u && c.is_default

abbrev config_of : List UserStorageConfig → Option Uuid → Option UserStorageConfig
config_of cs none = none
config_of cs (some i) = first (λ c. c.id == i) cs

abbrev name_of : Option UserStorageConfig → Option String
name_of none = none
name_of (some c) = some c.name

abbrev provider_of : Option UserStorageConfig → Option String
provider_of none = none
provider_of (some c) = some c.provider

-- A row of `images LEFT JOIN user_storage_configs`.
unfoldable pub joined : List UserStorageConfig → Image → ImageRow
unfolding first
joined cs i = record {
  id = i.id;
  public_key = i.public_key;
  original_name = i.original_name;
  url = i.url;
  mime_type = i.mime_type;
  file_size = i.file_size;
  sha256 = i.sha256;
  width = i.width;
  height = i.height;
  status = i.status;
  thumbnail_url = i.thumbnail_url;
  webp_url = i.webp_url;
  created_at = i.created_at;
  category_id = i.category_id;
  storage_config_id = i.storage_config_id;
  name = name_of (config_of cs i.storage_config_id);
  provider = provider_of (config_of cs i.storage_config_id);
}

-- `fetch_one`
abbrev one_row : List UserStorageConfig → Option Image → Result String ImageRow
one_row cs none = err "no rows returned"
one_row cs (some i) = ok (joined cs i)

abbrev pub row_of : NewImage → Uuid → ℕ → Image
row_of n id now = record {
  id = id;
  new = n;
  status = "active";
  thumbnail_url = none;
  webp_url = none;
  created_at = now;
  category_id = none;
}

-- The key under which a backend files an object: what its `put` returns.
abbrev pub Filing : Type 0
Filing = Backend → String → String → String

abbrev pub routed :
    World
    → Option (Result StorageError Backend × StorageRouter)
    → Option (Result StorageError Backend) × World
routed w none = (none, w)
routed w (some (b, r)) = (some b, record w { router = r })

module _ (vault : Vault) (stored_key : Filing) where
  unfoldable pub exec : (c : Call) → World → Answer c × World
  unfolding usage first
  exec (sum_file_size u) w = (ok (usage u w.images), w)
  exec (image_exists u h i) w = (ok (any (is_duplicate u h i) w.images), w)
  exec (select_duplicate u h i) w = (one_row w.configs (first (is_duplicate u h i) w.images), w)
  exec (key_exists k) w = (ok (any (has_key k) w.images), w)
  exec (select_configs u ids) w = (ok (order_by_time (select (is_chosen u ids) w.configs)), w)
  exec (select_default u) w = (ok (first (is_default_of u) w.configs), w)
  exec (insert_image n) w = if violates w n then (err "constraint violated", w) else (
    ok w.next_uuid,
    record w { images = row_of n w.next_uuid w.clock ∷ w.images; next_uuid = w.next_uuid + 1 },
  )
  exec (resolve_backend c k) w = routed w (for_config vault w.router c k)
  exec (put_object b k d m) w = (
    ok (stored_key b k m),
    record w { objects = record { storage = b; key = stored_key b k m; bytes = d } ∷ w.objects },
  )
  exec (enqueue t) w = (ok tt, record w { queued = t ∷ w.queued })
  exec random_u32 w = (w.randoms w.drawn, record w { drawn = w.drawn + 1 })
  exec new_uuid w = (w.next_uuid, record w { next_uuid = w.next_uuid + 1 })
  exec utc_now w = (w.clock, w)

-- The services behind an upload: a parameter, of which `view` shows the tables and objects.
pub record Services : Type 1 where
  pub Db : Type 0
  pub view : Db → World
  pub handle : (c : Call) → Db → Answer c × Db

-- Services that are up carry out each call and refuse none.
abbrev pub AreUp : Vault → Filing → Services → Type 0
AreUp vault filing S =
    (c : Call) (d : S.Db)
    → ((S.handle c d).0 ≡ (exec vault filing c (S.view d)).0)
      × (S.view (S.handle c d).1 ≡ (exec vault filing c (S.view d)).1)
