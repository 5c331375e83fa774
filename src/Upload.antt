-- ===== src/Upload.antt =====
-- Uploading an image and listing a user's images: pichost-api/src/services/upload.rs, with
-- `html_escape` of services/mod.rs and the error bodies of i18n_ext.rs. This file has the records.
-- An error body is its message key and arguments; the locale only chooses the translation.
-- UUIDs, times and sizes are natural numbers, a file is the list of its bytes.
pub mod Calls
pub mod Checks
pub mod PublicKeys
pub mod Backends
pub mod Links
pub mod Url
pub mod Gallery
mod Examples
use Prim.Native.Char.{Char, code}
use Prim.Native.String
use pichost.Common.{ℕ, String, List, [], ◌∷◌, Option, none, some, Bool, ◌==◌, if◌then◌else◌}
use pichost.Storage.{◌⧺◌}
use pichost.TaskQueue.{Uuid}

abbrev pub Bytes : Type 0
Bytes = List ℕ

pub record ApiError : Type 0 where
  pub status : ℕ
  pub code : String
  pub args : List String
  pub extra : List (String × ℕ)

unfoldable pub error_json : ℕ → String → ApiError
error_json status key = record { status = status; code = key; args = []; extra = [] }

unfoldable pub error_json_args : ℕ → String → List String → ApiError
error_json_args status key args = record { status = status; code = key; args = args; extra = [] }

unfoldable pub error_json_extra : ℕ → String → List (String × ℕ) → ApiError
error_json_extra status key extra = record { status = status; code = key; args = []; extra = extra }

abbrev pub bad_request : ℕ
bad_request = 400

abbrev pub payload_too_large : ℕ
payload_too_large = 413

abbrev pub internal_server_error : ℕ
internal_server_error = 500

-- What ends an upload early: an error response, a panic, or a loop that went on past its fuel.
pub data Fault : Type 0 where
  api : ApiError → Fault
  panicked : Fault
  hung : Fault

-- The fields of `AuthUser` that an upload reads.
pub record AuthUser : Type 0 where
  pub id : Uuid
  pub is_admin : Bool
  pub storage_quota : Option ℕ

pub record StorageConfigInfo : Type 0 where
  pub id : Uuid
  pub name : String
  pub provider : String

pub record ImageRow : Type 0 where
  pub id : Uuid
  pub public_key : String
  pub original_name : String
  pub url : String
  pub mime_type : String
  pub file_size : ℕ
  pub sha256 : String
  pub width : Option ℕ
  pub height : Option ℕ
  pub status : String
  pub thumbnail_url : Option String
  pub webp_url : Option String
  pub created_at : ℕ
  pub category_id : Option Uuid
  pub storage_config_id : Option Uuid
  pub name : Option String
  pub provider : Option String

pub record UploadResult : Type 0 where
  pub id : Uuid
  pub public_key : String
  pub original_name : String
  pub url : String
  pub markdown : String
  pub html : String
  pub bbcode : String
  pub sha256 : String
  pub file_size : ℕ
  pub mime_type : String
  pub width : Option ℕ
  pub height : Option ℕ
  pub status : String
  pub thumbnail_url : Option String
  pub webp_url : Option String
  pub category_id : Option Uuid
  pub created_at : ℕ
  pub storage_config : Option StorageConfigInfo

abbrev pub escape_char : Char → String
escape_char c =
    if code c == b'&'
    then "&amp;"
    else if code c == b'<'
    then "&lt;"
    else if code c == b'>'
    then "&gt;"
    else if code c == b'"'
    then "&quot;"
    else String.◌∷◌ c String.[]

unfoldable pub html_escape : String → String
html_escape String.[] = String.[]
html_escape (String.◌∷◌ c s) = String.◌++◌ (escape_char c) (html_escape s)

unfoldable pub markdown_link : String → String → String
markdown_link name url = "![" ⧺ name ⧺ "](" ⧺ url ⧺ ")"

unfoldable pub html_link : String → String → String
html_link name url = "<img src=\"" ⧺ url ⧺ "\" alt=\"" ⧺ html_escape name ⧺ "\" />"

unfoldable pub bbcode_link : String → String
bbcode_link url = "[img]" ⧺ url ⧺ "[/img]"

abbrev joined_config : Option Uuid → Option String → Option String → Option StorageConfigInfo
joined_config (some id) (some name) (some provider) =
    some (record { id = id; name = name; provider = provider })
joined_config _ _ _ = none

-- `UploadResult::from_row`
unfoldable pub from_row : ImageRow → UploadResult
from_row row = record {
  id = row.id;
  public_key = row.public_key;
  original_name = row.original_name;
  url = row.url;
  markdown = markdown_link row.original_name row.url;
  html = html_link row.original_name row.url;
  bbcode = bbcode_link row.url;
  sha256 = row.sha256;
  file_size = row.file_size;
  mime_type = row.mime_type;
  width = row.width;
  height = row.height;
  status = row.status;
  thumbnail_url = row.thumbnail_url;
  webp_url = row.webp_url;
  category_id = row.category_id;
  created_at = row.created_at;
  storage_config = joined_config row.storage_config_id row.name row.provider;
}
