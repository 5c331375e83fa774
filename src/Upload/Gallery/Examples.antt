-- ===== src/Upload/Gallery/Examples.antt =====
-- A listing of three images, two on a page.
use pichost.Common.{ℕ, ◌+◌, ◌^◌, none}
use pichost.Upload.{ImageRow}
use pichost.Upload.Gallery.{ImageListQuery}

abbrev query : ImageListQuery
query = record {
  page = 2;
  per_page = 2;
  sort = "file_size; DROP TABLE images";
  order = "asc";
  search = "";
  storage_config_id = none;
  category_id = none;
}

abbrev image : ℕ → ImageRow
image n = record {
  id = n;
  public_key = "key";
  original_name = "a.png";
  url = "https://img.example/u/key";
  mime_type = "image/png";
  file_size = 30;
  sha256 = "hash";
  width = none;
  height = none;
  status = "active";
  thumbnail_url = none;
  webp_url = none;
  created_at = n;
  category_id = none;
  storage_config_id = none;
  name = none;
  provider = none;
}

abbrev far : ImageListQuery
far = record query { page = 2 ^ 31 + 1 }
