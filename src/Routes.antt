-- ===== src/Routes.antt =====
-- HTTP handlers of pichost-api/src/routes. A handler is a program that sends SQL statements and
-- returns its answer or an error body; the framework's extractors have run before it.
pub mod Categories
pub mod StorageConfigs
pub mod Images
pub mod Users
use pichost.Common.{String, ℕ}

-- What `db_error_kind` (pichost-core/src/db.rs) tells apart, with the error's text.
pub data DbError : Type 0 where
  unique_violation : String → DbError
  other : String → DbError

abbrev pub db_message : DbError → String
db_message (unique_violation e) = e
db_message (other e) = e

abbrev pub not_found : ℕ
not_found = 404

abbrev pub conflict : ℕ
conflict = 409
