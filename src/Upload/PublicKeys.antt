-- ===== src/Upload/PublicKeys.antt =====
-- The random key of a new image, its URL, and the answer to a backend's error.
use pichost.Common.{ℕ, zero, suc, ◌/◌, ◌%◌, ◌^◌, String, [], ◌∷◌, ◌==◌, ◌=ₛ◌, if◌then◌else◌}
use pichost.Prog.{send, ◌>>=◌, pure, throw}
use pichost.Storage.{
  StorageError, not_found, write_failed, read_failed, connection_failed, config, payload_too_large,
  display, Backend, backend_name, public_url, trim_slashes, ◌⧺◌,
}
use pichost.Upload.{
  ApiError, error_json_args, payload_too_large as too_large_status, internal_server_error, hung,
}
use pichost.Upload.Calls.{key_exists, random_u32}
use pichost.Upload.Checks.{Request, or_internal}

abbrev hex_digit : ℕ → String
hex_digit n =
    if n == 0
    then "0"
    else if n == 1
    then "1"
    else if n == 2
    then "2"
    else if n == 3
    then "3"
    else if n == 4
    then "4"
    else if n == 5
    then "5"
    else if n == 6
    then "6"
    else if n == 7
    then "7"
    else if n == 8
    then "8"
    else if n == 9
    then "9"
    else if n == 10
    then "a"
    else if n == 11
    then "b"
    else if n == 12
    then "c"
    else if n == 13
    then "d"
    else if n == 14
    then "e"
    else "f"

-- `format!("{:06x}", n & 0xFFFFFF)`
unfoldable pub hex6 : ℕ → String
hex6 n =
    hex_digit (n / 2 ^ 20 % 16)
    ⧺ hex_digit (n / 2 ^ 16 % 16)
    ⧺ hex_digit (n / 2 ^ 12 % 16)
    ⧺ hex_digit (n / 2 ^ 8 % 16)
    ⧺ hex_digit (n / 2 ^ 4 % 16)
    ⧺ hex_digit (n % 16)

-- The loop of `generate_public_key`, with the most rounds that it may take.
unfoldable pub generate_public_key : ℕ → Request String
unfolding hex6
generate_public_key zero = throw hung
generate_public_key (suc rounds) =
    let again = generate_public_key rounds in
    do
      n ← send random_u32 pure
      let key = hex6 n
      taken ← send (key_exists key) or_internal
      if taken then again else pure key

abbrev detail_error : StorageError → ApiError
detail_error e =
    error_json_args internal_server_error "common.internal_error_detail" (display e ∷ [])

unfoldable pub storage_error_response : StorageError → ApiError
storage_error_response (payload_too_large m) =
    error_json_args too_large_status "storage_payload_too_large" (m ∷ [])
storage_error_response (not_found m) = detail_error (not_found m)
storage_error_response (write_failed m) = detail_error (write_failed m)
storage_error_response (read_failed m) = detail_error (read_failed m)
storage_error_response (connection_failed m) = detail_error (connection_failed m)
storage_error_response (config m) = detail_error (config m)

abbrev pub image_url : String → Backend → String → String → String
image_url base storage public_key storage_key =
    if backend_name storage =ₛ "local"
    then trim_slashes base ⧺ "/u/" ⧺ public_key
    else public_url storage storage_key
