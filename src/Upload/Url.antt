-- ===== src/Upload/Url.antt =====
-- Uploading from a URL: pichost-api/src/services/upload_url.rs. The `url` crate's parser, and the
-- test `infer::is_image`, are the parameter `Libraries`. Names are resolved and HTTP requests are
-- made by calls. The client is built with a number of redirects and a time limit; a call of `get` is
-- the request that is handed to it, and the redirects that it follows then are inside that call.
pub mod Blocks
pub mod Laws
mod Examples
use pichost.Common.{
  ℕ, ◌/◌, String, List, [], ◌∷◌, Option, none, some, Bool, true, false, not, ◌&&◌, ◌||◌, Result, ok,
  err, map_err, ok_or, leb, ltb, length, any, ◌==◌, ◌=ₛ◌, if◌then◌else◌, get_or,
}
use pichost.Prog.{Prog, ret, send, ◌>>=◌, ◌>>◌, pure, throw}
use pichost.Upload.{Bytes, ApiError, error_json, error_json_args, bad_request}

abbrev pub max_redirects : ℕ
max_redirects = 5

abbrev pub download_timeout_secs : ℕ
download_timeout_secs = 30

abbrev pub max_body_size : ℕ
max_body_size = 52428800

unfoldable pub api_err : String → List String → ApiError
api_err key [] = error_json bad_request key
api_err key (a ∷ args) = error_json_args bad_request key (a ∷ args)

pub data IpAddr : Type 0 where
  v4 : (a b c d : ℕ) → IpAddr
  v6 : (s0 s1 s2 s3 s4 s5 s6 s7 : ℕ) → IpAddr

abbrev pub is_within : ℕ → ℕ → ℕ → Bool
is_within low high n = leb low n && leb n high

unfoldable pub is_private_ip : ℕ → ℕ → ℕ → ℕ → Bool
is_private_ip a b c d =
    a == 0
    || a == 10
    || a == 127
    || (a == 169 && b == 254)
    || (a == 172 && is_within 16 31 b)
    || (a == 192 && b == 168)
    || is_within 224 239 a
    || (a == 255 && b == 255 && c == 255 && d == 255)
    || (a == 100 && is_within 64 127 b)
    || (a == 192 && b == 0 && c == 0)
    || (a == 192 && b == 0 && c == 2)
    || (a == 198 && b == 51 && c == 100)
    || (a == 203 && b == 0 && c == 113)
    || (a == 198 && is_within 18 19 b)

-- The masks of the source keep the first bits of a 16-bit segment, as the divisions do.
unfoldable pub is_private : IpAddr → Bool
unfolding is_private_ip
is_private (v4 a b c d) = is_private_ip a b c d
is_private (v6 s0 s1 s2 s3 s4 s5 s6 s7) =
    let zeros = s0 == 0 && s1 == 0 && s2 == 0 && s3 == 0 && s4 == 0 && s5 == 0 && s6 == 0 in
    (zeros && s7 == 1)
    || s0 / 256 == 255
    || (zeros && s7 == 0)
    || s0 / 512 == 126
    || s0 / 64 == 1018

pub record Libraries : Type 1 where
  pub Url : Type 0
  pub parse : String → Result String Url
  pub scheme : Url → String
  pub host_str : Url → Option String
  pub as_str : Url → String
  pub path_segments : Url → Option (List String)
  pub is_image : Bytes → Bool
  pub show_num : ℕ → String
  pub canonical_reason : ℕ → Option String

pub data RequestError : Type 0 where
  timeout : RequestError
  connect : String → RequestError
  redirect : RequestError
  failed : String → RequestError

pub record Response : Type 0 where
  pub status : ℕ
  pub content_length : Option ℕ
  pub body : Result String Bytes

pub data Call : Type 0 where
  to_socket_addrs : (host : String) → Call
  build_client : (max_redirects timeout_secs : ℕ) → Call
  get : (url : String) → Call

abbrev pub Answer : Call → Type 0
Answer (to_socket_addrs host) = Result String (List IpAddr)
Answer (build_client n s) = Result String (Unit {0})
Answer (get url) = Result RequestError Response

abbrev pub Fetch : Type 0 → Type 0
Fetch A = Prog Call Answer (Result ApiError A)

abbrev or_err : {A : Type 0} → String → Result String A → Fetch A
or_err key r = ret (map_err (λ e. api_err key (e ∷ [])) r)

abbrev guard : Bool → ApiError → Fetch (Unit {0})
guard true e = pure tt
guard false e = throw e

-- The loop over the addresses returns at the first that is private.
unfoldable pub check_addrs : List IpAddr → Fetch (Unit {0})
check_addrs [] = pure tt
check_addrs (ip ∷ addrs) =
    let rest = check_addrs addrs in
    if is_private ip then throw (api_err "url.ssrf_blocked" []) else rest

abbrev check_some : List IpAddr → Fetch (Unit {0})
check_some [] = throw (api_err "url.no_addresses" [])
check_some (ip ∷ addrs) = check_addrs (ip ∷ addrs)

unfoldable pub resolve_and_check_host : String → Fetch (Unit {0})
unfolding check_addrs
resolve_and_check_host host = do
  addrs ← send (to_socket_addrs host) (or_err "url.resolve_failed")
  check_some addrs

unfoldable pub request_error : RequestError → ApiError
request_error timeout = api_err "url.timed_out" []
request_error (connect e) = api_err "url.connect_failed" (e ∷ [])
request_error redirect = api_err "url.too_many_redirects" []
request_error (failed e) = api_err "url.download_failed" (e ∷ [])

unfoldable pub build_download_client : Fetch (Unit {0})
build_download_client =
    send (build_client max_redirects download_timeout_secs) (or_err "url.client_failed")

-- `Iterator::next_back`
abbrev last : List String → Option String
last [] = none
last (x ∷ []) = some x
last (x ∷ y ∷ xs) = last (y ∷ xs)

abbrev last_segment : Option (List String) → Option String
last_segment none = none
last_segment (some segments) = last segments

abbrev or_image : Option String → String
or_image none = "image"
or_image (some s) = if s =ₛ "" then "image" else s

module _ (libs : Libraries) where
  open libs use {Url, parse, scheme, host_str, as_str, path_segments, is_image, show_num}

  abbrev check_scheme : Url → Result ApiError Url
  check_scheme parsed =
      if scheme parsed =ₛ "http" || scheme parsed =ₛ "https"
      then ok parsed
      else err (api_err "url.unsupported_scheme" (scheme parsed ∷ []))

  abbrev check_parsed : Result String Url → Result ApiError Url
  check_parsed (err e) = err (api_err "url.invalid" (e ∷ []))
  check_parsed (ok parsed) = check_scheme parsed

  unfoldable pub validate_url_scheme : String → Result ApiError Url
  validate_url_scheme url_str = check_parsed (parse url_str)

  unfoldable pub extract_filename_from_url_str : Url → String
  extract_filename_from_url_str url = or_image (last_segment (path_segments url))

  unfoldable pub fetch_remote_body : String → Fetch Bytes
  fetch_remote_body url = do
    response ← send (get url) (λ r. ret (map_err request_error r))
    guard (leb 200 response.status && ltb response.status 300) (
        api_err "url.server_error" (
          show_num response.status ∷ get_or (libs.canonical_reason response.status) "unknown" ∷ []))
    guard (leb (get_or response.content_length 0) max_body_size)
        (api_err "url.too_large" (show_num (get_or response.content_length 0) ∷ []))
    bytes ← or_err "url.body_failed" response.body
    guard (leb (length bytes) max_body_size)
        (api_err "url.too_large" (show_num (length bytes) ∷ []))
    guard (is_image bytes) (api_err "url.not_an_image" [])
    pure bytes

  unfoldable pub download : Url → Fetch (Bytes × String)
  unfolding build_download_client fetch_remote_body
  download parsed = do
    build_download_client
    bytes ← fetch_remote_body (as_str parsed)
    pure (bytes, extract_filename_from_url_str parsed)

  unfoldable pub fetch_parsed : Url → Fetch (Bytes × String)
  unfolding resolve_and_check_host download
  fetch_parsed parsed = do
    host ← ret (ok_or (host_str parsed) (api_err "url.no_host" []))
    resolve_and_check_host host
    download parsed

  unfoldable pub fetch_image_from_url : String → Fetch (Bytes × String)
  unfolding fetch_parsed
  fetch_image_from_url url = do parsed ← ret (validate_url_scheme url); fetch_parsed parsed
