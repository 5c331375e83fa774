-- ===== src/Upload/Url/Laws.antt =====
-- What a download from a URL has checked.
use pichost.Common.{
  ◌≤◌, ◌<◌, ◌≡◌, ◌⊎◌, refl, String, List, [], ◌∷◌, Option, none, some, Bool, true, false, ◌||◌,
  Result, ok, err, any, length, ◌=ₛ◌, arith, inl, inr, Bool-cases, sym, ap, ◌∙◌, subst, eq_iff,
}
use pichost.Prog.{run, ◌>>=◌, pure}
use pichost.Prog.Laws.{run->>=_ok, run->>=_err}
use pichost.Upload.{Bytes, ApiError}
use pichost.Upload.Url.{
  IpAddr, is_private, Libraries, Response, Call, Answer, to_socket_addrs, build_client, get,
  max_redirects, download_timeout_secs, download, fetch_parsed, fetch_image_from_url, max_body_size,
  check_addrs, resolve_and_check_host, validate_url_scheme, fetch_remote_body,
  build_download_client, extract_filename_from_url_str,
}

-- The calls of a run, the last one first, when each is answered by a function.
abbrev pub record_calls : ((c : Call) → Answer c) → (c : Call) → List Call → Answer c × List Call
record_calls answer c log = (answer c, c ∷ log)

abbrev is_get : String → Call → Bool
is_get target (to_socket_addrs host) = false
is_get target (build_client n s) = false
is_get target (get url) = url =ₛ target

-- Whether the client was asked for this URL.
abbrev pub sent_request : String → List Call → Bool
sent_request target log = any (is_get target) log

module _ (libs : Libraries) (answer : (c : Call) → Answer c) where
  -- The resolver gave addresses for the host, and all of them are public.
  abbrev pub IsPublic : String → Type 0
  IsPublic host =
      (addrs : List IpAddr) × (answer (to_socket_addrs host) ≡ ok addrs)
      × (1 ≤ length addrs)
      × (any is_private addrs ≡ false)

  check_addrs-cases :
      (addrs : List IpAddr) (log : List Call)
      → ((run (record_calls answer) (check_addrs addrs) log ≡ (ok tt, log))
          × (any is_private addrs ≡ false))
        ⊎ ((e : ApiError) × (run (record_calls answer) (check_addrs addrs) log ≡ (err e, log)))
  unfolding check_addrs run
  check_addrs-cases [] log = inl (refl, refl)
  check_addrs-cases (ip ∷ addrs) log = elim (Bool-cases (is_private ip)) [
    | inl private ↦ rw private (inr (_, refl))
    | inr public ↦ rw public (check_addrs-cases addrs log)
  ]

  resolve-cases :
      (host : String) (log : List Call) (r : Answer (to_socket_addrs host))
      → answer (to_socket_addrs host) ≡ r
      → let result = run (record_calls answer) (resolve_and_check_host host) log in
        ((result ≡ (ok tt, to_socket_addrs host ∷ log)) × IsPublic host)
        ⊎ ((e : ApiError) × (result ≡ (err e, to_socket_addrs host ∷ log)))
  unfolding resolve_and_check_host run
  resolve-cases host log (err x) e = rw e (inr (_, refl))
  resolve-cases host log (ok []) e = rw e (inr (_, refl))
  resolve-cases host log (ok (ip ∷ addrs)) e =
      rw e (elim (check_addrs-cases (ip ∷ addrs) (to_socket_addrs host ∷ log)) [
        | inl (r, h) ↦ inl (r, (ip ∷ addrs, refl, omega arith, h))
        | inr z ↦ inr z
      ])

  -- What has been checked of a parsed URL before a request.
  abbrev IsSafe : String → libs.Url → Type 0
  IsSafe url u =
      (host : String) × (libs.parse url ≡ ok u)
      × ((libs.scheme u =ₛ "http" || libs.scheme u =ₛ "https") ≡ true)
      × (libs.host_str u ≡ some host)
      × IsPublic host

  -- The target of a request is the text of the parsed URL, which has been checked.
  abbrev pub IsChecked : String → String → Type 0
  IsChecked url target = (u : libs.Url) × (libs.as_str u ≡ target) × IsSafe url u

  abbrev pub IsAccepted : Response → Bytes → Type 0
  IsAccepted response bytes =
      (200 ≤ response.status)
      × (response.status < 300)
      × (response.body ≡ ok bytes)
      × (length bytes ≤ max_body_size)
      × (libs.is_image bytes ≡ true)

  -- What has been checked of the bytes that a download returns.
  abbrev pub IsImage : String → Bytes → Type 0
  IsImage url bytes =
      (u : libs.Url) × (response : Response) × (libs.parse url ≡ ok u)
      × (answer (get (libs.as_str u)) ≡ ok response)
      × IsAccepted response bytes

  validate-cases :
      (url : String) (u : libs.Url)
      → validate_url_scheme libs url ≡ ok u
      → (libs.parse url ≡ ok u) × ((libs.scheme u =ₛ "http" || libs.scheme u =ₛ "https") ≡ true)
  unfolding validate_url_scheme
  validate-cases url u h = ground (arith, h)

  body-cases :
      (url : String) (bytes : Bytes) (log d' : List Call) (r : Answer (get url))
      → answer (get url) ≡ r
      → run (record_calls answer) (fetch_remote_body libs url) log ≡ (ok bytes, d')
      → (response : Response) × (answer (get url) ≡ ok response) × IsAccepted response bytes
  unfolding fetch_remote_body run
  body-cases url bytes log d' (err x) e h = absurd (ground (arith, e, h))
  body-cases url bytes log d' (ok response) e h = (response, e, ground (arith, e, h))

  fetch-log :
      (url : String) (log : List Call) (r : Answer (get url))
      → answer (get url) ≡ r
      → (run (record_calls answer) (fetch_remote_body libs url) log).1 ≡ get url ∷ log
  unfolding fetch_remote_body run
  fetch-log url log (err x) e = ground (arith, e)
  fetch-log url log (ok response) e = ground (arith, e)

  -- The only request of a download's body is to its URL.
  asked :
      (url target : String) (log log' : List Call) (r : Result ApiError Bytes)
      → run (record_calls answer) (fetch_remote_body libs url) log ≡ (r, log')
      → sent_request target log ≡ false
      → sent_request target log' ≡ true
      → url ≡ target
  asked url target log log' r h quiet k =
      let e : log' ≡ get url ∷ log =
        sym (ap (λ (x : Result ApiError Bytes × List Call). x.1) h) ∙ fetch-log url log _ refl in
      let sent = subst (λ l. sent_request target l ≡ true) e k in
      ground (arith, quiet, sent, eq_iff url target)

  Outcome : String → Result ApiError (Bytes × String) × List Call → Type 0
  Outcome url (r, log) =
      ((target : String) → sent_request target log ≡ true → IsChecked url target)
      × ((bytes : Bytes) (name : String) → r ≡ ok (bytes, name) → IsImage url bytes)

  silent :
      (url : String) (e : ApiError) (log : List Call)
      → ((target : String) → sent_request target log ≡ false)
      → Outcome url (err e, log)
  unfolding Outcome
  silent url e log h =
      (λ target k. absurd (ground (arith, h target, k)), λ bytes name k. absurd (ground (arith, k)))

  named :
      (url : String) (u : libs.Url) (r : Result ApiError Bytes) (log log' : List Call)
      → libs.parse url ≡ ok u
      → IsSafe url u
      → ((target : String) → sent_request target log ≡ false)
      → run (record_calls answer) (fetch_remote_body libs (libs.as_str u)) log ≡ (r, log')
      → Outcome url (
          run
            (record_calls answer)
            (fetch_remote_body libs (libs.as_str u) >>= λ bytes.
              pure (bytes, extract_filename_from_url_str libs u))
            log)
  unfolding Outcome run
  named url u (ok bytes) log log' p safe quiet h =
      rw
        (run->>=_ok (record_calls answer) (fetch_remote_body libs (libs.as_str u)) _ log log' bytes
          h)
        (
          λ target k. (u, asked (libs.as_str u) target log log' _ h (quiet target) k, safe),
          λ bytes' name k.
              let (response, got, accepted) = body-cases (libs.as_str u) bytes log log' _ refl h in
              (u, response, p, got, ground (arith, accepted, k)),
        )
  named url u (err e) log log' p safe quiet h =
      rw (run->>=_err (record_calls answer) (fetch_remote_body libs (libs.as_str u)) _ log log' e h)
        (
          λ target k. (u, asked (libs.as_str u) target log log' _ h (quiet target) k, safe),
          λ bytes name k. absurd (ground (arith, k)),
        )

  download-Outcome :
      (url : String) (u : libs.Url) (log : List Call) (r : Result String (Unit {0}))
      → answer (build_client max_redirects download_timeout_secs) ≡ r
      → ((target : String) → sent_request target log ≡ false)
      → libs.parse url ≡ ok u
      → IsSafe url u
      → Outcome url (run (record_calls answer) (download libs u) log)
  unfolding download build_download_client run
  download-Outcome url u log (err e) b quiet p checked = rw b (silent url _ _ quiet)
  download-Outcome url u log (ok _) b quiet p checked =
      rw b (named url u _ _ _ p checked quiet refl)

  fetch-Outcome :
      (url : String) (u : libs.Url) (o : Option String)
      → libs.host_str u ≡ o
      → libs.parse url ≡ ok u
      → ((libs.scheme u =ₛ "http" || libs.scheme u =ₛ "https") ≡ true)
      → Outcome url (run (record_calls answer) (fetch_parsed libs u) [])
  unfolding fetch_parsed run
  fetch-Outcome url u none h p scheme = rw h (silent url _ _ (λ t. refl))
  fetch-Outcome url u (some host) h p scheme = rw h (elim (resolve-cases host [] _ refl) [
    | inl (done, public) ↦
        rw (run->>=_ok (record_calls answer) (resolve_and_check_host host) _ _ _ _ done)
          (download-Outcome url u _ _ refl (λ t. refl) p (host, p, scheme, h, public))
    | inr (e, failed) ↦
        rw (run->>=_err (record_calls answer) (resolve_and_check_host host) _ _ _ _ failed)
          (silent url _ _ (λ t. refl))
  ])

  parsed-Outcome :
      (url : String) (v : Result ApiError libs.Url)
      → validate_url_scheme libs url ≡ v
      → Outcome url (run (record_calls answer) (fetch_image_from_url libs url) [])
  unfolding fetch_image_from_url run
  parsed-Outcome url (err e) h = rw h (silent url _ _ (λ t. refl))
  parsed-Outcome url (ok u) h =
      rw h (let (p, scheme) = validate-cases url u h in fetch-Outcome url u _ refl p scheme)

  -- However the resolver and the web server answer, the HTTP client is asked for no URL but the
  -- text of the given one as parsed, and only if its scheme is http or https and its host was
  -- resolved before to at least one address, none of which `is_private` finds private. (Not
  -- covered: where the client is redirected to, and what it resolves the host to itself. Private
  -- IPv4 addresses mapped into IPv6 pass `is_private`.)
  pub fetch_image_from_url-IsChecked :
      (url target : String)
      → sent_request target (run (record_calls answer) (fetch_image_from_url libs url) []).1 ≡ true
      → IsChecked url target
  unfolding Outcome
  fetch_image_from_url-IsChecked url target h = (parsed-Outcome url _ refl).0 target h

  -- What a download returns is the body of a successful response to the parsed URL, at most 50 MB
  -- long, and an image.
  pub fetch_image_from_url-IsImage :
      (url : String) (bytes : Bytes) (name : String)
      → (run (record_calls answer) (fetch_image_from_url libs url) []).0 ≡ ok (bytes, name)
      → IsImage url bytes
  unfolding Outcome
  fetch_image_from_url-IsImage url bytes name h = (parsed-Outcome url _ refl).1 bytes name h
