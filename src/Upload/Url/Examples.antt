-- ===== src/Upload/Url/Examples.antt =====
-- A download of a one-byte image, and addresses.
use pichost.Common.{
  String, [], ◌∷◌, none, some, true, false, ok, err, refl, ◌≡◌, ◌=ₛ◌, if◌then◌else◌, any, arith,
  ◌==◌, length,
}
use pichost.Prog.{run}
use pichost.Upload.Url.{
  v4, v6, is_private, is_private_ip, Libraries, Call, Answer, to_socket_addrs, build_client, get,
  fetch_image_from_url, validate_url_scheme, extract_filename_from_url_str,
}
use pichost.Upload.Url.Blocks.{number, is_in, reserved, is_private_ip-reserved}
use pichost.Upload.Url.Laws.{
  IsChecked, IsImage, fetch_image_from_url-IsChecked, fetch_image_from_url-IsImage,
}

abbrev libs : Libraries
libs = record {
  Url = String;
  parse = λ s. if s =ₛ "" then err "empty host" else ok s;
  scheme = λ u. "https";
  host_str = λ u. some "img.example";
  as_str = λ u. u;
  path_segments = λ u. some ("a" ∷ "cat.png" ∷ []);
  is_image = λ b. length b == 1;
  show_num = λ n. "n";
  canonical_reason = λ n. none;
}

abbrev answer : (c : Call) → Answer c
answer (to_socket_addrs host) = ok (v4 93 184 216 34 ∷ [])
answer (build_client n s) = ok tt
answer (get url) = ok (record { status = 200; content_length = some 1; body = ok (137 ∷ []) })

abbrev address : String
address = "https://img.example/a/cat.png"

is_private_ip-reserved_example :
    is_private_ip 172 31 255 254 ≡ any (is_in (number 172 31 255 254)) reserved
is_private_ip-reserved_example =
    is_private_ip-reserved 172 31 255 254 (omega arith) (omega arith) (omega arith) (omega arith)

fetch_image_from_url-IsChecked_example : IsChecked libs answer address address
unfolding run fetch_image_from_url validate_url_scheme is_private
fetch_image_from_url-IsChecked_example =
    fetch_image_from_url-IsChecked libs answer address address refl

fetch_image_from_url-IsImage_example : IsImage libs answer address (137 ∷ [])
unfolding run fetch_image_from_url validate_url_scheme is_private extract_filename_from_url_str
fetch_image_from_url-IsImage_example =
    fetch_image_from_url-IsImage libs answer address (137 ∷ []) "cat.png" refl

-- Addresses that the tests of the source name.
local_is_private : is_private (v4 127 0 0 1) ≡ true
unfolding is_private
local_is_private = refl

public_is_not : is_private (v4 93 184 216 34) ≡ false
unfolding is_private
public_is_not = refl

-- An IPv4 address of a private network, mapped into IPv6, counts as public.
mapped_is_not : is_private (v6 0 0 0 0 0 65535 2560 1) ≡ false
unfolding is_private
mapped_is_not = refl
