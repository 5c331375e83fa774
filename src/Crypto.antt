-- ===== src/Crypto.antt =====
-- Encryption of the tokens that a storage configuration holds: pichost-core/src/crypto.rs. The
-- AES-256-GCM cipher, Base64 and UTF-8 are libraries, the parameter `Ciphers`; the nonce that the
-- code draws is an argument.
pub mod Samples
mod Examples
use Prim.Native.Char.{Char}
use Prim.Native.String
use pichost.Storage.{◌⧺◌}
use pichost.Common.{
  ◌-◌, leb, byte_length, byte_width, ℕ, zero, suc, ◌+◌, ◌≤◌, ◌≡◌, refl, ap, String, List, [], ◌∷◌,
  ◌++◌, Option, none, some, Result, ok, err, ltb, ◌==◌, length, take, drop, if◌then◌else◌, arith,
  length-append,
}
use pichost.Upload.{Bytes}

pub data CryptoError : Type 0 where
  encrypt_failed : String → CryptoError
  decrypt_failed : CryptoError
  invalid_key : ℕ → CryptoError

-- The libraries, and what they promise: what is written is read back, and the cipher adds a tag
-- of 16 bytes. `Plain` are the bytes of a text.
pub record Ciphers : Type 1 where
  pub base64 : Bytes → String
  pub from_base64 : String → Option Bytes
  pub from_base64-base64 : (b : Bytes) → from_base64 (base64 b) ≡ some b
  pub Plain : Type 0
  pub utf8 : String → Plain
  pub from_utf8 : Plain → Option String
  pub from_utf8-utf8 : (s : String) → from_utf8 (utf8 s) ≡ some s
  pub seal : (key nonce : Bytes) (text : Plain) → Result String Bytes
  pub unseal : (key nonce sealed : Bytes) → Option Plain
  pub unseal-seal :
      (key nonce : Bytes) (text : Plain) (sealed : Bytes)
      → seal key nonce text ≡ ok sealed
      → unseal key nonce sealed ≡ some text
  pub length-seal :
      (key nonce : Bytes) (text : Plain) (sealed : Bytes)
      → seal key nonce text ≡ ok sealed
      → 16 ≤ length sealed

abbrev pub nonce_size : ℕ
nonce_size = 12

abbrev encoded : (Bytes → String) → Bytes → Result String Bytes → Result CryptoError String
encoded base64 nonce (err e) = err (encrypt_failed e)
encoded base64 nonce (ok ciphertext) = ok (base64 (nonce ++ ciphertext))

abbrev or_decrypt : {A : Type 0} → Option A → Result CryptoError A
or_decrypt none = err decrypt_failed
or_decrypt (some a) = ok a

module _ (ciphers : Ciphers) where
  open ciphers use {base64, from_base64, utf8, from_utf8, seal, unseal}

  -- `Aes256Gcm::new_from_slice` refuses a key of another length.
  unfoldable pub encrypt_token : String → Bytes → Bytes → Result CryptoError String
  encrypt_token plaintext key nonce =
      if length key == 32
      then encoded base64 nonce (seal key nonce (utf8 plaintext))
      else err (invalid_key (length key))

  abbrev text_of : Option ciphers.Plain → Result CryptoError String
  text_of none = err decrypt_failed
  text_of (some plaintext) = or_decrypt (from_utf8 plaintext)

  abbrev opened : Bytes → Option Bytes → Result CryptoError String
  opened key none = err decrypt_failed
  opened key (some combined) =
      if ltb (length combined) (nonce_size + 16)
      then err decrypt_failed
      else text_of (unseal key (take nonce_size combined) (drop nonce_size combined))

  unfoldable pub decrypt_token : String → Bytes → Result CryptoError String
  decrypt_token text key =
      if length key == 32 then opened key (from_base64 text) else err (invalid_key (length key))

  abbrev checked_key : Option Bytes → Result CryptoError Bytes
  checked_key none = err (invalid_key 0)
  checked_key (some bytes) =
      if length bytes == 32 then ok bytes else err (invalid_key (length bytes))

  unfoldable pub decode_key : String → Result CryptoError Bytes
  decode_key text = checked_key (from_base64 text)

-- `&text[..n]` and `&text[n..]` panic where `n` is not between two characters.
abbrev put : Char → Option String → Option String
put c none = none
put c (some s) = some (String.◌∷◌ c s)

abbrev up_to : ℕ → String → Option String
up_to n String.[] = if n == 0 then some "" else none
up_to n (String.◌∷◌ c s) =
    let rest = up_to (n - byte_width c) s in
    if n == 0 then some "" else if ltb n (byte_width c) then none else put c rest

abbrev from : ℕ → String → Option String
from n String.[] = if n == 0 then some "" else none
from n (String.◌∷◌ c s) =
    let rest = from (n - byte_width c) s in
    if n == 0 then some (String.◌∷◌ c s) else if ltb n (byte_width c) then none else rest

abbrev stars : Option String → Option String → Option String
stars none b = none
stars (some a) none = none
stars (some a) (some b) = some (a ⧺ "****" ⧺ b)

-- `none` is a panic.
unfoldable pub mask_token : String → Option String
mask_token token =
    if leb (byte_length token) 8
    then some "****"
    else stars (up_to 4 token) (from (byte_length token - 4) token)

take-append : {A : Type 0} (n : ℕ) (xs ys : List A) → length xs ≡ n → take n (xs ++ ys) ≡ xs
take-append zero [] ys h = refl
take-append zero (x ∷ xs) ys h = absurd (omega arith)
take-append (suc n) [] ys h = absurd (omega arith)
take-append (suc n) (x ∷ xs) ys h = ap (λ zs. x ∷ zs) (take-append n xs ys (omega arith))

drop-append : {A : Type 0} (n : ℕ) (xs ys : List A) → length xs ≡ n → drop n (xs ++ ys) ≡ ys
drop-append zero [] ys h = refl
drop-append zero (x ∷ xs) ys h = absurd (omega arith)
drop-append (suc n) [] ys h = absurd (omega arith)
drop-append (suc n) (x ∷ xs) ys h = drop-append n xs ys (omega arith)

module _ (ciphers : Ciphers) where
  opens :
      (plaintext : String) (key nonce : Bytes) (sealed : Bytes)
      → ciphers.seal key nonce (ciphers.utf8 plaintext) ≡ ok sealed
      → length nonce ≡ nonce_size
      → opened ciphers key (some (nonce ++ sealed)) ≡ ok plaintext
  opens plaintext key nonce sealed s n = rw (take-append nonce_size nonce sealed n) (
      rw (drop-append nonce_size nonce sealed n) (
        ground (
          arith,
          length-append nonce sealed,
          n,
          ciphers.length-seal key nonce _ sealed s,
          ciphers.unseal-seal key nonce _ sealed s,
          ciphers.from_utf8-utf8 plaintext,
        )))

  -- A token that is encrypted with a key and a nonce of 12 bytes is decrypted again with this key.
  pub decrypt_token-encrypt_token :
      (plaintext : String) (key nonce : Bytes) (text : String)
      → length nonce ≡ nonce_size
      → encrypt_token ciphers plaintext key nonce ≡ ok text
      → decrypt_token ciphers text key ≡ ok plaintext
  unfolding encrypt_token decrypt_token
  decrypt_token-encrypt_token plaintext key nonce text n h =
      at (ciphers.seal key nonce (ciphers.utf8 plaintext)) refl
    where
      at :
          (r : Result String Bytes)
          → ciphers.seal key nonce (ciphers.utf8 plaintext) ≡ r
          → decrypt_token ciphers text key ≡ ok plaintext
      at (err e) s = absurd (ground (arith, h, s))
      at (ok sealed) s = ground (
        arith,
        h,
        s,
        opens plaintext key nonce sealed s n,
        ciphers.from_base64-base64 (nonce ++ sealed),
      )
