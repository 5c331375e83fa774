-- ===== src/Crypto/Examples.antt =====
-- A token, encrypted and decrypted.
use pichost.Common.{◌≡◌, refl, ok, replicate, ◌++◌}
use pichost.Crypto.{encrypt_token, decrypt_token, decrypt_token-encrypt_token}
use pichost.Crypto.Samples.{ciphers, write, key, nonce}

decrypt_token-encrypt_token_example :
    decrypt_token ciphers (write (replicate 12 2 ++ replicate 16 7)) key ≡ ok "token"
unfolding encrypt_token
decrypt_token-encrypt_token_example =
    decrypt_token-encrypt_token ciphers "token" key nonce (write (replicate 12 2 ++ replicate 16 7))
      refl refl
