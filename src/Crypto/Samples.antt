-- ===== src/Crypto/Samples.antt =====
-- Concrete ciphers: one that knows one text, and numbers in unary for Base64.
use Prim.Native.Char.{code}
use pichost.Common.{
  ℕ, zero, suc, ◌≡◌, ◌≤◌, refl, ap, ◌∙◌, String, [], ◌∷◌, Option, some, Result, ok, err,
  if◌then◌else◌, ◌==◌, ◌=ₛ◌, eq_iff, replicate, length, arith,
}
use pichost.Upload.{Bytes}
use pichost.TaskQueue.Samples.{write_num}
use pichost.Crypto.{Ciphers}

abbrev pub write : Bytes → String
write [] = ""
write (n ∷ ns) = write_num n (write ns)

abbrev pub bump_first : Bytes → Bytes
bump_first [] = []
bump_first (n ∷ ns) = suc n ∷ ns

unfoldable pub read : String → Bytes
read String.[] = []
read (String.◌∷◌ c s) = let rest = read s in if code c == b'a' then bump_first rest else 0 ∷ rest

read-write_num : (n : ℕ) (s : String) → read (write_num n s) ≡ n ∷ read s
unfolding read write_num
read-write_num zero s = refl
read-write_num (suc n) s = ap bump_first (read-write_num n s)

pub read-write : (ns : Bytes) → read (write ns) ≡ ns
unfolding read
read-write [] = refl
read-write (n ∷ ns) = read-write_num n (write ns) ∙ ap (λ ms. n ∷ ms) (read-write ns)

abbrev pub seal : Bytes → Bytes → String → Result String Bytes
seal key nonce text = if text =ₛ "token" then ok (replicate 16 7) else err "unknown"

pub unseal-seal :
    (key nonce : Bytes) (text : String) (sealed : Bytes)
    → seal key nonce text ≡ ok sealed
    → ◌≡◌ {A = Option String} (some "token") (some text)
unseal-seal key nonce text sealed h = ground (arith, h, eq_iff text "token")

pub length-seal :
    (key nonce : Bytes) (text : String) (sealed : Bytes)
    → seal key nonce text ≡ ok sealed
    → 16 ≤ length sealed
length-seal key nonce text sealed h = ground (arith, h)

abbrev pub ciphers : Ciphers
ciphers = record {
  base64 = write;
  from_base64 = λ s. some (read s);
  from_base64-base64 = λ b. ap some (read-write b);
  Plain = String;
  utf8 = λ s. s;
  from_utf8 = some;
  from_utf8-utf8 = λ s. refl;
  seal = seal;
  unseal = λ key nonce sealed. some "token";
  unseal-seal = unseal-seal;
  length-seal = length-seal;
}

abbrev pub key : Bytes
key = replicate 32 1

abbrev pub nonce : Bytes
nonce = replicate 12 2
