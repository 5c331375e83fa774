-- ===== src/Upload/Url/Blocks.antt =====
-- `is_private_ip` against the address blocks that its comments name.
use pichost.Common.{
  ℕ, ◌+◌, ◌*◌, ◌/◌, ◌^◌, ◌<◌, ◌≡◌, List, [], ◌∷◌, Bool, any, ◌==◌, ◌&&◌, ◌||◌, arith,
}
use pichost.Upload.Url.{is_private_ip, is_within}

-- An address as a 32-bit number.
abbrev pub number : ℕ → ℕ → ℕ → ℕ → ℕ
number a b c d = a * 16777216 + b * 65536 + c * 256 + d

-- A CIDR block: its first address, and how many of the 32 bits are free.
abbrev pub is_in : ℕ → ℕ × ℕ → Bool
is_in n (base, free) = n / 2 ^ free == base / 2 ^ free

abbrev pub reserved : List (ℕ × ℕ)
reserved =
    (number 0 0 0 0, 24)
    ∷ (number 10 0 0 0, 24)
    ∷ (number 127 0 0 0, 24)
    ∷ (number 169 254 0 0, 16)
    ∷ (number 172 16 0 0, 20)
    ∷ (number 192 168 0 0, 16)
    ∷ (number 224 0 0 0, 28)
    ∷ (number 255 255 255 255, 0)
    ∷ (number 100 64 0 0, 22)
    ∷ (number 192 0 0 0, 8)
    ∷ (number 192 0 2 0, 8)
    ∷ (number 198 51 100 0, 8)
    ∷ (number 203 0 113 0, 8)
    ∷ (number 198 18 0 0, 17)
    ∷ []

or_any :
    (p1 p2 p3 p4 p5 p6 p7 p8 p9 p10 p11 p12 p13 p14 : Bool)
    → (p1 || p2 || p3 || p4 || p5 || p6 || p7 || p8 || p9 || p10 || p11 || p12 || p13 || p14)
      ≡ any (λ x. x) (p1 ∷ p2 ∷ p3 ∷ p4 ∷ p5 ∷ p6 ∷ p7 ∷ p8 ∷ p9 ∷ p10 ∷ p11 ∷ p12 ∷ p13 ∷ p14 ∷ [])
or_any p1 p2 p3 p4 p5 p6 p7 p8 p9 p10 p11 p12 p13 p14 = ground arith

all_32 : (a b c d : ℕ) → number a b c d / 1 ≡ number a b c d
all_32 a b c d = omega arith

-- A quotient by a power of two keeps the first bits.
module _ (a b c d : ℕ) (hb : b < 256) (hc : c < 256) (hd : d < 256) where
  first_4 : number a b c d / 2 ^ 28 ≡ a / 16
  first_4 = omega arith

  first_8 : number a b c d / 2 ^ 24 ≡ a
  first_8 = omega arith

  first_10 : number a b c d / 2 ^ 22 ≡ a * 4 + b / 64
  first_10 = omega arith

  first_12 : number a b c d / 2 ^ 20 ≡ a * 16 + b / 16
  first_12 = omega arith

  first_15 : number a b c d / 2 ^ 17 ≡ a * 128 + b / 2
  first_15 = omega arith

  first_16 : number a b c d / 2 ^ 16 ≡ a * 256 + b
  first_16 = omega arith

  first_24 : number a b c d / 2 ^ 8 ≡ a * 65536 + b * 256 + c
  first_24 = omega arith

-- So equal first bits mean equal octets, or an octet within a range.
module _ (a b c d : ℕ) (ha : a < 256) (hb : b < 256) (hc : c < 256) (hd : d < 256) where
  block_4 : (k : ℕ) → (a / 16 == k) ≡ is_within (k * 16) (k * 16 + 15) a
  block_4 k = ground arith

  block_10 : (a * 4 + b / 64 == 401) ≡ (a == 100 && is_within 64 127 b)
  block_10 = ground arith

  block_12 : (a * 16 + b / 16 == 2753) ≡ (a == 172 && is_within 16 31 b)
  block_12 = ground arith

  block_15 : (a * 128 + b / 2 == 25353) ≡ (a == 198 && is_within 18 19 b)
  block_15 = ground arith

  block_16 : (j k : ℕ) → k < 256 → (a * 256 + b == j * 256 + k) ≡ (a == j && b == k)
  block_16 j k hk = ground arith

  block_24 :
      (i j k : ℕ)
      → j < 256
      → k < 256
      → (a * 65536 + b * 256 + c == i * 65536 + j * 256 + k) ≡ (a == i && b == j && c == k)
  block_24 i j k hj hk = ground arith

  block_32 : (number a b c d == 4294967295) ≡ (a == 255 && b == 255 && c == 255 && d == 255)
  block_32 = ground arith

module _ (a b c d : ℕ) (ha : a < 256) (hb : b < 256) (hc : c < 256) (hd : d < 256) where
  tests :
      (a == 0
        || a == 10
        || a == 127
        || (a == 169 && b == 254)
        || (a == 172 && is_within 16 31 b)
        || (a == 192 && b == 168)
        || is_within 224 239 a
        || (a == 255 && b == 255 && c == 255 && d == 255)
        || (a == 100 && is_within 64 127 b)
        || (a == 192 && b == 0 && c == 0)
        || (a == 192 && b == 0 && c == 2)
        || (a == 198 && b == 51 && c == 100)
        || (a == 203 && b == 0 && c == 113)
        || (a == 198 && is_within 18 19 b))
      ≡ any
          (λ x. x)
          ((a == 0)
            ∷ (a == 10)
            ∷ (a == 127)
            ∷ (a * 256 + b == 43518)
            ∷ (a * 16 + b / 16 == 2753)
            ∷ (a * 256 + b == 49320)
            ∷ (a / 16 == 14)
            ∷ (number a b c d == 4294967295)
            ∷ (a * 4 + b / 64 == 401)
            ∷ (a * 65536 + b * 256 + c == 12582912)
            ∷ (a * 65536 + b * 256 + c == 12582914)
            ∷ (a * 65536 + b * 256 + c == 12989284)
            ∷ (a * 65536 + b * 256 + c == 13303921)
            ∷ (a * 128 + b / 2 == 25353)
            ∷ [])
  tests = rw (block_4 a b c d ha hb hc hd 14) (
      rw (block_10 a b c d ha hb hc hd) (
        rw (block_12 a b c d ha hb hc hd) (
          rw (block_15 a b c d ha hb hc hd) (
            rw (block_16 a b c d ha hb hc hd 169 254 (omega arith)) (
              rw (block_16 a b c d ha hb hc hd 192 168 (omega arith)) (
                rw (block_24 a b c d ha hb hc hd 192 0 0 (omega arith) (omega arith)) (
                  rw (block_24 a b c d ha hb hc hd 192 0 2 (omega arith) (omega arith)) (
                    rw (block_24 a b c d ha hb hc hd 198 51 100 (omega arith) (omega arith)) (
                      rw (block_24 a b c d ha hb hc hd 203 0 113 (omega arith) (omega arith)) (
                        rw (block_32 a b c d ha hb hc hd) (
                          or_any (a == 0) (a == 10) (a == 127) (a == 169 && b == 254)
                            (a == 172 && is_within 16 31 b) (a == 192 && b == 168)
                            (is_within 224 239 a) (a == 255 && b == 255 && c == 255 && d == 255)
                            (a == 100 && is_within 64 127 b) (a == 192 && b == 0 && c == 0)
                            (a == 192 && b == 0 && c == 2) (a == 198 && b == 51 && c == 100)
                            (a == 203 && b == 0 && c == 113)
                            (a == 198 && is_within 18 19 b))))))))))))

  -- The test on octets is exactly membership of the 32-bit address in one of the reserved blocks.
  pub is_private_ip-reserved : is_private_ip a b c d ≡ any (is_in (number a b c d)) reserved
  unfolding is_private_ip
  is_private_ip-reserved =
      let four = first_4 a b c d hb hc hd in
      let eight = first_8 a b c d hb hc hd in
      let ten = first_10 a b c d hb hc hd in
      let twelve = first_12 a b c d hb hc hd in
      let fifteen = first_15 a b c d hb hc hd in
      let sixteen = first_16 a b c d hb hc hd in
      let most = first_24 a b c d hb hc hd in
      let whole = all_32 a b c d in
      rw four (rw eight (rw ten (rw twelve (rw fifteen (rw sixteen (rw most (rw whole tests)))))))
