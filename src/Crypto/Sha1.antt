-- ===== src/Crypto/Sha1.antt =====
-- SHA-1 and HMAC over byte values, as `hmac.new(key, message, hashlib.sha1).digest()`.
use Prim.Native.Nat.{bit_and, bit_or, bit_xor}
use keycloak_oidc4ac_lab.Prelude.{
  ℕ, zero, suc, ◌+◌, ◌-◌, ◌*◌, ◌/◌, ◌%◌, ◌^◌, List, [], ◌∷◌, ◌++◌, map, ltb, length, get_or, take,
  drop, if◌then◌else◌, ◌≡◌, refl, All, ◌<◌, arith,
}

abbrev word : ℕ
word = 2 ^ 32

abbrev not32 : ℕ → ℕ
not32 x = word - 1 - x

-- `x` rotated to the left by `k` places.
abbrev rotl : ℕ → ℕ → ℕ
rotl k x = (x * 2 ^ k) % word + x / 2 ^ (32 - k)

pub record State : Type 0 where
  pub a : ℕ
  pub b : ℕ
  pub c : ℕ
  pub d : ℕ
  pub e : ℕ

-- The function and the constant of round `t`.
abbrev mix : ℕ → State → ℕ
mix t s =
    if ltb t 20
    then bit_or (bit_and s.b s.c) (bit_and (not32 s.b) s.d) + 0x5a827999
    else if ltb t 40
    then bit_xor (bit_xor s.b s.c) s.d + 0x6ed9eba1
    else if ltb t 60
    then bit_or (bit_or (bit_and s.b s.c) (bit_and s.b s.d)) (bit_and s.c s.d) + 0x8f1bbcdc
    else bit_xor (bit_xor s.b s.c) s.d + 0xca62c1d6

abbrev round : ℕ → ℕ → State → State
round t w s = record {
  a = (rotl 5 s.a + mix t s + s.e + w) % word;
  b = s.a;
  c = rotl 30 s.b;
  d = s.c;
  e = s.d;
}

-- The message schedule, the latest word first.
extend : ℕ → List ℕ → List ℕ
extend zero ws = ws
extend (suc n) ws =
    let w = rotl 1 (
      bit_xor (bit_xor (get_or ws 2 0) (get_or ws 7 0))
        (bit_xor (get_or ws 13 0) (get_or ws 15 0))) in
    extend n (w ∷ ws)

rounds : ℕ → List ℕ → State → State
rounds t [] s = s
rounds t (w ∷ ws) s = rounds (t + 1) ws (round t w s)

words : List ℕ → List ℕ
words (a ∷ b ∷ c ∷ d ∷ rest) = (((a * 256 + b) * 256 + c) * 256 + d) ∷ words rest
words _ = []

reverse_onto : List ℕ → List ℕ → List ℕ
reverse_onto acc [] = acc
reverse_onto acc (x ∷ xs) = reverse_onto (x ∷ acc) xs

block : List ℕ → State → State
unfolding extend rounds words reverse_onto
block bytes s =
    let schedule = reverse_onto [] (extend 64 (reverse_onto [] (words bytes))) in
    let r = rounds 0 schedule s in
    record {
      a = (s.a + r.a) % word;
      b = (s.b + r.b) % word;
      c = (s.c + r.c) % word;
      d = (s.d + r.d) % word;
      e = (s.e + r.e) % word;
    }

-- One block of 64 bytes a round; the fuel is the number of blocks.
blocks : ℕ → List ℕ → State → State
unfolding block
blocks zero bytes s = s
blocks (suc n) bytes s = blocks n (drop 64 bytes) (block (take 64 bytes) s)

abbrev start : State
start = record { a = 0x67452301; b = 0xefcdab89; c = 0x98badcfe; d = 0x10325476; e = 0xc3d2e1f0 }

zeros : ℕ → List ℕ
zeros zero = []
zeros (suc n) = 0 ∷ zeros n

abbrev bytes32 : ℕ → List ℕ
bytes32 x = (x / 2 ^ 24) % 256 ∷ (x / 2 ^ 16) % 256 ∷ (x / 2 ^ 8) % 256 ∷ x % 256 ∷ []

-- `struct.pack(">Q", x)`
abbrev pub pack_u64 : ℕ → List ℕ
pack_u64 x = bytes32 (x / 2 ^ 32) ++ bytes32 (x % 2 ^ 32)

padded : List ℕ → List ℕ
unfolding zeros
padded message =
    let n = length message in message ++ (128 ∷ (zeros ((119 - n % 64) % 64) ++ pack_u64 (8 * n)))

abbrev digest : State → List ℕ
digest s = bytes32 s.a ++ bytes32 s.b ++ bytes32 s.c ++ bytes32 s.d ++ bytes32 s.e

unfoldable pub sha1 : List ℕ → List ℕ
unfolding blocks padded
sha1 message = let p = padded message in digest (blocks (length p / 64) p start)

abbrev key_block : List ℕ → List ℕ
key_block key = key ++ zeros (64 - length key)

unfoldable pub hmac_sha1 : List ℕ → List ℕ → List ℕ
unfolding sha1 zeros
hmac_sha1 key message =
    let k = key_block (if ltb 64 (length key) then sha1 key else key) in
    sha1 (map (λ b. bit_xor b 0x5c) k ++ sha1 (map (λ b. bit_xor b 0x36) k ++ message))

-- RFC 3174: SHA-1 of "abc".
sha1-abc :
    sha1 (97 ∷ 98 ∷ 99 ∷ [])
    ≡ 0xa9 ∷ 0x99 ∷ 0x3e ∷ 0x36 ∷ 0x47 ∷ 0x06 ∷ 0x81 ∷ 0x6a ∷ 0xba ∷ 0x3e ∷ 0x25 ∷ 0x71 ∷ 0x78
      ∷ 0x50 ∷ 0xc2 ∷ 0x6c ∷ 0x9c ∷ 0xd0 ∷ 0xd8 ∷ 0x9d ∷ []
unfolding sha1
sha1-abc = refl

-- Twenty byte values.
abbrev pub IsDigest : List ℕ → Type 0
IsDigest d = (length d ≡ 20) × All (λ b. b < 256) d

digest-IsDigest : (s : State) → IsDigest (digest s)
digest-IsDigest s = omega arith

pub hmac_sha1-IsDigest : (key message : List ℕ) → IsDigest (hmac_sha1 key message)
unfolding hmac_sha1
hmac_sha1-IsDigest key message = digest-IsDigest _
