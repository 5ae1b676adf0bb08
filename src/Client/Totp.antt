-- ===== src/Client/Totp.antt =====
-- `current_totp` of test-client/app.py: the RFC 6238 code of the disposable credential.
pub mod Rfc
use keycloak_oidc4ac_lab.Prelude.{
  ℕ, ◌+◌, ◌-◌, ◌*◌, ◌/◌, ◌%◌, ◌^◌, List, [], ◌∷◌, take, drop, get_or, length, ◌≡◌, refl, map,
}
use keycloak_oidc4ac_lab.Crypto.Sha1.{hmac_sha1, pack_u64}

-- `struct.unpack(">I", chunk)[0]` for a chunk of four bytes.
abbrev pub unpack_u32 : List ℕ → ℕ
unpack_u32 chunk =
    ((get_or chunk 0 0 * 256 + get_or chunk 1 0) * 256 + get_or chunk 2 0) * 256 + get_or chunk 3 0

-- `digest[-1] & 0x0F`, of a digest of 20 bytes
unfoldable pub truncation_offset : List ℕ → ℕ
truncation_offset digest = get_or digest 19 0 % 16

-- `digest[offset : offset + 4]`
unfoldable pub truncation_chunk : List ℕ → List ℕ
truncation_chunk digest = take 4 (drop (truncation_offset digest) digest)

-- `… & 0x7FFFFFFF`
unfoldable pub truncate : List ℕ → ℕ
unfolding truncation_chunk truncation_offset
truncate digest = unpack_u32 (truncation_chunk digest) % 2 ^ 31

-- `f"{value:06d}"` for a value below a million: six decimal digits, the most significant first.
unfoldable pub six_digits : ℕ → List ℕ
six_digits n =
    (48 + n / 100000 % 10)
    ∷ (48 + n / 10000 % 10)
    ∷ (48 + n / 1000 % 10)
    ∷ (48 + n / 100 % 10)
    ∷ (48 + n / 10 % 10)
    ∷ (48 + n % 10)
    ∷ []

-- The code of an interval of 30 seconds.
unfoldable pub totp_code : List ℕ → ℕ → List ℕ
unfolding hmac_sha1 truncate six_digits
totp_code secret counter = six_digits (truncate (hmac_sha1 secret (pack_u64 counter)) % 1000000)

pub record Code : Type 0 where
  pub digits : List ℕ
  pub remaining : ℕ

-- `now` is the whole number of seconds since the epoch.
unfoldable pub current_totp : List ℕ → ℕ → Code
unfolding totp_code
current_totp secret now = record { digits = totp_code secret (now / 30); remaining = 30 - now % 30 }

-- RFC 6238, appendix B: at 59 seconds the code of the test secret ends in 287082.
rfc6238_vector :
    current_totp
      (map
        (λ d. 48 + d)
        (1 ∷ 2 ∷ 3 ∷ 4 ∷ 5 ∷ 6 ∷ 7 ∷ 8 ∷ 9 ∷ 0 ∷ 1 ∷ 2 ∷ 3 ∷ 4 ∷ 5 ∷ 6 ∷ 7 ∷ 8 ∷ 9 ∷ 0 ∷ []))
      59
    ≡ record { digits = map (λ d. 48 + d) (2 ∷ 8 ∷ 7 ∷ 0 ∷ 8 ∷ 2 ∷ []); remaining = 1 }
unfolding current_totp
rfc6238_vector = refl
