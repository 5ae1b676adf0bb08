-- ===== src/Client/Totp/Rfc.antt =====
-- The codes of `current_totp` against RFC 4226 and RFC 6238.
use keycloak_oidc4ac_lab.Prelude.{
  ℕ, zero, suc, ◌+◌, ◌-◌, ◌*◌, ◌/◌, ◌%◌, ◌≤◌, ◌<◌, ◌≡◌, refl, List, [], ◌∷◌, arith, All, length,
  get_or, drop, get_or-drop, get_or-take, length-take_le, length-drop, ◌∙◌, ap,
}
use keycloak_oidc4ac_lab.Crypto.Sha1.{hmac_sha1, pack_u64, IsDigest, hmac_sha1-IsDigest}
use keycloak_oidc4ac_lab.Client.Totp.{
  truncation_offset, truncation_chunk, truncate, six_digits, current_totp,
}

abbrev pub IsDigit : ℕ → Type 0
IsDigit c = (48 ≤ c) × (c ≤ 57)

-- The number that decimal digits stand for.
abbrev pub read : ℕ → List ℕ → ℕ
read acc [] = acc
read acc (c ∷ cs) = read (acc * 10 + (c - 48)) cs

-- RFC 4226, section 5.3: the four bytes from `o` on as a number of 31 bits.
abbrev pub dynamic_truncation : List ℕ → ℕ → ℕ
dynamic_truncation d o =
    (get_or d o 0 % 128) * 16777216
    + get_or d (o + 1) 0 * 65536
    + get_or d (o + 2) 0 * 256
    + get_or d (o + 3) 0

byte_at : (d : List ℕ) (i : ℕ) → All (λ b. b < 256) d → get_or d i 0 < 256
byte_at [] i h = omega arith
byte_at (x ∷ d) zero h = h.0
byte_at (x ∷ d) (suc i) h = byte_at d i h.1

chunk_at :
    (d : List ℕ) (i j : ℕ)
    → i < 4
    → truncation_offset d + i ≡ j
    → get_or (truncation_chunk d) i 0 ≡ get_or d j 0
unfolding truncation_chunk
chunk_at d i j h e =
    get_or-take 4 i (drop (truncation_offset d) d) 0 h
    ∙ get_or-drop (truncation_offset d) i d 0
    ∙ ap (λ k. get_or d k 0) e

-- The slice of a digest always has its four bytes, so that unpacking it cannot fail.
pub chunk_complete : (d : List ℕ) → IsDigest d → length (truncation_chunk d) ≡ 4
unfolding truncation_chunk truncation_offset
chunk_complete d h =
    length-take_le 4 (drop (truncation_offset d) d)
      (omega (arith, length-drop (truncation_offset d) d, h.0))

masked :
    (a b c e : ℕ)
    → a < 256
    → b < 256
    → c < 256
    → e < 256
    → (((a * 256 + b) * 256 + c) * 256 + e) % 2147483648
      ≡ a % 128 * 16777216 + b * 65536 + c * 256 + e
masked a b c e ha hb hc he = omega arith

truncate-eq : (d : List ℕ) → IsDigest d → truncate d ≡ dynamic_truncation d (truncation_offset d)
unfolding truncate
truncate-eq d h =
    let o = truncation_offset d in
    rw
      (
        chunk_at d 0 o (omega arith) (omega arith),
        chunk_at d 1 (o + 1) (omega arith) refl,
        chunk_at d 2 (o + 2) (omega arith) refl,
        chunk_at d 3 (o + 3) (omega arith) refl,
      )
      (masked (get_or d o 0) (get_or d (o + 1) 0) (get_or d (o + 2) 0) (get_or d (o + 3) 0)
        (byte_at d o h.1) (byte_at d (o + 1) h.1) (byte_at d (o + 2) h.1) (byte_at d (o + 3) h.1))

read-six_digits : (n : ℕ) → n < 1000000 → read 0 (six_digits n) ≡ n
unfolding six_digits
read-six_digits n h = omega arith

six_digits_ascii : (n : ℕ) → All IsDigit (six_digits n)
unfolding six_digits
six_digits_ascii n = omega arith

-- The code shown at any second is six ASCII digits, which stand for the dynamic truncation of RFC
-- 4226 of the HMAC of the number of the 30 second interval, modulo a million; the four bytes that
-- are truncated lie within the digest; and what remains is the time to the next interval.
pub current_totp_rfc :
    (secret : List ℕ) (now : ℕ)
    → let code = current_totp secret now in
      let digest = hmac_sha1 secret (pack_u64 (now / 30)) in
      let offset = truncation_offset digest in
      (length code.digits ≡ 6)
      × All IsDigit code.digits
      × (read 0 code.digits ≡ dynamic_truncation digest offset % 1000000)
      × (offset + 4 ≤ length digest)
      × (now + code.remaining ≡ (now / 30 + 1) * 30)
      × (1 ≤ code.remaining)
      × (code.remaining ≤ 30)
unfolding current_totp
current_totp_rfc secret now =
    let digest = hmac_sha1 secret (pack_u64 (now / 30)) in
    let h = hmac_sha1-IsDigest secret (pack_u64 (now / 30)) in
    (
      refl,
      six_digits_ascii (truncate digest % 1000000),
      read-six_digits (truncate digest % 1000000) (omega arith)
          ∙ ap (λ n. n % 1000000) (truncate-eq digest h),
      offset_within digest h,
      omega arith,
      omega arith,
      omega arith,
    )
  where
    offset_within : (d : List ℕ) → IsDigest d → truncation_offset d + 4 ≤ length d
    offset_within d h = let e = h.0 in omega arith
