-- ===== src/Base64/Roundtrip.antt =====
-- The decoder against the encoder of RFC 4648, section 5, without padding, as JWTs use it.
use keycloak_oidc4ac_lab.Prelude.{
  ℕ, ◌+◌, ◌-◌, ◌*◌, ◌/◌, ◌%◌, ◌<◌, ◌≡◌, refl, true, false, some, List, [], ◌∷◌, ◌++◌, arith, All,
  length, leb, if◌then◌else◌, ltb, ap, nat_eq,
}
use keycloak_oidc4ac_lab.Base64.{
  sextet, a2b, is_ascii, urlsafe_b64decode, first, second, third, fourth, prepend, pad,
}
use keycloak_oidc4ac_lab.Client.Token.{pads, pad_segment}

-- The character of a value below 64.
abbrev pub letter : ℕ → ℕ
letter v =
    if ltb v 26
    then v + 65
    else if ltb v 52
    then v + 71
    else if ltb v 62
    then v - 4
    else if ltb v 63
    then 45
    else 95

abbrev pub encode : List ℕ → List ℕ
encode [] = []
encode (a ∷ []) = letter (a / 4) ∷ letter (a % 4 * 16) ∷ []
encode (a ∷ b ∷ []) = letter (a / 4) ∷ letter (a % 4 * 16 + b / 16) ∷ letter (b % 16 * 4) ∷ []
encode (a ∷ b ∷ c ∷ rest) =
    letter (a / 4)
    ∷ letter (a % 4 * 16 + b / 16)
    ∷ letter (b % 16 * 4 + c / 64)
    ∷ letter (c % 64)
    ∷ encode rest

sextet-letter : (v : ℕ) → v < 64 → sextet (letter v) ≡ some v
unfolding sextet
sextet-letter v h = ground arith

not_pad : (v : ℕ) → v < 64 → nat_eq (letter v) pad ≡ false
not_pad v h = ground arith

letter_ascii : (v : ℕ) → v < 64 → leb (letter v) 127 ≡ true
letter_ascii v h = ground arith

place_one : (v p : ℕ) (cs : List ℕ) → v < 64 → a2b first p (letter v ∷ cs) ≡ a2b (second v) 0 cs
unfolding a2b
place_one v p cs h = rw (not_pad v h, a2b) (rw (sextet-letter v h, a2b) refl)

place_two :
    (left v p : ℕ) (cs : List ℕ)
    → v < 64
    → a2b (second left) p (letter v ∷ cs) ≡ prepend (left * 4 + v / 16) (a2b (third (v % 16)) 0 cs)
unfolding a2b
place_two left v p cs h = rw (not_pad v h, a2b) (rw (sextet-letter v h, a2b) refl)

place_three :
    (left v p : ℕ) (cs : List ℕ)
    → v < 64
    → a2b (third left) p (letter v ∷ cs) ≡ prepend (left * 16 + v / 4) (a2b (fourth (v % 4)) 0 cs)
unfolding a2b
place_three left v p cs h = rw (not_pad v h, a2b) (rw (sextet-letter v h, a2b) refl)

place_four :
    (left v p : ℕ) (cs : List ℕ)
    → v < 64
    → a2b (fourth left) p (letter v ∷ cs) ≡ prepend (left * 64 + v) (a2b first 0 cs)
unfolding a2b
place_four left v p cs h = rw (not_pad v h, a2b) (rw (sextet-letter v h, a2b) refl)

bytes_eq : {m n a b : ℕ} (rest : List ℕ) → m ≡ a → n ≡ b → some (m ∷ n ∷ rest) ≡ some (a ∷ b ∷ rest)
bytes_eq rest p q = cc

byte_eq : {m a : ℕ} {xs ys : List ℕ} → m ≡ a → some xs ≡ some ys → some (m ∷ xs) ≡ some (a ∷ ys)
byte_eq p q = cc

-- One, two and three bytes.
group_of_one :
    (a p : ℕ)
    → a < 256
    → a2b first p (letter (a / 4) ∷ letter (a % 4 * 16) ∷ pad ∷ pad ∷ []) ≡ some (a ∷ [])
group_of_one a p h = rw (place_one (a / 4) p (letter (a % 4 * 16) ∷ pad ∷ pad ∷ []) (omega arith)) (
    rw (place_two (a / 4) (a % 4 * 16) 0 (pad ∷ pad ∷ []) (omega arith))
      (unfold a2b in ap (λ n. some (n ∷ [])) (omega arith)))

group_of_two :
    (a b p : ℕ)
    → a < 256
    → b < 256
    → a2b first p (letter (a / 4) ∷ letter (a % 4 * 16 + b / 16) ∷ letter (b % 16 * 4) ∷ pad ∷ [])
      ≡ some (a ∷ b ∷ [])
group_of_two a b p ha hb =
    let s = a % 4 * 16 + b / 16 in
    let t = b % 16 * 4 in
    rw (place_one (a / 4) p (letter s ∷ letter t ∷ pad ∷ []) (omega arith)) (
      rw (place_two (a / 4) s 0 (letter t ∷ pad ∷ []) (omega arith)) (
        rw (place_three (s % 16) t 0 (pad ∷ []) (omega arith))
          (unfold a2b in bytes_eq [] (omega arith) (omega arith))))

group_of_three :
    (a b c p : ℕ) (cs rest : List ℕ)
    → a < 256
    → b < 256
    → c < 256
    → a2b first 0 cs ≡ some rest
    → a2b first p (
        letter (a / 4)
        ∷ letter (a % 4 * 16 + b / 16)
        ∷ letter (b % 16 * 4 + c / 64)
        ∷ letter (c % 64)
        ∷ cs)
      ≡ some (a ∷ b ∷ c ∷ rest)
group_of_three a b c p cs rest ha hb hc ih =
    let s = a % 4 * 16 + b / 16 in
    let t = b % 16 * 4 + c / 64 in
    let u = c % 64 in
    rw (place_one (a / 4) p (letter s ∷ letter t ∷ letter u ∷ cs) (omega arith)) (
      rw (place_two (a / 4) s 0 (letter t ∷ letter u ∷ cs) (omega arith)) (
        rw (place_three (s % 16) t 0 (letter u ∷ cs) (omega arith)) (
          rw (place_four (t % 4) u 0 cs (omega arith))
            (rw ih (byte_eq (omega arith) (bytes_eq rest (omega arith) (omega arith)))))))

length-encode :
    (a b c : ℕ) (rest : List ℕ) → length (encode (a ∷ b ∷ c ∷ rest)) % 4 ≡ length (encode rest) % 4
length-encode a b c rest = omega arith

a2b-encode :
    (bytes : List ℕ)
    → All (λ b. b < 256) bytes
    → a2b first 0 (encode bytes ++ pads (length (encode bytes) % 4)) ≡ some bytes
a2b-encode [] h = unfold a2b in refl
a2b-encode (a ∷ []) h = group_of_one a 0 h.0
a2b-encode (a ∷ b ∷ []) h = group_of_two a b 0 h.0 h.1.0
a2b-encode (a ∷ b ∷ c ∷ rest) h = rw (length-encode a b c rest) (
    group_of_three a b c 0 (encode rest ++ pads (length (encode rest) % 4)) rest h.0 h.1.0 h.1.1.0
      (a2b-encode rest h.1.1.1))

is_ascii-encode :
    (bytes more : List ℕ)
    → All (λ b. b < 256) bytes
    → is_ascii more ≡ true
    → is_ascii (encode bytes ++ more) ≡ true
unfolding is_ascii
is_ascii-encode [] more h m = m
is_ascii-encode (a ∷ []) more h m =
    rw (letter_ascii (a / 4) (omega arith), letter_ascii (a % 4 * 16) (omega arith)) m
is_ascii-encode (a ∷ b ∷ []) more h m =
    rw
      (
        letter_ascii (a / 4) (omega arith),
        letter_ascii (a % 4 * 16 + b / 16) (omega arith),
        letter_ascii (b % 16 * 4) (omega arith),
      )
      m
is_ascii-encode (a ∷ b ∷ c ∷ rest) more h m =
    rw
      (
        letter_ascii (a / 4) (omega arith),
        letter_ascii (a % 4 * 16 + b / 16) (omega arith),
        letter_ascii (b % 16 * 4 + c / 64) (omega arith),
        letter_ascii (c % 64) (omega arith),
      )
      (is_ascii-encode rest more h.1.1.1 m)

pads_ascii : (n : ℕ) → is_ascii (pads n) ≡ true
unfolding is_ascii
pads_ascii n = ground arith

-- A segment that encodes byte values without padding is decoded to those bytes, once the padding
-- that its length calls for has been added.
pub urlsafe_b64decode-encode :
    (bytes : List ℕ)
    → All (λ b. b < 256) bytes
    → urlsafe_b64decode (pad_segment (encode bytes)) ≡ some bytes
unfolding urlsafe_b64decode pad_segment
urlsafe_b64decode-encode bytes h =
    rw
      (
        is_ascii-encode bytes (pads (length (encode bytes) % 4)) h
            (pads_ascii (length (encode bytes) % 4)),
        urlsafe_b64decode,
      )
      (a2b-encode bytes h)
