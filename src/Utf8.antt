-- ===== src/Utf8.antt =====
-- `bytes.decode("utf-8")`, strict: the code points of a byte string, or `UnicodeDecodeError`; and
-- `text.encode()`, for code points that are no surrogates.
pub mod Roundtrip
use keycloak_oidc4ac_lab.Prelude.{
  ℕ, ◌+◌, ◌-◌, ◌*◌, ◌/◌, ◌%◌, Bool, Option, none, some, List, [], ◌∷◌, leb, ltb, ◌&&◌, ◌||◌,
  if◌then◌else◌,
}

abbrev pub is_continuation : ℕ → Bool
is_continuation b = leb 128 b && leb b 191

abbrev pub prepend : ℕ → Option (List ℕ) → Option (List ℕ)
prepend c none = none
prepend c (some cs) = some (c ∷ cs)

abbrev pub two : ℕ → ℕ → ℕ
two a b = (a - 192) * 64 + (b - 128)

abbrev pub three : ℕ → ℕ → ℕ → ℕ
three a b c = ((a - 224) * 64 + (b - 128)) * 64 + (c - 128)

abbrev pub four : ℕ → ℕ → ℕ → ℕ → ℕ
four a b c d = (((a - 240) * 64 + (b - 128)) * 64 + (c - 128)) * 64 + (d - 128)

abbrev pub is_two : ℕ → ℕ → Bool
is_two a b = leb 194 a && leb a 223 && is_continuation b

-- Shortest forms only, no surrogates, nothing above U+10FFFF.
abbrev pub is_three : ℕ → ℕ → ℕ → Bool
is_three a b c =
    let n = three a b c in
    leb 224 a
    && leb a 239
    && is_continuation b
    && is_continuation c
    && leb 2048 n
    && (ltb n 55296 || leb 57344 n)

abbrev pub is_four : ℕ → ℕ → ℕ → ℕ → Bool
is_four a b c d =
    let n = four a b c d in
    leb 240 a
    && leb a 244
    && is_continuation b
    && is_continuation c
    && is_continuation d
    && leb 65536 n
    && leb n 1114111

-- The longer sequences are tried on the bytes that are there.
unfoldable pub decode : List ℕ → Option (List ℕ)
decode [] = some []
decode (a ∷ []) = if ltb a 128 then some (a ∷ []) else none
decode (a ∷ b ∷ []) =
    let rest = decode (b ∷ []) in
    if ltb a 128 then prepend a rest else if is_two a b then some (two a b ∷ []) else none
decode (a ∷ b ∷ c ∷ []) =
    let one = decode (b ∷ c ∷ []) in
    let after_two = decode (c ∷ []) in
    if ltb a 128
    then prepend a one
    else if is_two a b
    then prepend (two a b) after_two
    else if is_three a b c
    then some (three a b c ∷ [])
    else none
decode (a ∷ b ∷ c ∷ d ∷ rest) =
    let one = decode (b ∷ c ∷ d ∷ rest) in
    let after_two = decode (c ∷ d ∷ rest) in
    let after_three = decode (d ∷ rest) in
    let after_four = decode rest in
    if ltb a 128
    then prepend a one
    else if is_two a b
    then prepend (two a b) after_two
    else if is_three a b c
    then prepend (three a b c) after_three
    else if is_four a b c d
    then prepend (four a b c d) after_four
    else none

unfoldable pub encode : List ℕ → List ℕ
encode [] = []
encode (n ∷ rest) =
    let more = encode rest in
    if ltb n 128
    then n ∷ more
    else if ltb n 2048
    then (192 + n / 64) ∷ (128 + n % 64) ∷ more
    else if ltb n 65536
    then (224 + n / 4096) ∷ (128 + n / 64 % 64) ∷ (128 + n % 64) ∷ more
    else (240 + n / 262144) ∷ (128 + n / 4096 % 64) ∷ (128 + n / 64 % 64) ∷ (128 + n % 64) ∷ more
