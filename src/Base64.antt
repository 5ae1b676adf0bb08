-- ===== src/Base64.antt =====
-- Python's `base64.urlsafe_b64decode`, over byte values: the lenient decoder of `binascii`.
pub mod Roundtrip
use keycloak_oidc4ac_lab.Prelude.{
  ℕ, ◌+◌, ◌-◌, ◌*◌, ◌/◌, ◌%◌, Bool, true, Option, none, some, List, [], ◌∷◌, ◌++◌, nat_eq, leb,
  ◌&&◌, ◌||◌, if◌then◌else◌,
}

-- The value of a character of the URL-safe alphabet; `-` and `_` are translated to `+` and `/`,
-- which stay valid themselves.
unfoldable pub sextet : ℕ → Option ℕ
sextet c =
    if leb 65 c && leb c 90
    then some (c - 65)
    else if leb 97 c && leb c 122
    then some (c - 71)
    else if leb 48 c && leb c 57
    then some (c + 4)
    else if nat_eq c 45 || nat_eq c 43
    then some 62
    else if nat_eq c 95 || nat_eq c 47
    then some 63
    else none

abbrev pub pad : ℕ
pad = 61

-- The decoder's state: the place in the group of four, what is left of the last character, and the
-- run of pad characters. Characters outside the alphabet are skipped; a full padding ends the input.
pub data Place : Type 0 where
  first : Place
  second third fourth : ℕ → Place

-- A pad character: `none` is the end of the input.
abbrev after_pad : Place → ℕ → Option ℕ
after_pad (third left) pads = if leb 4 (2 + (pads + 1)) then none else some (pads + 1)
after_pad (fourth left) pads = if leb 4 (3 + (pads + 1)) then none else some (pads + 1)
after_pad _ pads = some pads

abbrev pub prepend : ℕ → Option (List ℕ) → Option (List ℕ)
prepend b none = none
prepend b (some bs) = some (b ∷ bs)

abbrev finish : Place → Option (List ℕ)
finish first = some []
finish _ = none

-- `binascii.a2b_base64`, where `none` is `binascii.Error`.
unfoldable pub a2b : Place → ℕ → List ℕ → Option (List ℕ)
unfolding sextet
a2b place pads [] = finish place
a2b first pads (c ∷ cs) =
    let skip = a2b first pads cs in
    if nat_eq c pad then skip else elim (sextet c) [ none ↦ skip | some v ↦ a2b (second v) 0 cs ]
a2b (second left) pads (c ∷ cs) =
    let skip = a2b (second left) pads cs in
    if nat_eq c pad then skip else elim (sextet c) [
      | none ↦ skip
      | some v ↦ prepend (left * 4 + v / 16) (a2b (third (v % 16)) 0 cs)
    ]
a2b (third left) pads (c ∷ cs) =
    let skip = a2b (third left) pads cs in
    let padded : Option (List ℕ) = elim (after_pad (third left) pads) [
      | none ↦ some []
      | some more ↦ a2b (third left) more cs
    ] in
    if nat_eq c pad then padded else elim (sextet c) [
      | none ↦ skip
      | some v ↦ prepend (left * 16 + v / 4) (a2b (fourth (v % 4)) 0 cs)
    ]
a2b (fourth left) pads (c ∷ cs) =
    let skip = a2b (fourth left) pads cs in
    let padded : Option (List ℕ) = elim (after_pad (fourth left) pads) [
      | none ↦ some []
      | some more ↦ a2b (fourth left) more cs
    ] in
    if nat_eq c pad
    then padded
    else elim (sextet c) [ none ↦ skip | some v ↦ prepend (left * 64 + v) (a2b first 0 cs) ]

unfoldable pub is_ascii : List ℕ → Bool
is_ascii [] = true
is_ascii (c ∷ cs) = leb c 127 && is_ascii cs

-- Text that is not ASCII raises `ValueError`.
unfoldable pub urlsafe_b64decode : List ℕ → Option (List ℕ)
unfolding a2b is_ascii
urlsafe_b64decode cs = if is_ascii cs then a2b first 0 cs else none
