-- ===== src/Base32.antt =====
-- Python's `base64.b32encode`, over byte values, and the padding that `rstrip("=")` takes off.
pub mod Roundtrip
use keycloak_oidc4ac_lab.Prelude.{
  ℕ, ◌+◌, ◌-◌, ◌*◌, ◌/◌, ◌%◌, ◌^◌, List, [], ◌∷◌, ◌++◌, nat_eq, ltb, if◌then◌else◌,
}

abbrev pub pad : ℕ
pad = 61

-- A letter of the alphabet `A` to `Z`, `2` to `7`.
abbrev pub letter : ℕ → ℕ
letter v = if ltb v 26 then 65 + v else 24 + v

-- An entry of the table of pairs of letters.
abbrev pub pair : ℕ → List ℕ → List ℕ
pair n rest = letter (n / 32) ∷ letter (n % 32) ∷ rest

-- `int.from_bytes(group)`
abbrev pub group : ℕ → ℕ → ℕ → ℕ → ℕ → ℕ
group a b c d e = (((a * 256 + b) * 256 + c) * 256 + d) * 256 + e

-- The four parts of ten bits of a group.
abbrev pub first : ℕ → ℕ
first n = n / 2 ^ 30

abbrev pub second : ℕ → ℕ
second n = n / 2 ^ 20 % 1024

abbrev pub third : ℕ → ℕ
third n = n / 2 ^ 10 % 1024

abbrev pub fourth : ℕ → ℕ
fourth n = n % 1024

-- A last group that is not full is filled with zero bytes; its last letters become pad characters.
unfoldable pub b32encode : List ℕ → List ℕ
b32encode [] = []
b32encode (a ∷ []) =
    let n = group a 0 0 0 0 in pair (first n) (pad ∷ pad ∷ pad ∷ pad ∷ pad ∷ pad ∷ [])
b32encode (a ∷ b ∷ []) =
    let n = group a b 0 0 0 in pair (first n) (pair (second n) (pad ∷ pad ∷ pad ∷ pad ∷ []))
b32encode (a ∷ b ∷ c ∷ []) =
    let n = group a b c 0 0 in
    pair (first n) (pair (second n) (letter (third n / 32) ∷ pad ∷ pad ∷ pad ∷ []))
b32encode (a ∷ b ∷ c ∷ d ∷ []) =
    let n = group a b c d 0 in
    pair (first n) (pair (second n) (pair (third n) (letter (fourth n / 32) ∷ pad ∷ [])))
b32encode (a ∷ b ∷ c ∷ d ∷ e ∷ rest) =
    let n = group a b c d e in
    pair (first n) (pair (second n) (pair (third n) (pair (fourth n) (b32encode rest))))

abbrev pub before_pads : ℕ → List ℕ → List ℕ
before_pads c [] = if nat_eq c pad then [] else c ∷ []
before_pads c (d ∷ rest) = c ∷ d ∷ rest

-- `text.rstrip("=")`
unfoldable pub rstrip_pads : List ℕ → List ℕ
rstrip_pads [] = []
rstrip_pads (c ∷ cs) = before_pads c (rstrip_pads cs)
