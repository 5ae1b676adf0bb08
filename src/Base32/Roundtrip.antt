-- ===== src/Base32/Roundtrip.antt =====
-- What an authenticator reads of an encoded secret are the bytes of the secret.
use keycloak_oidc4ac_lab.Prelude.{
  ℕ, ◌+◌, ◌-◌, ◌*◌, ◌/◌, ◌%◌, ◌<◌, ◌≡◌, refl, false, Option, none, some, List, [], ◌∷◌, arith,
  nat_eq, leb, ◌&&◌, if◌then◌else◌, All, ap,
}
use keycloak_oidc4ac_lab.Base32.{
  pad, letter, pair, before_pads, b32encode, rstrip_pads, group, first, second, third, fourth,
}

-- The decoder of RFC 4648, section 6, for a text without padding: the value of a letter, and the
-- bytes of eight values of five bits each.
abbrev pub value_of : ℕ → Option ℕ
value_of c =
    if leb 65 c && leb c 90
    then some (c - 65)
    else if leb 50 c && leb c 55
    then some (c - 24)
    else none

abbrev consed : ℕ → Option (List ℕ) → Option (List ℕ)
consed v none = none
consed v (some vs) = some (v ∷ vs)

unfoldable pub values_of : List ℕ → Option (List ℕ)
values_of [] = some []
values_of (c ∷ cs) =
    let rest = values_of cs in elim (value_of c) [ none ↦ none | some v ↦ consed v rest ]

unfoldable pub bytes_of : List ℕ → List ℕ
bytes_of (p ∷ q ∷ r ∷ s ∷ t ∷ u ∷ v ∷ w ∷ rest) =
    (p * 8 + q / 4)
    ∷ (q % 4 * 64 + r * 2 + s / 16)
    ∷ (s % 16 * 16 + t / 2)
    ∷ (t % 2 * 128 + u * 4 + v / 8)
    ∷ (v % 8 * 32 + w)
    ∷ bytes_of rest
bytes_of (p ∷ q ∷ r ∷ s ∷ t ∷ u ∷ v ∷ []) =
    (p * 8 + q / 4)
    ∷ (q % 4 * 64 + r * 2 + s / 16)
    ∷ (s % 16 * 16 + t / 2)
    ∷ (t % 2 * 128 + u * 4 + v / 8)
    ∷ []
bytes_of (p ∷ q ∷ r ∷ s ∷ t ∷ u ∷ []) =
    (p * 8 + q / 4) ∷ (q % 4 * 64 + r * 2 + s / 16) ∷ (s % 16 * 16 + t / 2) ∷ []
bytes_of (p ∷ q ∷ r ∷ s ∷ t ∷ []) =
    (p * 8 + q / 4) ∷ (q % 4 * 64 + r * 2 + s / 16) ∷ (s % 16 * 16 + t / 2) ∷ []
bytes_of (p ∷ q ∷ r ∷ s ∷ []) = (p * 8 + q / 4) ∷ (q % 4 * 64 + r * 2 + s / 16) ∷ []
bytes_of (p ∷ q ∷ r ∷ []) = (p * 8 + q / 4) ∷ []
bytes_of (p ∷ q ∷ []) = (p * 8 + q / 4) ∷ []
bytes_of (p ∷ []) = []
bytes_of [] = []

unfoldable pub decode : List ℕ → Option (List ℕ)
unfolding values_of bytes_of
decode cs = elim (values_of cs) [ none ↦ none | some vs ↦ some (bytes_of vs) ]

letter_value : (v : ℕ) → v < 32 → value_of (letter v) ≡ some v
letter_value v h = ground arith

letter_not_pad : (v : ℕ) → v < 32 → nat_eq (letter v) pad ≡ false
letter_not_pad v h = ground arith

kept : (c : ℕ) (cs : List ℕ) → nat_eq c pad ≡ false → before_pads c cs ≡ c ∷ cs
kept c [] h = rw h refl
kept c (d ∷ cs) h = refl

-- A letter is kept in front of whatever is kept of the rest, and is read as its value.
read_letter :
    (v : ℕ) (cs vs : List ℕ)
    → v < 32
    → values_of (rstrip_pads cs) ≡ some vs
    → values_of (rstrip_pads (letter v ∷ cs)) ≡ some (v ∷ vs)
unfolding rstrip_pads values_of
read_letter v cs vs h e =
    rw (kept (letter v) (rstrip_pads cs) (letter_not_pad v h), values_of)
      (rw (letter_value v h, e, values_of) refl)

-- The text reads as values that make up the bytes.
abbrev Reads : List ℕ → List ℕ → Type 0
Reads cs bytes = (vs : List ℕ) × (values_of (rstrip_pads cs) ≡ some vs) × (bytes_of vs ≡ bytes)

read_pair :
    (n : ℕ) (cs vs : List ℕ)
    → n < 1024
    → values_of (rstrip_pads cs) ≡ some vs
    → values_of (rstrip_pads (pair n cs)) ≡ some (n / 32 ∷ n % 32 ∷ vs)
read_pair n cs vs h e =
    read_letter (n / 32) (letter (n % 32) ∷ cs) (n % 32 ∷ vs) (omega arith)
      (read_letter (n % 32) cs vs (omega arith) e)

read_one_pad : values_of (rstrip_pads (pad ∷ [])) ≡ some []
unfolding rstrip_pads values_of
read_one_pad = refl

read_three_pads : values_of (rstrip_pads (pad ∷ pad ∷ pad ∷ [])) ≡ some []
unfolding rstrip_pads values_of
read_three_pads = refl

read_four_pads : values_of (rstrip_pads (pad ∷ pad ∷ pad ∷ pad ∷ [])) ≡ some []
unfolding rstrip_pads values_of
read_four_pads = refl

read_six_pads : values_of (rstrip_pads (pad ∷ pad ∷ pad ∷ pad ∷ pad ∷ pad ∷ [])) ≡ some []
unfolding rstrip_pads values_of
read_six_pads = refl

cons_eq : {a b : ℕ} {xs ys : List ℕ} → a ≡ b → xs ≡ ys → a ∷ xs ≡ b ∷ ys
cons_eq p q = cc

read_full_group :
    (a b c d e : ℕ) (rest bytes : List ℕ)
    → All (λ b. b < 256) (a ∷ b ∷ c ∷ d ∷ e ∷ bytes)
    → Reads rest bytes
    → (let n = group a b c d e in
        Reads
          (pair (first n) (pair (second n) (pair (third n) (pair (fourth n) rest))))
          (a ∷ b ∷ c ∷ d ∷ e ∷ bytes))
read_full_group a b c d e rest bytes h more = (
  _,
  read_pair _ _ _ (omega arith) (
      read_pair _ _ _ (omega arith)
        (read_pair _ _ _ (omega arith) (read_pair _ _ _ (omega arith) more.1))),
  unfold bytes_of in
      cons_eq (omega arith) (
        cons_eq (omega arith)
          (cons_eq (omega arith) (cons_eq (omega arith) (cons_eq (omega arith) more.2)))),
)

b32encode-Reads : (bytes : List ℕ) → All (λ b. b < 256) bytes → Reads (b32encode bytes) bytes
unfolding b32encode
b32encode-Reads [] h = ([], unfold rstrip_pads values_of in refl, unfold bytes_of in refl)
b32encode-Reads (a ∷ []) h =
    (_, read_pair _ _ _ (omega arith) read_six_pads, unfold bytes_of in cons_eq (omega arith) refl)
b32encode-Reads (a ∷ b ∷ []) h = (
  _,
  read_pair _ _ _ (omega arith) (read_pair _ _ _ (omega arith) read_four_pads),
  unfold bytes_of in cons_eq (omega arith) (cons_eq (omega arith) refl),
)
b32encode-Reads (a ∷ b ∷ c ∷ []) h = (
  _,
  read_pair _ _ _ (omega arith)
      (read_pair _ _ _ (omega arith) (read_letter _ _ _ (omega arith) read_three_pads)),
  unfold bytes_of in cons_eq (omega arith) (cons_eq (omega arith) (cons_eq (omega arith) refl)),
)
b32encode-Reads (a ∷ b ∷ c ∷ d ∷ []) h = (
  _,
  read_pair _ _ _ (omega arith) (
      read_pair _ _ _ (omega arith)
        (read_pair _ _ _ (omega arith) (read_letter _ _ _ (omega arith) read_one_pad))),
  unfold bytes_of in
      cons_eq (omega arith)
        (cons_eq (omega arith) (cons_eq (omega arith) (cons_eq (omega arith) refl))),
)
b32encode-Reads (a ∷ b ∷ c ∷ d ∷ e ∷ rest) h =
    read_full_group a b c d e (b32encode rest) rest h (b32encode-Reads rest h.1.1.1.1.1)

-- The encoding of byte values, without its padding, decodes to those bytes.
pub decode-b32encode :
    (bytes : List ℕ)
    → All (λ b. b < 256) bytes
    → decode (rstrip_pads (b32encode bytes)) ≡ some bytes
unfolding decode
decode-b32encode bytes h =
    let read = b32encode-Reads bytes h in rw (read.1, decode) (ap some read.2)
