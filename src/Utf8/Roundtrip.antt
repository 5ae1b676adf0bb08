-- ===== src/Utf8/Roundtrip.antt =====
-- A text that is encoded decodes to itself.
use keycloak_oidc4ac_lab.Prelude.{
  ℕ, ◌+◌, ◌/◌, ◌%◌, ◌<◌, ◌≤◌, ◌≡◌, refl, Bool, Bool-cases, inl, inr, ltb→lt, true, false, some,
  List, [], ◌∷◌, arith, leb, ltb, ◌&&◌, ◌||◌, All, ap, ◌∙◌, ◌⊎◌,
}
use keycloak_oidc4ac_lab.Utf8.{decode, encode, prepend, is_two, two, three, four, is_three, is_four}

-- A code point that is no surrogate.
abbrev pub is_scalar : ℕ → Bool
is_scalar n = ltb n 55296 || (leb 57344 n && leb n 1114111)

decode_one : (a : ℕ) (rest : List ℕ) → a < 128 → decode (a ∷ rest) ≡ prepend a (decode rest)
unfolding decode
decode_one a [] h = ground arith
decode_one a (b ∷ []) h = ground arith
decode_one a (b ∷ c ∷ []) h = ground arith
decode_one a (b ∷ c ∷ d ∷ rest) h = ground arith

decode-two :
    (a b : ℕ) (rest : List ℕ)
    → ltb a 128 ≡ false
    → is_two a b ≡ true
    → decode (a ∷ b ∷ rest) ≡ prepend (two a b) (decode rest)
unfolding decode
decode-two a b [] n h = rw (n, h) refl
decode-two a b (c ∷ []) n h = rw (n, h) refl
decode-two a b (c ∷ d ∷ rest) n h = rw (n, h) refl

decode-three :
    (a b c : ℕ) (rest : List ℕ)
    → ltb a 128 ≡ false
    → is_two a b ≡ false
    → is_three a b c ≡ true
    → decode (a ∷ b ∷ c ∷ rest) ≡ prepend (three a b c) (decode rest)
unfolding decode
decode-three a b c [] n m h = rw (n, m, h) refl
decode-three a b c (d ∷ rest) n m h = rw (n, m, h) refl

decode-four :
    (a b c d : ℕ) (rest : List ℕ)
    → ltb a 128 ≡ false
    → is_two a b ≡ false
    → is_three a b c ≡ false
    → is_four a b c d ≡ true
    → decode (a ∷ b ∷ c ∷ d ∷ rest) ≡ prepend (four a b c d) (decode rest)
unfolding decode
decode-four a b c d rest n m l h = rw (n, m, l, h) refl

-- The four forms of the encoding.
abbrev second : ℕ → List ℕ → List ℕ
second n more = (192 + n / 64) ∷ (128 + n % 64) ∷ more

abbrev third : ℕ → List ℕ → List ℕ
third n more = (224 + n / 4096) ∷ (128 + n / 64 % 64) ∷ (128 + n % 64) ∷ more

abbrev fourth : ℕ → List ℕ → List ℕ
fourth n more =
    (240 + n / 262144) ∷ (128 + n / 4096 % 64) ∷ (128 + n / 64 % 64) ∷ (128 + n % 64) ∷ more

abbrev Form : ℕ → List ℕ → List ℕ → Type 0
Form n more bytes =
    (n < 128 × bytes ≡ n ∷ more)
    ⊎ (128 ≤ n × n < 2048 × bytes ≡ second n more)
    ⊎ (2048 ≤ n × n < 65536 × bytes ≡ third n more)
    ⊎ (65536 ≤ n × bytes ≡ fourth n more)

encode-Form : (n : ℕ) (rest : List ℕ) → Form n (encode rest) (encode (n ∷ rest))
unfolding encode
encode-Form n rest = elim (Bool-cases (ltb n 128)) [
  | inl a ↦ inl (ltb→lt n 128 a, rw a refl)
  | inr a ↦ elim (Bool-cases (ltb n 2048)) [
    | inl b ↦ inr (inl (ground arith, ltb→lt n 2048 b, rw (a, b) refl))
    | inr b ↦ elim (Bool-cases (ltb n 65536)) [
      | inl c ↦ inr (inr (inl (ground arith, ltb→lt n 65536 c, rw (a, b, c) refl)))
      | inr c ↦ inr (inr (inr (ground arith, rw (a, b, c) refl)))
    ]
  ]
]

decode-second :
    (n : ℕ) (rest : List ℕ) → 128 ≤ n → n < 2048 → decode (second n rest) ≡ prepend n (decode rest)
decode-second n rest l h =
    decode-two _ _ rest (ground arith) (ground arith)
    ∙ ap (λ k. prepend k (decode rest)) (omega arith)

decode-third :
    (n : ℕ) (rest : List ℕ)
    → 2048 ≤ n
    → n < 65536
    → is_scalar n ≡ true
    → decode (third n rest) ≡ prepend n (decode rest)
decode-third n rest l h s =
    decode-three _ _ _ rest (ground arith) (ground arith) (ground arith)
    ∙ ap (λ k. prepend k (decode rest)) (omega arith)

decode-fourth :
    (n : ℕ) (rest : List ℕ)
    → 65536 ≤ n
    → is_scalar n ≡ true
    → decode (fourth n rest) ≡ prepend n (decode rest)
decode-fourth n rest l s =
    decode-four _ _ _ _ rest (ground arith) (ground arith) (ground arith) (ground arith)
    ∙ ap (λ k. prepend k (decode rest)) (omega arith)

-- The bytes of one code point, whichever its form, are taken off as a whole.
decode_scalar :
    (n : ℕ) (rest : List ℕ)
    → is_scalar n ≡ true
    → decode (encode (n ∷ rest)) ≡ prepend n (decode (encode rest))
decode_scalar n rest s = elim (encode-Form n rest) [
  | inl f ↦ ap decode f.1 ∙ decode_one n (encode rest) f.0
  | inr (inl f) ↦ ap decode f.2 ∙ decode-second n (encode rest) f.0 f.1
  | inr (inr (inl f)) ↦ ap decode f.2 ∙ decode-third n (encode rest) f.0 f.1 s
  | inr (inr (inr f)) ↦ ap decode f.1 ∙ decode-fourth n (encode rest) f.0 s
]

-- The bytes of a text without surrogates decode to the text.
pub decode-encode : (cs : List ℕ) → All (λ c. is_scalar c ≡ true) cs → decode (encode cs) ≡ some cs
decode-encode [] h = unfold decode encode in refl
decode-encode (c ∷ cs) h = decode_scalar c cs h.0 ∙ ap (prepend c) (decode-encode cs h.1)

scalar_bound : (n : ℕ) → is_scalar n ≡ true → n < 1114112
scalar_bound n s = ground arith

-- Every byte of the encoding is below 256.
pub encode-AreBytes :
    (cs : List ℕ) → All (λ c. is_scalar c ≡ true) cs → All (λ b. b < 256) (encode cs)
encode-AreBytes [] h = unfold encode in tt
encode-AreBytes (c ∷ cs) h =
    let more = encode-AreBytes cs h.1 in
    let below = scalar_bound c h.0 in
    elim (encode-Form c cs) [
      | inl f ↦ rw f.1 (omega arith, more)
      | inr (inl f) ↦ rw f.2 (omega arith, (omega arith, more))
      | inr (inr (inl f)) ↦ rw f.2 (omega arith, (omega arith, (omega arith, more)))
      | inr (inr (inr f)) ↦ rw f.1 (omega arith, (omega arith, (omega arith, (omega arith, more))))
    ]
