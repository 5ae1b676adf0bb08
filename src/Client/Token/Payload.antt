-- ===== src/Client/Token/Payload.antt =====
-- The payload that `decoded_access_token` shows of a compact JWT.
use keycloak_oidc4ac_lab.Prelude.{
  ℕ, ◌+◌, ◌*◌, ◌/◌, ◌%◌, ◌<◌, String, ◌≡◌, refl, false, some, List, [], ◌∷◌, ◌++◌, arith, All,
  nat_eq, codes, ap, ◌∙◌, Bool-cases, inl, inr, ok,
}
use keycloak_oidc4ac_lab.Json.{str, obj, entries, Fields, value, JsonText}
use keycloak_oidc4ac_lab.Base64.Roundtrip.{encode, letter, urlsafe_b64decode-encode}
use keycloak_oidc4ac_lab.Utf8.{decode}
use keycloak_oidc4ac_lab.Client.Token.{
  dot, cut, split_dots, payload_of, decoded_payload, decoded_access_token,
}

abbrev pub HasNoDot : List ℕ → Type 0
HasNoDot s = All (λ c. nat_eq c dot ≡ false) s

cut-cons :
    (c : ℕ) (parts : List (List ℕ)) → (p : List ℕ) × (ps : List (List ℕ)) × (cut c parts ≡ p ∷ ps)
cut-cons c [] = ([], [], refl)
cut-cons c (p ∷ ps) = elim (Bool-cases (nat_eq c dot)) [
  | inl e ↦ ([], p ∷ ps, rw e refl)
  | inr e ↦ (c ∷ p, ps, rw e refl)
]

split_dots-cons : (s : List ℕ) → (p : List ℕ) × (ps : List (List ℕ)) × (split_dots s ≡ p ∷ ps)
unfolding split_dots
split_dots-cons [] = ([], [], refl)
split_dots-cons (c ∷ s) = cut-cons c (split_dots s)

split_dots-append :
    (s rest : List ℕ) → HasNoDot s → split_dots (s ++ dot ∷ rest) ≡ s ∷ split_dots rest
unfolding split_dots
split_dots-append [] rest h = let parts = split_dots-cons rest in rw (parts.2, split_dots) refl
split_dots-append (c ∷ s) rest h = rw (split_dots-append s rest h.1) (rw h.0 refl)

split_dots_last : (s : List ℕ) → HasNoDot s → split_dots s ≡ s ∷ []
unfolding split_dots
split_dots_last [] h = refl
split_dots_last (c ∷ s) h = rw (split_dots_last s h.1) (rw h.0 refl)

letter_no_dot : (v : ℕ) → v < 64 → nat_eq (letter v) dot ≡ false
letter_no_dot v h = ground arith

encode_no_dot : (bytes : List ℕ) → All (λ b. b < 256) bytes → HasNoDot (encode bytes)
encode_no_dot [] h = tt
encode_no_dot (a ∷ []) h =
    (letter_no_dot (a / 4) (omega arith), (letter_no_dot (a % 4 * 16) (omega arith), tt))
encode_no_dot (a ∷ b ∷ []) h = (
  letter_no_dot (a / 4) (omega arith),
  (
    letter_no_dot (a % 4 * 16 + b / 16) (omega arith),
    (letter_no_dot (b % 16 * 4) (omega arith), tt),
  ),
)
encode_no_dot (a ∷ b ∷ c ∷ rest) h = (
  letter_no_dot (a / 4) (omega arith),
  (
    letter_no_dot (a % 4 * 16 + b / 16) (omega arith),
    (
      letter_no_dot (b % 16 * 4 + c / 64) (omega arith),
      (letter_no_dot (c % 64) (omega arith), encode_no_dot rest h.1.1.1),
    ),
  ),
)

-- Of a text of three segments, without a further dot, whose second segment encodes the UTF-8 bytes
-- of the JSON text of an object, that object is shown.
pub decoded_access_token_payload :
    (json : JsonText) (token : String) (header signature bytes text : List ℕ) (fs : Fields)
    → codes token ≡ header ++ dot ∷ (encode bytes ++ dot ∷ signature)
    → HasNoDot header
    → HasNoDot signature
    → All (λ b. b < 256) bytes
    → decode bytes ≡ some text
    → json.loads text ≡ value (obj fs)
    → decoded_access_token json (str token) ≡ ok (entries fs)
unfolding decoded_access_token
decoded_access_token_payload json token header signature bytes text fs parts hh hs hb utf8 loaded =
    let three =
      split_dots-append header (encode bytes ++ dot ∷ signature) hh
      ∙ ap (λ ps. header ∷ ps)
          (split_dots-append (encode bytes) signature (encode_no_dot bytes hb)
            ∙ ap (λ ps. encode bytes ∷ ps) (split_dots_last signature hs)) in
    rw (parts, decoded_access_token)
      (rw (three, payload_of)
        (rw (urlsafe_b64decode-encode bytes hb, decoded_payload) (rw utf8 (rw loaded refl))))
