-- ===== src/Client/Token.antt =====
-- `decoded_access_token` of test-client/app.py: the payload of a compact JWT, or `{}`.
pub mod Payload
use keycloak_oidc4ac_lab.Prelude.{
  ℕ, ◌-◌, ◌%◌, Bool, Option, none, some, List, [], ◌∷◌, ◌++◌, codes, nat_eq, if◌then◌else◌, length,
  Result, ok, err, value_error,
}
use keycloak_oidc4ac_lab.Prelude.Dict.{Dict}
use keycloak_oidc4ac_lab.Json.{Value, str, as_dict, Decoded, value, decode_error, raised, JsonText}
use keycloak_oidc4ac_lab.Base64.{urlsafe_b64decode, pad}
use keycloak_oidc4ac_lab.Utf8.{decode}

abbrev pub dot : ℕ
dot = 46

-- A character in front of the parts of what follows it.
abbrev pub cut : ℕ → List (List ℕ) → List (List ℕ)
cut c [] = [] ∷ []
cut c (part ∷ parts) = if nat_eq c dot then [] ∷ part ∷ parts else (c ∷ part) ∷ parts

-- `text.split(".")`
unfoldable pub split_dots : List ℕ → List (List ℕ)
split_dots [] = [] ∷ []
split_dots (c ∷ cs) = cut c (split_dots cs)

abbrev pub pads : ℕ → List ℕ
pads n =
    if nat_eq n 1
    then pad ∷ pad ∷ pad ∷ []
    else if nat_eq n 2
    then pad ∷ pad ∷ []
    else if nat_eq n 3
    then pad ∷ []
    else []

-- `segment + "=" * (-len(segment) % 4)`
unfoldable pub pad_segment : List ℕ → List ℕ
pad_segment segment = segment ++ pads (length segment % 4)

-- The payload of a text with exactly two dots.
unfoldable pub payload_of : List (List ℕ) → Option (List ℕ)
payload_of (header ∷ payload ∷ signature ∷ []) = some payload
payload_of _ = none

abbrev pub as_object : Decoded → Result (Dict Value)
as_object (value v) = elim (as_dict v) [ none ↦ ok [] | some d ↦ ok d ]
as_object (decode_error line column) = ok []
as_object (raised value_error) = ok []
as_object (raised error) = err error

-- A ValueError, of whatever subclass, is caught and gives `{}`.
unfoldable pub decoded_payload : JsonText → List ℕ → Result (Dict Value)
unfolding pad_segment
decoded_payload json segment = elim (urlsafe_b64decode (pad_segment segment)) [
  | none ↦ ok []
  | some bytes ↦ elim (decode bytes) [ none ↦ ok [] | some text ↦ as_object (json.loads text) ]
]

unfoldable pub decoded_access_token : JsonText → Value → Result (Dict Value)
unfolding decoded_payload payload_of split_dots
decoded_access_token json (str token) = elim (payload_of (split_dots (codes token))) [
  | none ↦ ok []
  | some segment ↦ decoded_payload json segment
]
decoded_access_token json _ = ok []
