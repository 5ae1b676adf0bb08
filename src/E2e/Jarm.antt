-- ===== src/E2e/Jarm.antt =====
-- `decode_unverified_jwt_payload` of e2e/http/run.py.
use keycloak_oidc4ac_lab.Prelude.{
  String, none, some, List, codes, ℕ, Result, ok, err, check_failure, ◌>>=◌, value_error,
}
use keycloak_oidc4ac_lab.Prelude.Dict.{Dict}
use keycloak_oidc4ac_lab.Json.{Value, as_dict, JsonText, Decoded, value, decode_error, raised}
use keycloak_oidc4ac_lab.Base64.{urlsafe_b64decode}
use keycloak_oidc4ac_lab.Utf8.{decode}
use keycloak_oidc4ac_lab.Client.Token.{split_dots, pad_segment, payload_of}

abbrev not_json : {A : Type 0} → Result A
not_json = err (check_failure "The JARM response payload was not valid JSON.")

abbrev loaded : Decoded → Result Value
loaded (value v) = ok v
loaded (decode_error line column) = not_json
loaded (raised value_error) = not_json
loaded (raised error) = err error

-- The body of the `try`.
abbrev decoded_segment : JsonText → List ℕ → Result Value
decoded_segment json segment = elim (urlsafe_b64decode (pad_segment segment)) [
  | none ↦ not_json
  | some bytes ↦ elim (decode bytes) [ none ↦ not_json | some text ↦ loaded (json.loads text) ]
]

unfoldable pub decode_unverified_jwt_payload : JsonText → String → Result (Dict Value)
unfolding split_dots payload_of
decode_unverified_jwt_payload json encoded = elim (payload_of (split_dots (codes encoded))) [
  | none ↦ err (check_failure "The JARM response was not a compact JWT.")
  | some segment ↦
      (decoded_segment json segment >>= λ v. elim (as_dict v) [
        | none ↦ err (check_failure "The JARM response payload was not a JSON object.")
        | some d ↦ ok d
      ])
]
