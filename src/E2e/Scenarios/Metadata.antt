-- ===== src/E2e/Scenarios/Metadata.antt =====
-- Scenarios of e2e/http/run.py that check the metadata of an execution in both places.

use keycloak_oidc4ac_lab.Prelude.{
  String, Bool, true, false, not, Option, none, some, [], ◌∷◌, ◌<>◌, ◌==◌, ltb, Result, ok, err,
  check_failure, is_empty, ◌||◌,
}
use keycloak_oidc4ac_lab.Prelude.Dict
use keycloak_oidc4ac_lab.Prelude.Dict.{Dict}
use keycloak_oidc4ac_lab.Prelude.Action.{Action, lift, gets, ◌>>=◌, ◌>>◌}
use keycloak_oidc4ac_lab.Json.{Value, null, bool, int, pos, str, object, as_dict}
use keycloak_oidc4ac_lab.Json.Equality.{same_value}
use keycloak_oidc4ac_lab.E2e.Requests.{claims, method, at_location, request_of}
use keycloak_oidc4ac_lab.E2e.Lab.{Network, Lab, Constants}
use keycloak_oidc4ac_lab.E2e.Pages.{require_success}
use keycloak_oidc4ac_lab.E2e.Authorize.{authorize, defaults, require}
use keycloak_oidc4ac_lab.E2e.Authorize.Success.{success_result}
use keycloak_oidc4ac_lab.E2e.Scenarios.Sections.{
  needs_dict, indexed, complete_event, execution_of, is_exactly, id_token_of, userinfo_of,
}

-- `isinstance(value, str) and value`
abbrev is_text : Option Value → Bool
is_text (some (str s)) = not (is_empty s)
is_text _ = false

-- `isinstance(value, int) and value > 0`; a bool is an int
abbrev is_positive : Option Value → Bool
is_positive (some (int (pos n))) = ltb 0 n
is_positive (some (bool b)) = b
is_positive _ = false

-- `s.endswith(part)`
abbrev ends_with : String → String → Bool
ends_with String.[] part = part == ""
ends_with (String.◌∷◌ c s) part = String.◌∷◌ c s == part || ends_with s part

-- `isinstance(value, str) and value.endswith("Z")`
abbrev is_timestamp : Option Value → Bool
is_timestamp (some (str s)) = ends_with s "Z"
is_timestamp _ = false

-- `value`, after the check that it is a dict
abbrev checked_dict : String → Option Value → Result (Dict Value)
checked_dict message none = err (check_failure message)
checked_dict message (some v) = elim (as_dict v) [
  | none ↦ err (check_failure message)
  | some d ↦ ok d
]

-- `{"essential": True, **method("pwd"), "amr_metadata": {…}}`
unfoldable pub with_location : Dict Value
unfolding request_of
with_location = Dict.update (request_of (method "pwd" none none) true) (
    (
      "amr_metadata",
      object (
          ("time", object (("essential", bool true) ∷ []))
          ∷ ("iss", null)
          ∷ ("location", null)
          ∷ []),
    )
    ∷ [])

module _ {W : Type 0} where
  -- The checks at one location on the credential of the password.
  unfoldable pub password_projected : Dict (Dict Value) → String → Action (Lab W) Unit
  password_projected details label = do
    detail ← lift (execution_of "pwd" details)
    properties ← lift (
        checked_dict (label <> " omitted requested password credential metadata.")
          (Dict.lookup "amr_properties" detail))
    require (is_text (Dict.lookup "pwd_derivation_algorithm" properties))
        (label <> " did not expose the password derivation algorithm.")
    require (is_positive (Dict.lookup "pwd_iterations" properties))
        (label <> " did not expose a positive password iteration count.")
    require (is_timestamp (Dict.lookup "pwd_last_updated_at" properties))
        (label <> " did not expose an RFC 3339 password update timestamp.")

  -- The checks at one location on the metadata of the password.
  unfoldable pub location_projected : String → Dict (Dict Value) → String → Action (Lab W) Unit
  location_projected issuer details label = do
    detail ← lift (execution_of "pwd" details)
    value ← lift (indexed "amr_metadata" (object detail))
    metadata ← lift (needs_dict value)
    require (is_exactly issuer (Dict.lookup "iss" metadata))
        (label <> " did not preserve the realm issuer metadata.")
    location ← lift (
        checked_dict (label <> " location metadata was not a JSON object.")
          (Dict.lookup "location" metadata))
    require (is_text (Dict.lookup "ip_address" location))
        (label <> " location metadata did not contain an IP address.")

module _ {W : Type 0} (net : Network W) (constants : Constants) where
  unfoldable pub optional_metadata_uses_protocol_location_object : Action (Lab W) Unit
  unfolding with_location location_projected
  optional_metadata_uses_protocol_location_object = do
    page ←
        authorize net constants
          (("id_token", at_location with_location) ∷ ("userinfo", at_location with_location) ∷ [])
          defaults
    result ← lift (require_success net page)
    id_token ← id_token_of net result
    userinfo ← userinfo_of net result
    details ← lift (complete_event id_token userinfo ("pwd" ∷ []))
    settings ← gets (λ s. s.settings)
    location_projected settings.issuer details.0 "ID Token"
    location_projected settings.issuer details.1 "UserInfo"

  unfoldable pub password_credential_metadata_is_projected :
      (Value → Value → Bool) → Action (Lab W) Unit
  unfolding password_projected
  password_credential_metadata_is_projected equal_numbers = do
    (result, id_token, userinfo) ←
        success_result net constants
          (claims
            (method "pwd"
              (some (
                ("pwd_derivation_algorithm", null)
                ∷ ("pwd_iterations", null)
                ∷ ("pwd_last_updated_at", null)
                ∷ []))
              none)
            true true true)
          ("kc-form-login" ∷ [])
    details ← lift (complete_event id_token userinfo ("pwd" ∷ []))
    password_projected details.0 "ID Token"
    password_projected details.1 "UserInfo"
    in_id ← lift (execution_of "pwd" details.0)
    projected ← lift (indexed "amr_properties" (object in_id))
    in_userinfo ← lift (execution_of "pwd" details.1)
    delivered ← lift (indexed "amr_properties" (object in_userinfo))
    require (same_value equal_numbers projected delivered)
        "ID Token and UserInfo projected different password credential metadata from one event."
