-- ===== src/E2e/Scenarios/Rejections.antt =====
-- Scenarios of e2e/http/run.py in which Keycloak rejects the request.
use keycloak_oidc4ac_lab.Prelude.{String, true, not, none, some, List, [], ◌∷◌, contains}
use keycloak_oidc4ac_lab.Prelude.Dict
use keycloak_oidc4ac_lab.Prelude.Dict.{Dict}
use keycloak_oidc4ac_lab.Prelude.Action.{Action, pure, lift, ◌>>=◌, ◌>>◌}
use keycloak_oidc4ac_lab.Json.{Value, bool, int, pos, str, object, array}
use keycloak_oidc4ac_lab.E2e.Requests.{claims, method, exactly, at_location}
use keycloak_oidc4ac_lab.E2e.Lab.{Network, Lab, Constants}
use keycloak_oidc4ac_lab.E2e.Pages.{require_error}
use keycloak_oidc4ac_lab.E2e.Authorize.{authorize, defaults, require, same_forms}
use keycloak_oidc4ac_lab.E2e.Scenarios.Sections.{combined}

-- A request for the ID Token only.
abbrev for_id_token : Dict Value → Dict Value
for_id_token details = ("id_token", at_location (("essential", bool true) ∷ details)) ∷ []

abbrev password_with : Dict Value → Dict Value
password_with properties = method "pwd" (some properties) none

abbrev invalid_requests : List (Dict Value)
invalid_requests =
    for_id_token (("unknown_operator", array []) ∷ [])
    ∷ for_id_token (
        combined "all_of"
          (Dict.update (("essential", bool true) ∷ []) (method "pwd" none none) ∷ []))
    ∷ for_id_token (
        password_with (
          (
            "pwd_iterations",
            object (("value", int (pos 1)) ∷ ("values", array (int (pos 1) ∷ [])) ∷ []),
          )
          ∷ []))
    ∷ for_id_token (password_with (("pwd_iterations", object (("max_age", int (pos 1)) ∷ [])) ∷ []))
    ∷ []

module _ {W : Type 0} (net : Network W) (constants : Constants) where
  -- The request is refused before a form is shown.
  unfoldable pub is_rejected : Dict Value → String → Action (Lab W) Unit
  is_rejected request message = do
    page ← authorize net constants request defaults
    result ← lift (require_error net "invalid_request" page)
    require (same_forms result.forms []) message

  unfoldable pub malformed_logical_expression_is_rejected : Action (Lab W) Unit
  unfolding is_rejected
  malformed_logical_expression_is_rejected =
      is_rejected (for_id_token (("all_of", array []) ∷ []))
        "Malformed logical grammar reached an authentication form."

  unfoldable pub invalid_method_shape_is_rejected : Action (Lab W) Unit
  unfolding is_rejected
  invalid_method_shape_is_rejected =
      is_rejected
        (for_id_token (("amr_identifier", exactly "pwd") ∷ ("amr_metadata", object []) ∷ []))
        "An invalid method object reached an authentication form."

  -- The loop over the variants.
  unfoldable pub all_rejected : List (Dict Value) → Action (Lab W) Unit
  unfolding is_rejected
  all_rejected [] = pure tt
  all_rejected (request ∷ requests) =
      is_rejected request "Invalid grammar variant reached an authentication form."
      >> all_rejected requests

  unfoldable pub invalid_request_grammar_variants_are_rejected : Action (Lab W) Unit
  unfolding all_rejected
  invalid_request_grammar_variants_are_rejected = all_rejected invalid_requests

  unfoldable pub essential_constraint_failure_is_generic : Action (Lab W) Unit
  essential_constraint_failure_is_generic = do
    page ←
        authorize net constants
          (claims
            (password_with (
              (
                "pwd_derivation_algorithm",
                object (("value", str "not-a-real-derivation") ∷ ("essential", bool true) ∷ []),
              )
              ∷ []))
            true true true)
          defaults
    result ← lift (require_error net "unmet_authentication_requirements" page)
    require (same_forms result.forms ("kc-form-login" ∷ []))
        "A supported password request should reach the password screen before its property fails."
    require (not (contains "not-a-real-derivation" result.response.text))
        "The public error leaked an essential property constraint value."
