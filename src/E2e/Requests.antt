-- ===== src/E2e/Requests.antt =====
-- The claim requests that the suites build: `method` and `claims` of e2e/http/run.py, `method` and
-- `pop_claims` of e2e/browser/run.py.
use keycloak_oidc4ac_lab.Prelude.{
  ℕ, String, Bool, true, Option, none, some, List, [], ◌∷◌, map, if◌then◌else◌,
}
use keycloak_oidc4ac_lab.Prelude.Dict
use keycloak_oidc4ac_lab.Prelude.Dict.{Dict}
use keycloak_oidc4ac_lab.Json.{Value, bool, int, pos, str, array, object}

abbrev pub essential : Value
essential = object (("essential", bool true) ∷ [])

-- `{"value": identifier}`
abbrev pub exactly : String → Value
exactly identifier = object (("value", str identifier) ∷ [])

unfoldable pub time_constraint : Option ℕ → Dict Value
time_constraint none = ("essential", bool true) ∷ []
time_constraint (some max_age) = ("essential", bool true) ∷ ("max_age", int (pos max_age)) ∷ []

-- `if properties: result["amr_properties"] = properties`
abbrev with_properties : Option (Dict Value) → Dict Value → Dict Value
with_properties none d = d
with_properties (some []) d = d
with_properties (some (p ∷ ps)) d = Dict.insert "amr_properties" (object (p ∷ ps)) d

unfoldable pub method : String → Option (Dict Value) → Option ℕ → Dict Value
unfolding time_constraint
method identifier properties max_age = with_properties properties (
    ("amr_identifier", exactly identifier)
    ∷ ("amr_metadata", object (("time", object (time_constraint max_age)) ∷ []))
    ∷ [])

-- `{"essential": essential, **expression}`
unfoldable pub request_of : Dict Value → Bool → Dict Value
request_of expression is_essential = Dict.update (("essential", bool is_essential) ∷ []) expression

abbrev pub at_location : Dict Value → Value
at_location request = object (("amr_details", object request) ∷ [])

unfoldable pub claims : Dict Value → Bool → Bool → Bool → Dict Value
unfolding request_of
claims expression id_token userinfo is_essential =
    let request = request_of expression is_essential in
    let with_id_token : Dict Value =
      if id_token then ("id_token", at_location request) ∷ [] else [] in
    if userinfo then Dict.insert "userinfo" (at_location request) with_id_token else with_id_token

-- e2e/browser/run.py
unfoldable pub browser_method : String → Dict Value
browser_method identifier =
    ("amr_identifier", exactly identifier)
    ∷ ("amr_metadata", object (("time", essential) ∷ []))
    ∷ []

unfoldable pub pop_claims : List String → Dict Value
unfolding browser_method request_of
pop_claims identifiers =
    let expression : Dict Value =
      ("all_of", array (map (λ i. object (browser_method i)) identifiers)) ∷ [] in
    ("id_token", at_location (request_of expression true)) ∷ []
