-- ===== src/E2e/Scenarios/Disclosure.antt =====
-- Scenarios of e2e/http/run.py about where the details are disclosed.
use keycloak_oidc4ac_lab.Prelude.{
  if◌then◌else◌, String, true, false, not, none, some, [], ◌∷◌, ◌==◌, ◌&&◌, contains,
}
use keycloak_oidc4ac_lab.Prelude.Dict
use keycloak_oidc4ac_lab.Prelude.Dict.{Dict}
use keycloak_oidc4ac_lab.Prelude.Action.{Action, pure, lift, ◌>>=◌, ◌>>◌}
use keycloak_oidc4ac_lab.Json.{Value, null, bool, str, object}
use keycloak_oidc4ac_lab.E2e.Requests.{claims, method}
use keycloak_oidc4ac_lab.E2e.Lab.{Network, Lab, Constants}
use keycloak_oidc4ac_lab.E2e.Pages.{AuthorizationResult, require_success}
use keycloak_oidc4ac_lab.E2e.Authorize.{authorize, Options, defaults, require, same_forms}
use keycloak_oidc4ac_lab.E2e.Details.{time_at}
use keycloak_oidc4ac_lab.E2e.Scenarios.Sections.{
  has_key, needs_dict, details_in, complete_event, execution_of, is_exactly, id_token_of,
  userinfo_of, access_token_of,
}

-- `{"amr_details": value}` at both locations
abbrev at_both : Value → Dict Value
at_both details =
    let location : Value = object (("amr_details", details) ∷ []) in
    ("id_token", location) ∷ ("userinfo", location) ∷ []

module _ {W : Type 0} (net : Network W) (constants : Constants) where
  abbrev successful : Dict Value → Options → Action (Lab W) AuthorizationResult
  successful request options =
      authorize net constants request options >>= λ page. lift (require_success net page)

  unfoldable pub access_token_does_not_contain_amr_details : Action (Lab W) Unit
  access_token_does_not_contain_amr_details = do
    result ← successful (claims (method "pwd" none none) true true true) defaults
    access_token ← access_token_of net result
    d ← lift (needs_dict access_token)
    elim (Dict.lookup "sub" d) [
      | some (str s) ↦ pure tt
      | _ ↦ require false "The test client could not decode the verified access-token payload."
    ]
    require (not (Dict.mem "amr_details" d)) "OIDC4AC amr_details leaked into the access token."

  unfoldable pub null_claim_requests_complete_event : Action (Lab W) Unit
  null_claim_requests_complete_event = do
    result ← successful (at_both null) defaults
    id_token ← id_token_of net result
    userinfo ← userinfo_of net result
    events ← lift (complete_event id_token userinfo ("pwd" ∷ []))
    in_token ← lift (execution_of "pwd" events.0)
    require (Dict.mem "amr_properties" in_token)
        "A null claim request did not return available password properties."
    in_userinfo ← lift (execution_of "pwd" events.1)
    require (Dict.mem "amr_properties" in_userinfo)
        "A null claim request did not return available UserInfo properties."

  unfoldable pub essential_claim_without_expression : Action (Lab W) Unit
  essential_claim_without_expression = do
    result ← successful (at_both (object (("essential", bool true) ∷ []))) defaults
    id_token ← id_token_of net result
    userinfo ← userinfo_of net result
    events ← lift (complete_event id_token userinfo ("pwd" ∷ []))
    executed ← lift (time_at events.0 "pwd")
    require (not (executed == ""))
        "An essential claim without an expression omitted the mandatory execution time."
    delivered ← lift (time_at events.1 "pwd")
    require (delivered == executed)
        "ID Token and UserInfo did not use the same event for an expression-free essential claim."

  unfoldable pub ordinary_oidc_login_without_claims_parameter : Action (Lab W) Unit
  ordinary_oidc_login_without_claims_parameter = do
    result ← successful [] (record defaults { omit_claims = true })
    require (same_forms result.forms ("kc-form-login" ∷ []))
        "An ordinary OIDC login did not use the normal password form."
    id_token ← id_token_of net result
    userinfo ← userinfo_of net result
    in_token ← lift (has_key "amr_details" id_token)
    found ← if in_token then pure true else lift (has_key "amr_details" userinfo)
    require (not found) "A request without a claims parameter unexpectedly received amr_details."

  unfoldable pub best_effort_unsupported_method_does_not_block_login : Action (Lab W) Unit
  best_effort_unsupported_method_does_not_block_login = do
    result ← successful (claims (method "face" none none) true true false) defaults
    require (same_forms result.forms ("kc-form-login" ∷ []))
        "A best-effort unsupported method did not fall back to normal login."
    id_token ← id_token_of net result
    userinfo ← userinfo_of net result
    require
        (not (contains "face" (net.dumps_default id_token))
          && not (contains "face" (net.dumps_default userinfo)))
        "A best-effort unsupported method was presented as if it had executed."

  -- `detail_map(section)["pwd"]["amr_identifier"] == "pwd"`
  abbrev names_password : Value → String → Action (Lab W) Unit
  names_password section message = do
    details ← lift (details_in section)
    detail ← lift (execution_of "pwd" details)
    require (is_exactly "pwd" (Dict.lookup "amr_identifier" detail)) message

  unfoldable pub single_location_disclosure : Action (Lab W) Unit
  single_location_disclosure = do
    id_only_result ← successful (claims (method "pwd" none none) true false true) defaults
    id_only ← id_token_of net id_only_result
    id_only_userinfo ← userinfo_of net id_only_result
    names_password id_only "The ID Token-only request did not preserve the requested execution."
    in_userinfo ← lift (has_key "amr_details" id_only_userinfo)
    require (not in_userinfo) "UserInfo received a claim that was not requested there."
    userinfo_only_result ← successful (claims (method "pwd" none none) false true true) defaults
    userinfo_only ← id_token_of net userinfo_only_result
    userinfo_only_userinfo ← userinfo_of net userinfo_only_result
    in_token ← lift (has_key "amr_details" userinfo_only)
    require (not in_token) "The ID Token received a claim that was not requested there."
    names_password userinfo_only_userinfo
        "The UserInfo-only request did not preserve the requested execution."
