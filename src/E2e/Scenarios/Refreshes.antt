-- ===== src/E2e/Scenarios/Refreshes.antt =====
-- Scenarios of e2e/http/run.py that refresh a grant and compare its event with the first one.
use keycloak_oidc4ac_lab.Prelude.{
  String, Bool, true, false, not, none, some, [], ◌∷◌, map, ◌<>◌, contains, traverse,
}
use keycloak_oidc4ac_lab.Prelude.Dict
use keycloak_oidc4ac_lab.Prelude.Dict.{Dict}
use keycloak_oidc4ac_lab.Prelude.Action.{Action, lift, gets, ◌>>=◌, ◌>>◌}
use keycloak_oidc4ac_lab.Json.{Value, null, str, array, object}
use keycloak_oidc4ac_lab.Json.Equality.{same_value}
use keycloak_oidc4ac_lab.E2e.Requests.{claims, method}
use keycloak_oidc4ac_lab.E2e.Lab.{Network, Lab, Constants, outside}
use keycloak_oidc4ac_lab.E2e.Pages.{AuthorizationResult, require_success}
use keycloak_oidc4ac_lab.E2e.Authorize.{authorize, defaults, require, clear_keycloak_cookies}
use keycloak_oidc4ac_lab.E2e.Authorize.Success.{success_result}
use keycloak_oidc4ac_lab.E2e.Scenarios.Sections.{
  has_key, has_property, needs_dict, details_in, details_list, identifier_of, complete_event,
  combined, id_token_of, userinfo_of, access_token_of,
}

-- A dict of executions, and a list of them, as values.
abbrev pub mapped : Dict (Dict Value) → Value
mapped details = object (map (λ (k, d). (k, object d)) details)

-- `str(access_token.get("scope", ""))`
abbrev scope_text : (Value → String) → Dict Value → String
scope_text text_of access_token = elim (Dict.lookup "scope" access_token) [
  | none ↦ ""
  | some v ↦ text_of v
]

module _ {W : Type 0} (net : Network W) (constants : Constants)
    (equal_numbers : Value → Value → Bool) where
  abbrev same : Value → Value → Bool
  same = same_value equal_numbers

  -- `session.post(f"{CLIENT}/refresh", …)`, as a result without forms.
  unfoldable pub refreshed : AuthorizationResult → Action (Lab W) AuthorizationResult
  refreshed result = do
    settings ← gets (λ s. s.settings)
    response ← outside (net.post_followed result.session (settings.client <> "/refresh") [])
    lift
        (require_success net (record { session = result.session; response = response; forms = [] }))

  -- The attempt with this number: the refreshed page shows the executions of the first one, in both places.
  unfoldable pub refresh_attempt :
      String → AuthorizationResult → Dict (Dict Value) × Dict (Dict Value) → Action (Lab W) Unit
  unfolding refreshed
  refresh_attempt attempt result details = do
    page ← refreshed result
    require (contains "Refresh token response" page.response.text)
        ("The test client did not render refresh attempt " <> attempt <> ".")
    refreshed_id ← id_token_of net page
    refreshed_userinfo ← userinfo_of net page
    in_id ← lift (details_in refreshed_id)
    require (same (mapped in_id) (mapped details.0)) (
        "Refresh-derived ID Token attempt " <> attempt
        <> " did not reuse the authorization event snapshot.")
    in_userinfo ← lift (details_in refreshed_userinfo)
    require (same (mapped in_userinfo) (mapped details.1)) (
        "Refresh-derived UserInfo attempt " <> attempt
        <> " did not reuse the authorization event snapshot.")

  unfoldable pub essential_password_and_refresh : Action (Lab W) Unit
  unfolding refresh_attempt
  essential_password_and_refresh = do
    (result, id_token, userinfo) ←
        success_result net constants
          (claims (method "pwd" (some (("pwd_derivation_algorithm", null) ∷ [])) (some 300)) true
            true true)
          ("kc-form-login" ∷ [])
    details ← lift (complete_event id_token userinfo ("pwd" ∷ []))
    in_token ← lift (has_property "pwd" "pwd_derivation_algorithm" details.0)
    require in_token "Requested password property was absent from the ID Token projection."
    in_userinfo ← lift (has_property "pwd" "pwd_derivation_algorithm" details.1)
    require in_userinfo "Requested password property was absent from the UserInfo projection."
    refresh_attempt "1" result details
    refresh_attempt "2" result details

  unfoldable pub offline_refresh_reuses_the_same_snapshot : Action (Lab W) Unit
  unfolding refreshed
  offline_refresh_reuses_the_same_snapshot = do
    page ←
        authorize net constants (claims (method "pwd" none none) true true true)
          (record defaults { offline_access = true })
    result ← lift (require_success net page)
    id_token ← id_token_of net result
    original ← lift (details_list id_token)
    access_section ← access_token_of net result
    access_token ← lift (needs_dict access_section)
    require (contains "offline_access" (scope_text net.text_of access_token))
        "The offline-access request did not receive the requested offline scope."
    outside (clear_keycloak_cookies net result.session)
    refresh_result ← refreshed result
    refreshed_id ← id_token_of net refresh_result
    details ← lift (details_list refreshed_id)
    require (same (array details) (array original))
        "Offline refresh reconstructed or changed the authentication event."
    refreshed_access ← access_token_of net refresh_result
    leaked ← lift (has_key "amr_details" refreshed_access)
    require (not leaked) "Offline refresh leaked amr_details into the access token."

  unfoldable pub old_grant_userinfo_survives_a_later_authentication : Action (Lab W) Unit
  unfolding refreshed
  old_grant_userinfo_survives_a_later_authentication = do
    page ← authorize net constants (claims (method "pwd" none none) true true true) defaults
    first ← lift (require_success net page)
    first_id ← id_token_of net first
    first_details ← lift (details_list first_id)
    first_cookies ← outside (net.cookies first.session)
    later_session ← outside net.new_session
    outside (net.set_cookies later_session first_cookies)
    later_page ←
        authorize net constants
          (claims (combined "all_of" (method "pwd" none none ∷ method "otp" none none ∷ [])) true
            true true)
          (record defaults { session = some later_session; prompt_login = false })
    stronger ← lift (require_success net later_page)
    stronger_id ← id_token_of net stronger
    stronger_details ← lift (details_list stronger_id)
    identifiers ← lift (traverse identifier_of stronger_details)
    require (same (array identifiers) (array (str "pwd" ∷ str "otp" ∷ [])))
        "The later authentication did not record the stronger authentication event."
    old_result ← refreshed first
    old_id ← id_token_of net old_result
    old_details ← lift (details_list old_id)
    require (same (array old_details) (array first_details))
        "A later login changed the older grant's refresh snapshot."
    old_userinfo ← userinfo_of net old_result
    userinfo_details ← lift (details_list old_userinfo)
    require (same (array userinfo_details) (array first_details))
        "Later UserInfo was reconstructed from mutable session state."
