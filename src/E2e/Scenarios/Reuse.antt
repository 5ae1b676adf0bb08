-- ===== src/E2e/Scenarios/Reuse.antt =====
-- Scenarios of e2e/http/run.py that reuse a browser session.
use keycloak_oidc4ac_lab.Prelude.{if◌then◌else◌, Bool, true, false, not, none, some, [], ◌∷◌, ◌==◌}
use keycloak_oidc4ac_lab.Prelude.Dict.{Dict}
use keycloak_oidc4ac_lab.Prelude.Action.{Action, pure, lift, ◌>>=◌, ◌>>◌}
use keycloak_oidc4ac_lab.Json.{Value}
use keycloak_oidc4ac_lab.E2e.Requests.{claims, method}
use keycloak_oidc4ac_lab.E2e.Lab.{Network, Lab, Constants, outside}
use keycloak_oidc4ac_lab.E2e.Pages.{AuthorizationResult, require_success}
use keycloak_oidc4ac_lab.E2e.Authorize.{authorize, defaults, require, same_forms}
use keycloak_oidc4ac_lab.E2e.Details.{time_at}
use keycloak_oidc4ac_lab.E2e.Scenarios.Sections.{
  has_key, details_in, complete_event, combined, id_token_of, userinfo_of,
}

module _ {W : Type 0} (net : Network W) (constants : Constants) where
  -- `authorize(request, session=first.session, prompt_login=False).require_success()`
  abbrev again : Dict Value → Bool → AuthorizationResult → Action (Lab W) AuthorizationResult
  again request omit_claims first =
      authorize net constants request (record defaults {
        session = some first.session;
        prompt_login = false;
        omit_claims = omit_claims;
      })
      >>= λ page. lift (require_success net page)

  abbrev password_login : Action (Lab W) AuthorizationResult
  password_login =
      authorize net constants (claims (method "pwd" none none) true true true) defaults >>= λ page.
      lift (require_success net page)

  unfoldable pub oidc4ac_sso_reuse_preserves_original_execution_time : Action (Lab W) Unit
  oidc4ac_sso_reuse_preserves_original_execution_time = do
    first ← password_login
    first_section ← id_token_of net first
    first_id ← lift (details_in first_section)
    second ← again (claims (method "pwd" none none) true true true) false first
    require (same_forms second.forms [])
        "A satisfied OIDC4AC SSO request unexpectedly reauthenticated."
    second_section ← id_token_of net second
    second_id ← lift (details_in second_section)
    reused ← lift (time_at second_id "pwd")
    original ← lift (time_at first_id "pwd")
    require (reused == original) "OIDC4AC SSO reuse changed the original password execution time."
    userinfo_section ← userinfo_of net second
    second_userinfo ← lift (details_in userinfo_section)
    delivered ← lift (time_at second_userinfo "pwd")
    require (delivered == original)
        "OIDC4AC SSO UserInfo did not reuse the original execution time."

  unfoldable pub ordinary_sso_reuse_without_oidc4ac_claim : Action (Lab W) Unit
  ordinary_sso_reuse_without_oidc4ac_claim = do
    page ← authorize net constants [] (record defaults { omit_claims = true })
    first ← lift (require_success net page)
    second ← again [] true first
    require (same_forms second.forms []) "SSO reuse unexpectedly displayed an authentication form."
    id_token ← id_token_of net second
    userinfo ← userinfo_of net second
    in_token ← lift (has_key "amr_details" id_token)
    in_userinfo ← if in_token then pure true else lift (has_key "amr_details" userinfo)
    require (not in_userinfo) "Ordinary SSO reuse unexpectedly produced an OIDC4AC claim."

  unfoldable pub sso_reauthentication_for_stronger_request : Action (Lab W) Unit
  sso_reauthentication_for_stronger_request = do
    first ← password_login
    second ←
        again
          (claims (combined "all_of" (method "pwd" none none ∷ method "otp" none none ∷ [])) true
            true true)
          false first
    require (same_forms second.forms ("kc-form-login" ∷ "kc-otp-login-form" ∷ []))
        "A stronger SSO request did not re-run the configured factor flow."
    id_token ← id_token_of net second
    userinfo ← userinfo_of net second
    events ← lift (complete_event id_token userinfo ("pwd" ∷ "otp" ∷ []))
    executed ← lift (time_at events.0 "pwd")
    require (not (executed == "")) "Reauthenticated password execution had no timestamp."
    delivered ← lift (time_at events.1 "pwd")
    require (delivered == executed) "UserInfo did not reuse the reauthentication event timestamp."

  unfoldable pub max_age_forces_reauthentication : Action (Lab W) Unit
  max_age_forces_reauthentication = do
    first ← password_login
    outside (net.pause 2000000)
    second ← again (claims (method "pwd" none (some 1)) true true true) false first
    require (same_forms second.forms ("kc-form-login" ∷ []))
        "An essential max_age=1 request reused a stale password SSO event."
