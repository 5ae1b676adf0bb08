-- ===== src/E2e/Authorize/Success.antt =====
-- `success_result` of e2e/http/run.py, on which its scenarios stand.
use keycloak_oidc4ac_lab.Prelude.{String, List}
use keycloak_oidc4ac_lab.Prelude.Dict.{Dict}
use keycloak_oidc4ac_lab.Prelude.Action.{Action, lift, pure, ◌>>=◌, ◌>>◌}
use keycloak_oidc4ac_lab.Json.{Value}
use keycloak_oidc4ac_lab.E2e.Lab.{Network, Lab, Constants}
use keycloak_oidc4ac_lab.E2e.Pages.{AuthorizationResult, json_section, require_success}
use keycloak_oidc4ac_lab.E2e.Authorize.{authorize, defaults, require, same_forms}

module _ {W : Type 0} (net : Network W) (constants : Constants) where
  unfoldable pub success_result :
      Dict Value → List String → Action (Lab W) (AuthorizationResult × Value × Value)
  success_result request_claims expected_forms = do
    page ← authorize net constants request_claims defaults
    result ← lift (require_success net page)
    require (same_forms result.forms expected_forms)
        "Authentication screens differ from the expected."
    id_token ← lift (json_section net result "Verified ID Token")
    userinfo ← lift (json_section net result "Access-token-bound UserInfo")
    pure (result, id_token, userinfo)
