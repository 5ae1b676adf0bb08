-- ===== src/Evaluation/Compatibility/Main.antt =====
-- The run of evaluation/compatibility/oidc4ac-compatibility-matrix.py against the two servers.
use keycloak_oidc4ac_lab.Prelude.{ℕ, String, true, false, not, none, some, nat_eq, ◌<>◌, ◌||◌}
use keycloak_oidc4ac_lab.Prelude.Dict.{Dict}
use keycloak_oidc4ac_lab.Prelude.Action.{Action, lift, pure, ◌>>=◌, ◌>>◌}
use keycloak_oidc4ac_lab.Json.{Value, negsuc}
use keycloak_oidc4ac_lab.E2e.Requests.{claims, method}
use keycloak_oidc4ac_lab.E2e.Lab.{Network, Lab, Reply, Settings, Constants, outside}
use keycloak_oidc4ac_lab.E2e.Pages.{AuthorizationResult, json_section, require_success}
use keycloak_oidc4ac_lab.E2e.Authorize
use keycloak_oidc4ac_lab.E2e.Authorize.{Options, defaults, require}
use keycloak_oidc4ac_lab.E2e.Scenarios.Sections.{has_key}
use keycloak_oidc4ac_lab.Evaluation.Cycles.{modify_settings}
use keycloak_oidc4ac_lab.Evaluation.Compatibility.{
  Endpoint, enabled, disabled, configure, discovery, has_details, ordinary_success,
}
use keycloak_oidc4ac_lab.Evaluation.Compatibility.Matrix.{
  item_at, reports, advertises, declines_requests, both, with_builtin_flow, executed_as_built_in,
  admin_password_grant, base_of,
}

-- `requests.post`, `.get` and `.put` outside of a session, with a form, with a bearer token, and with
-- a bearer token and a JSON body.
pub record RealmApi (W : Type 0) : Type 0 where
  pub post : String → Dict String → Action W Reply
  pub get : String → String → Action W Reply
  pub put : String → String → Value → Action W Reply

module _ {W : Type 0} (net : Network W) (api : RealmApi W) where
  unfoldable pub use_flow_without_planner : Endpoint → Action W Unit
  use_flow_without_planner endpoint = do
    token ←
        api.post (base_of endpoint.issuer <> "/realms/master/protocol/openid-connect/token")
          admin_password_grant
    require (nat_eq token.status 200) "Could not obtain an admin token."
    answer ← lift (net.body token)
    access_token ← lift (item_at "access_token" answer)
    let bearer = net.text_of access_token
    let realm_url = base_of endpoint.issuer <> "/admin/realms/oidc4ac"
    current ← api.get realm_url bearer
    realm ← lift (net.body current)
    changed ← lift (with_builtin_flow realm)
    update ← api.put realm_url bearer changed
    require (nat_eq update.status 200 || nat_eq update.status 204)
        "Could not bind the built-in browser flow."

  module _ (constants : Constants) where
    abbrev password_request : Dict Value
    password_request = claims (method "pwd" none none) true true true

    -- `LAST_TOTP_COUNTER = -1`: no code has been used, and the first one need not wait.
    abbrev no_wait : Settings → Settings
    no_wait settings = record settings { last_totp_counter = some (negsuc 0) }

    -- A relying party and an OpenID provider without the extension.
    unfoldable pub legacy_op : Action (Lab W) AuthorizationResult
    legacy_op = do
      metadata ← outside (discovery net disabled)
      advertised ← lift (advertises "amr_details" metadata)
      require (not advertised) "Legacy OP advertised amr_details."
      ordinary_success net constants disabled none true

    unfoldable pub legacy_rp : Action (Lab W) AuthorizationResult
    legacy_rp = do
      metadata ← outside (discovery net enabled)
      advertised ← lift (advertises "amr_details" metadata)
      require advertised "OIDC4AC OP did not advertise amr_details."
      ordinary_success net constants enabled none true

    -- The relying party falls back to ordinary requests; a structured one is ignored.
    unfoldable pub fallback : AuthorizationResult → Action (Lab W) Unit
    fallback legacy = do
      ordinary ← ordinary_success net constants disabled (some legacy.session) false
      page ←
          Authorize.authorize net constants password_request
            (record defaults { session = some ordinary.session; prompt_login = false })
      direct ← lift (require_success net page)
      disclosed ← lift (has_details net direct)
      require (not disclosed) "OIDC4AC RP / legacy OP: legacy OP emitted amr_details."

    unfoldable pub extended : Action (Lab W) Unit
    extended = do
      modify_settings (configure enabled)
      page ← Authorize.authorize net constants password_request defaults
      result ← lift (require_success net page)
      id_token ← lift (json_section net result "Verified ID Token")
      userinfo ← lift (json_section net result "Access-token-bound UserInfo")
      delivered ← lift (both (has_key "amr_details" id_token) (has_key "amr_details" userinfo))
      require delivered "OIDC4AC OP did not deliver amr_details in both locations."
      reported ← lift (both (reports "pwd" id_token) (reports "pwd" userinfo))
      require reported "OIDC4AC OP did not report the requested pwd method."

    -- Without the planner the provider ignores the request and reports what occurred.
    unfoldable pub informational : Action (Lab W) Unit
    informational = do
      outside (use_flow_without_planner enabled)
      metadata ← outside (discovery net enabled)
      offered ← lift (both (advertises "amr_details" metadata) (declines_requests metadata))
      require offered
          "Informational-only OP did not advertise amr_details without request-processing support."
      modify_settings (configure enabled)
      page ←
          Authorize.authorize net constants (claims (method "pop" none none) true true true)
            defaults
      result ← lift (require_success net page)
      id_token ← lift (json_section net result "Verified ID Token")
      occurred ← lift (executed_as_built_in id_token)
      require occurred "Informational-only OP reported other executions than those that occurred."

    unfoldable pub main : Action (Lab W) ℕ
    unfolding legacy_op legacy_rp fallback extended informational
    main = do
      modify_settings no_wait
      legacy ← legacy_op
      legacy_rp
      fallback legacy
      extended
      informational
      pure 0
