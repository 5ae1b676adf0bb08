-- ===== src/Evaluation/Compatibility.antt =====
-- The building blocks of evaluation/compatibility/oidc4ac-compatibility-matrix.py.
pub mod Matrix
pub mod Main
pub mod Passed
use keycloak_oidc4ac_lab.Prelude.{
  ℕ, String, Bool, true, not, Option, [], Result, ok, err, nat_eq, ◌<>◌, if◌then◌else◌,
}
use keycloak_oidc4ac_lab.Prelude.Action.{Action, lift, pure, ◌>>=◌, ◌>>◌}
use keycloak_oidc4ac_lab.Json.{Value}
use keycloak_oidc4ac_lab.E2e.Lab.{Network, Lab, Settings, Constants}
use keycloak_oidc4ac_lab.E2e.Pages.{AuthorizationResult, json_section, require_success}
use keycloak_oidc4ac_lab.E2e.Authorize
use keycloak_oidc4ac_lab.E2e.Authorize.{Options, defaults, require}
use keycloak_oidc4ac_lab.E2e.Scenarios.Sections.{has_key}
use keycloak_oidc4ac_lab.Evaluation.Cycles.{modify_settings}

pub record Endpoint : Type 0 where
  pub client : String
  pub issuer : String

abbrev pub enabled : Endpoint
enabled = record {
  client = "http://localhost:5003";
  issuer = "http://localhost:8186/realms/oidc4ac";
}

abbrev pub disabled : Endpoint
disabled = record {
  client = "http://client.localhost:5001";
  issuer = "http://localhost:8187/realms/oidc4ac";
}

unfoldable pub configure : Endpoint → Settings → Settings
configure endpoint settings = record settings { client = endpoint.client; issuer = endpoint.issuer }

module _ {W : Type 0} (net : Network W) where
  unfoldable pub discovery : Endpoint → Action W Value
  discovery endpoint = do
    response ← net.fetch (endpoint.issuer <> "/.well-known/openid-configuration")
    require (nat_eq response.status 200) "Discovery returned an error."
    lift (net.body response)

  abbrev pub section_has_details : AuthorizationResult → String → Result Bool
  section_has_details result heading = elim (json_section net result heading) [
    | err e ↦ err e
    | ok v ↦ has_key "amr_details" v
  ]

  -- `or`: the second section is read only where the first has no details.
  unfoldable pub has_details : AuthorizationResult → Result Bool
  has_details result = elim (section_has_details result "Verified ID Token") [
    | err e ↦ err e
    | ok found ↦ if found then ok true else section_has_details result "Access-token-bound UserInfo"
  ]

  unfoldable pub ordinary_success :
      Constants → Endpoint → Option ℕ → Bool → Action (Lab W) AuthorizationResult
  unfolding configure has_details
  ordinary_success constants endpoint session prompt_login = do
    modify_settings (configure endpoint)
    page ←
        Authorize.authorize net constants []
          (record defaults { session = session; prompt_login = prompt_login; omit_claims = true })
    result ← lift (require_success net page)
    disclosed ← lift (has_details result)
    require (not disclosed) "an ordinary OIDC request unexpectedly received amr_details."
    pure result
