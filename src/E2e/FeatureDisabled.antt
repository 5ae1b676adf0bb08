-- ===== src/E2e/FeatureDisabled.antt =====
-- tests/feature-disabled.py, against a server that was started without the extension.
pub mod Sound
use keycloak_oidc4ac_lab.Prelude.{
  ℕ, String, Bool, true, false, not, [], ◌∷◌, nat_eq, ◌<>◌, ◌||◌, contains, Result, err,
  assertion_error,
}
use keycloak_oidc4ac_lab.Prelude.Dict.{Dict}
use keycloak_oidc4ac_lab.Prelude.Action.{Action, lift, pure, raise, ◌>>=◌, ◌>>◌}
use keycloak_oidc4ac_lab.Json.{Value}
use keycloak_oidc4ac_lab.E2e.Lab.{Reply, Network}
use keycloak_oidc4ac_lab.E2e.Scenarios.Sections.{has_key}
use keycloak_oidc4ac_lab.Evaluation.Compatibility.Main.{RealmApi}
use keycloak_oidc4ac_lab.Evaluation.Compatibility.Matrix.{
  item_at, advertises, with_builtin_flow, admin_password_grant,
}

-- `check(condition, message)`
abbrev pub check : {W : Type 0} → Bool → String → Action W Unit
check true message = pure tt
check false message = raise (assertion_error message)

abbrev pub parameters : Dict String
parameters =
    ("response_type", "code")
    ∷ ("client_id", "oidc4ac-test-client")
    ∷ ("redirect_uri", "http://localhost:5003/callback")
    ∷ ("scope", "openid")
    ∷ ("state", "feature-disabled-state")
    ∷ ("nonce", "feature-disabled-nonce")
    ∷ ("claims", "{\"id_token\":{\"amr_details\":{\"amr_identifier\":{\"value\":\"pwd\"}}}}")
    ∷ []

abbrev pub realm_url : String
realm_url = "http://localhost:8187/admin/realms/oidc4ac"

-- `authorization` is `requests.get(url, params=…, allow_redirects=False)`.
module _ {W : Type 0} (net : Network W) (api : RealmApi W)
    (authorization : String → Dict String → Action W Reply) (issuer : String) where
  unfoldable pub unadvertised : Action W Unit
  unadvertised = do
    discovery ← net.fetch (issuer <> "/.well-known/openid-configuration")
    check (nat_eq discovery.status 200) "Disabled-feature discovery returned an error."
    metadata ← lift (net.body discovery)
    advertised ← lift (advertises "amr_details" metadata)
    check (not advertised) "Disabled OIDC4AC unexpectedly advertised amr_details support."
    capable ← lift (has_key "amr_identifiers_supported" metadata)
    check (not capable) "Disabled OIDC4AC unexpectedly advertised method capabilities."

  unfoldable pub bind_builtin_flow : Action W Unit
  bind_builtin_flow = do
    admin ←
        api.post "http://localhost:8187/realms/master/protocol/openid-connect/token"
          admin_password_grant
    check (nat_eq admin.status 200) "Could not obtain the disabled-server admin token."
    answer ← lift (net.body admin)
    token ← lift (item_at "access_token" answer)
    current ← api.get realm_url (net.text_of token)
    realm ← lift (net.body current)
    changed ← lift (with_builtin_flow realm)
    update ← api.put realm_url (net.text_of token) changed
    check (nat_eq update.status 204 || nat_eq update.status 200)
        "Could not bind the built-in browser flow."

  unfoldable pub ordinary_authorization : Action W Unit
  ordinary_authorization = do
    response ← authorization (issuer <> "/protocol/openid-connect/auth") parameters
    check (nat_eq response.status 200 || nat_eq response.status 302)
        "Disabled-feature authorization returned an error."
    check (not (contains "unmet_authentication_requirements" response.text))
        "Disabled OIDC4AC emitted its experimental authentication error."

  unfoldable pub main : Action W ℕ
  main = unadvertised >> (bind_builtin_flow >> (ordinary_authorization >> pure 0))
