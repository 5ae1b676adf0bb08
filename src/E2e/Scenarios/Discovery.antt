-- ===== src/E2e/Scenarios/Discovery.antt =====
-- The scenario of e2e/http/run.py that reads the discovery documents and previews a request.
use keycloak_oidc4ac_lab.Prelude.{
  String, Bool, true, false, none, some, List, [], ◌∷◌, ◌<>◌, ◌&&◌, nat_eq, contains, Result, ok,
}
use keycloak_oidc4ac_lab.Prelude.Dict
use keycloak_oidc4ac_lab.Prelude.Dict.{Dict}
use keycloak_oidc4ac_lab.Prelude.Action.{Action, lift, gets, ◌>>=◌, ◌>>◌}
use keycloak_oidc4ac_lab.Json.{Value, bool, str, array, object}
use keycloak_oidc4ac_lab.Json.Equality.{same_value}
use keycloak_oidc4ac_lab.E2e.Requests.{claims, method}
use keycloak_oidc4ac_lab.E2e.Lab.{Network, Lab, outside}
use keycloak_oidc4ac_lab.E2e.Authorize.{require}
use keycloak_oidc4ac_lab.E2e.Scenarios.Sections.{has_key, needs_dict, indexed}

-- `name in document.get(key, [])`
abbrev advertised : String → String → Dict Value → Result Bool
advertised name key document = elim (Dict.lookup key document) [
  | none ↦ ok false
  | some v ↦ has_key name v
]

-- `document.get(key) is True`
abbrev is_true : String → Dict Value → Bool
is_true key document = elim (Dict.lookup key document) [ some (bool b) ↦ b | _ ↦ false ]

module _ {W : Type 0} (net : Network W) (equal_numbers : Value → Value → Bool) where
  -- `document.get(key) == [text, …]`
  abbrev is_listed : List Value → String → Dict Value → Bool
  is_listed texts key document = elim (Dict.lookup key document) [
    | none ↦ false
    | some v ↦ same_value equal_numbers (array texts) v
  ]

  -- The visual builder's suggestion of a property of a method.
  unfoldable pub suggested : Value → String → String → String → Action (Lab W) Unit
  suggested metadata identifier name message = do
    methods ← lift (indexed "methods" metadata)
    described ← lift (indexed identifier methods)
    properties ← lift (indexed "properties" described)
    found ← lift (has_key name properties)
    require found message

  unfoldable pub discovery_and_workbench : Action (Lab W) Unit
  unfolding suggested
  discovery_and_workbench = do
    settings ← gets (λ s. s.settings)
    issuer_metadata ← outside (net.fetch (settings.issuer <> "/.well-known/openid-configuration"))
    require (nat_eq issuer_metadata.status 200) "Issuer discovery returned another status."
    body ← lift (net.body issuer_metadata)
    issuer_document ← lift (needs_dict body)
    has_claim ← lift (advertised "amr_details" "claims_supported" issuer_document)
    require has_claim "Enabled discovery did not advertise the amr_details claim."
    require (is_true "amr_details_request_supported" issuer_document)
        "Enabled discovery did not advertise request-mode support."
    require (is_listed (str "iss" ∷ str "location" ∷ []) "pwd_metadata_supported" issuer_document)
        "Discovery did not advertise the native password metadata vocabulary."
    require (is_listed (str "ip_address" ∷ []) "location_types_supported" issuer_document)
        "Discovery did not advertise the structured location type."
    discovery ← outside (net.fetch (settings.client <> "/discovery"))
    require (nat_eq discovery.status 200) "Test-client discovery endpoint returned another status."
    found ← lift (net.body discovery)
    metadata ← lift (needs_dict found)
    require
        (is_listed (str "email" ∷ str "otp" ∷ str "pop" ∷ str "pwd" ∷ []) "identifiers" metadata)
        "Discovery did not expose the native method identifiers."
    suggested found "email" "email_verification_method"
        "The visual builder did not receive the email property suggestion."
    suggested found "pwd" "pwd_derivation_algorithm"
        "The visual builder did not receive the password property suggestion."
    suggested found "otp" "otp_algorithm"
        "The visual builder did not receive the OTP property suggestion."
    session ← outside net.new_session
    let request = object (claims (method "pwd" none none) true true true)
    preview ← outside (
        net.post_followed session (settings.client <> "/preview")
          (("claims_json", some (net.dumps_default request)) ∷ []))
    require (nat_eq preview.status 200 && contains "amr_details" preview.text)
        "The test-client workbench could not preview a valid request."
