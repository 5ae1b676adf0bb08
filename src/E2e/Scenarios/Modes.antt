-- ===== src/E2e/Scenarios/Modes.antt =====
-- Scenarios of e2e/http/run.py that send their own authorization request: the response modes of an
-- error, and the validation of the client and of the redirect URI.
use keycloak_oidc4ac_lab.Prelude.{
  String, Bool, true, false, not, Option, none, some, List, [], ◌∷◌, ◌++◌, ◌<>◌, ◌==◌, nat_eq,
  contains, Result, ok, err, check_failure, index_error, if◌then◌else◌,
}
use keycloak_oidc4ac_lab.Prelude.Dict
use keycloak_oidc4ac_lab.Prelude.Dict.{Dict}
use keycloak_oidc4ac_lab.Prelude.Action.{Action, pure, lift, gets, ◌>>=◌, ◌>>◌}
use keycloak_oidc4ac_lab.Json.{object}
use keycloak_oidc4ac_lab.E2e.Requests.{claims, method}
use keycloak_oidc4ac_lab.E2e.Lab.{Reply, Network, Lab, outside}
use keycloak_oidc4ac_lab.E2e.Authorize.{require}
use keycloak_oidc4ac_lab.E2e.Authorize.Direct.{direct}
use keycloak_oidc4ac_lab.E2e.Jarm.{decode_unverified_jwt_payload}
use keycloak_oidc4ac_lab.E2e.Scenarios.Sections.{is_exactly}

-- What urllib.parse and `requests` make of addresses: the query and the fragment of one,
-- `parse_qs`, and the address that `params` is added to.
pub record Addresses : Type 0 where
  pub query : String → String
  pub fragment : String → String
  pub parse_qs : String → Dict (List String)
  pub with_params : String → Dict String → String

-- `location`, after the check that it is there
abbrev given_location : String → Option String → Result String
given_location message none = err (check_failure message)
given_location message (some location) = ok location

-- `values.get(name) == [text]`
abbrev is_single : String → Option (List String) → Bool
is_single text (some (found ∷ [])) = found == text
is_single text _ = false

-- `values.get(name) == text`, of the values of a form
abbrev is_value : String → Option (Option String) → Bool
is_value text (some (some found)) = found == text
is_value text _ = false

-- `values.get("response", [None])[0]`, after the check that it is there
abbrev response_token : Option (List String) → Result String
response_token none = err (check_failure "JARM redirect did not carry a response JWT.")
response_token (some []) = err index_error
response_token (some (encoded ∷ _)) = ok encoded

-- `parsed.query or parsed.fragment`
abbrev query_or_fragment : Addresses → String → String
query_or_fragment addresses location =
    let query = addresses.query location in
    if query == "" then addresses.fragment location else query

-- `response.headers.get("Location", "")`
abbrev location_or_empty : Reply → String
location_or_empty reply = elim reply.location [ none ↦ "" | some location ↦ location ]

module _ {W : Type 0} (net : Network W) (addresses : Addresses) where
  -- `parse_first_form(page).values`
  unfoldable pub first_values : String → Result (Dict (Option String))
  first_values page = elim (net.first_form page) [
    | none ↦ err (check_failure "Keycloak displayed a page without a usable form.")
    | some form ↦ ok form.values
  ]

  -- The address of an authorization request with these parameters.
  abbrev auth_url : String → Dict String → String
  auth_url issuer parameters =
      addresses.with_params (issuer <> "/protocol/openid-connect/auth") parameters

  unfoldable pub direct_authorization : Dict String → Bool → Action (Lab W) Reply
  unfolding direct
  direct_authorization request_parameters cancel_consent = do
    settings ← gets (λ s. s.settings)
    session ← outside net.new_session
    reply ← outside (net.get session (auth_url settings.issuer request_parameters))
    outside (direct net cancel_consent settings session 16 reply)

  -- The first parameters of a request of the test client.
  abbrev parameters_of : String → String → String → Dict String
  parameters_of client state nonce =
      ("response_type", "code")
      ∷ ("client_id", "oidc4ac-test-client")
      ∷ ("redirect_uri", client <> "/callback")
      ∷ ("scope", "openid")
      ∷ ("state", state)
      ∷ ("nonce", nonce)
      ∷ []

  -- `json.dumps` of a request for a method that the realm cannot carry out
  abbrev face_claims : String
  face_claims = net.json.dumps (object (claims (method "face" none none) true true true))

  abbrev unmet : String
  unmet = "unmet_authentication_requirements"

  -- The checks on the response in this mode.
  unfoldable pub error_carried : String → String → Reply → Action (Lab W) Unit
  unfolding first_values
  error_carried response_mode state response =
      if response_mode == "form_post"
      then (do
        values ← lift (first_values response.text)
        require (is_value unmet (Dict.lookup "error" values))
            "form_post did not carry the generic OIDC4AC error."
        require (is_value state (Dict.lookup "state" values))
            "form_post did not preserve the request state.")
      else (do
        location ← lift (
            given_location (response_mode <> " error response did not include a redirect location.")
              response.location)
        let values = addresses.parse_qs (
            if response_mode == "query"
            then addresses.query location
            else addresses.fragment location)
        require (is_single unmet (Dict.lookup "error" values))
            (response_mode <> " did not carry the generic OIDC4AC error.")
        require (is_single state (Dict.lookup "state" values))
            (response_mode <> " did not preserve the request state."))

  -- The loop over the response modes, for a request with these parameters.
  unfoldable pub unmet_error_in_modes : Dict String → String → List String → Action (Lab W) Unit
  unfolding direct_authorization error_carried
  unmet_error_in_modes common state [] = pure tt
  unmet_error_in_modes common state (response_mode ∷ response_modes) =
      let later = unmet_error_in_modes common state response_modes in
      do
        response ←
            direct_authorization (Dict.update common (("response_mode", response_mode) ∷ [])) false
        error_carried response_mode state response
        later

  unfoldable pub unmet_error_response_modes : Action (Lab W) Unit
  unfolding unmet_error_in_modes
  unmet_error_response_modes = do
    settings ← gets (λ s. s.settings)
    unmet_error_in_modes
        (parameters_of settings.client "response-mode-state" "response-mode-nonce"
          ++ (("claims", face_claims) ∷ []))
        "response-mode-state" ("query" ∷ "fragment" ∷ "form_post" ∷ [])

  unfoldable pub unmet_error_jarm_response_mode : Action (Lab W) Unit
  unfolding direct_authorization decode_unverified_jwt_payload
  unmet_error_jarm_response_mode = do
    settings ← gets (λ s. s.settings)
    response ←
        direct_authorization
          (parameters_of settings.client "jarm-response-mode-state" "jarm-response-mode-nonce"
            ++ (("response_mode", "jwt") ∷ ("claims", face_claims) ∷ []))
          false
    location ← lift (
        given_location "JARM error response did not include a redirect location." response.location)
    encoded ← lift (
        response_token
          (Dict.lookup "response" (addresses.parse_qs (query_or_fragment addresses location))))
    payload ← lift (decode_unverified_jwt_payload net.json encoded)
    require (is_exactly unmet (Dict.lookup "error" payload))
        "JARM did not carry the generic OIDC4AC error."
    require (is_exactly "jarm-response-mode-state" (Dict.lookup "state" payload))
        "JARM did not preserve the request state."

  -- `requests.get` of the authorization endpoint, which follows no redirect.
  unfoldable pub asked : Dict String → Action (Lab W) Reply
  asked parameters = do
    settings ← gets (λ s. s.settings)
    session ← outside net.new_session
    outside (net.get session (auth_url settings.issuer parameters))

  -- The parameters of a request with this client and this redirect URI.
  abbrev validated : String → String → Dict String
  validated client_id redirect_uri =
      ("response_type", "code")
      ∷ ("redirect_uri", redirect_uri)
      ∷ ("scope", "openid")
      ∷ ("state", "endpoint-validation-state")
      ∷ ("nonce", "endpoint-validation-nonce")
      ∷ ("claims", net.json.dumps (object (claims (method "pwd" none none) true true true)))
      ∷ ("client_id", client_id)
      ∷ []

  unfoldable pub client_and_redirect_validation_precedes_authentication : Action (Lab W) Unit
  unfolding asked
  client_and_redirect_validation_precedes_authentication = do
    settings ← gets (λ s. s.settings)
    invalid_client ← asked (validated "not-a-registered-client" (settings.client <> "/callback"))
    require (nat_eq invalid_client.status 400) "Invalid client request returned another status."
    require (not invalid_client.is_redirect) "Invalid client validation unexpectedly redirected."
    require (not (contains "invalid_request" (location_or_empty invalid_client)))
        "Invalid client validation exposed a redirect target."
    invalid_redirect ←
        asked (validated "oidc4ac-test-client" "http://localhost:5999/not-registered")
    require (nat_eq invalid_redirect.status 400) "Invalid redirect URI returned another status."
    require (not invalid_redirect.is_redirect) "Invalid redirect URI unexpectedly redirected."
    require (not (contains unmet invalid_redirect.text))
        "Redirect validation reached the OIDC4AC authentication error bridge."
