-- ===== src/Client/Login.antt =====
-- The handlers `home`, `preview` and `login` of `create_app` in test-client/app.py.
pub mod Meaning
pub mod Escapes
use keycloak_oidc4ac_lab.Prelude.{
  ℕ, String, Bool, true, false, Option, none, some, ◌==◌, ◌<>◌, is_empty, if◌then◌else◌, [], ◌∷◌,
  Result, ok, err, ◌>>=◌,
}
use keycloak_oidc4ac_lab.Prelude.Dict
use keycloak_oidc4ac_lab.Prelude.Dict.{Dict}
use keycloak_oidc4ac_lab.Json.{Value, JsonText, object}
use keycloak_oidc4ac_lab.Client.Claims.{ClaimsError, claims, rejected, escaped, parse_claims}
use keycloak_oidc4ac_lab.Client.Caches.{Authorization, prune_caches}
use keycloak_oidc4ac_lab.Client.Pages.{
  Config, Provider, Redirect, home_page, preview_page, redirect_page, Inputs, Response, Site,
  Outcome, page_at, prune_site,
}

-- `form.get(name) == "on"`
abbrev pub is_on : String → Dict String → Bool
is_on name form = elim (Dict.lookup name form) [ none ↦ false | some v ↦ v == "on" ]

module _ (config : Config) (json : JsonText) where
  -- The page that `home_response` renders.
  abbrev pub index_page : Option String → Option ClaimsError → ℕ → Result Response
  index_page raw_claims error status =
      let composed : Result String = elim raw_claims [
        | none ↦ json.pretty (object config.default_claims)
        | some raw ↦ ok raw
      ] in
      composed >>= λ shown. page_at status (home_page shown error)

  home_response : Option String → Option ClaimsError → ℕ → Inputs → Site → Outcome
  home_response raw_claims error status inputs site = record {
    site = prune_site inputs site;
    response = index_page raw_claims error status;
  }

  abbrev pub claims_page : Dict Value → Result Response
  claims_page d = json.pretty (object d) >>= λ shown. page_at 200 (preview_page shown)

  unfoldable pub home : Inputs → Site → Outcome
  unfolding home_response
  home = home_response none none 200

  unfoldable pub preview : Dict String → Inputs → Site → Outcome
  unfolding home_response
  preview form inputs site =
      let raw_claims = Dict.lookup "claims_json" form in
      elim (parse_claims json raw_claims) [
        | claims d ↦ record { site = site; response = claims_page d }
        | rejected error ↦ home_response raw_claims (some error) 400 inputs site
        | escaped error ↦ record { site = site; response = err error }
      ]

  abbrev pub callback_url : String
  callback_url =
      if is_empty config.public_url
      then config.callback_endpoint
      else config.public_url <> "/callback"

  abbrev pub with_scope : Dict String → Dict String → Dict String
  with_scope form parameters =
      if is_on "offline_access" form
      then Dict.insert "scope" "openid profile email offline_access" parameters
      else parameters

  abbrev pub with_claims : Bool → Dict Value → Dict String → Dict String
  with_claims omit_claims d parameters =
      if omit_claims then parameters else Dict.insert "claims" (json.dumps (object d)) parameters

  abbrev pub with_prompt : Dict String → Dict String → Dict String
  with_prompt form parameters =
      if is_on "prompt_login" form then Dict.insert "prompt" "login" parameters else parameters

  abbrev pub authorization_of : Dict Value → Inputs → Authorization
  authorization_of d inputs = record {
    claims = d;
    nonce = inputs.nonce;
    created_at = inputs.stored_at;
  }

  -- The answer of authlib to a redirect: an exception, or the page.
  abbrev pub answered_redirect : Provider → Redirect → Result Response
  answered_redirect provider redirect =
      provider.server_metadata >>= λ _. page_at 302 (redirect_page redirect)

  -- `oauth.keycloak.authorize_redirect(callback_url, state=context_id, **parameters)`
  abbrev pub authorize_redirect :
      Provider → Dict String → Bool → Dict Value → Inputs → Result Response
  authorize_redirect provider form omit_claims d inputs =
      let parameters =
        with_prompt form
          (with_claims omit_claims d (with_scope form (("nonce", inputs.nonce) ∷ []))) in
      answered_redirect provider
        (record { callback_url = callback_url; state = inputs.fresh_id; parameters = parameters })

  -- The rest of `login`, once the claims are known.
  unfoldable pub start_authorization :
      Provider → Dict String → Bool → Dict Value → Inputs → Site → Outcome
  start_authorization provider form omit_claims d inputs site =
      let pruned = prune_caches inputs.pruned_at site.caches in
      record {
        site = record site {
          caches = record pruned {
            authorizations =
                Dict.insert inputs.fresh_id (authorization_of d inputs) pruned.authorizations;
          };
        };
        response = authorize_redirect provider form omit_claims d inputs;
      }

  unfoldable pub login : Provider → Dict String → Inputs → Site → Outcome
  unfolding home_response start_authorization
  login provider form inputs site =
      let raw_claims = Dict.lookup "claims_json" form in
      if is_on "omit_claims" form
      then start_authorization provider form true [] inputs site
      else elim (parse_claims json raw_claims) [
        | claims d ↦ start_authorization provider form false d inputs site
        | rejected error ↦ home_response raw_claims (some error) 400 inputs site
        | escaped error ↦ record { site = site; response = err error }
      ]
