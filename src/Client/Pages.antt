-- ===== src/Client/Pages.antt =====
-- What the handlers of test-client/app.py are given and what they return.
use keycloak_oidc4ac_lab.Prelude.{ℕ, String, Bool, Option, Result, ok}
use keycloak_oidc4ac_lab.Prelude.Dict.{Dict}
use keycloak_oidc4ac_lab.Json.{Value}
use keycloak_oidc4ac_lab.Client.Claims.{ClaimsError}
use keycloak_oidc4ac_lab.Client.Caches.{Caches, prune_caches}

-- The constants that the process reads from its environment. `callback_endpoint` is what
-- `url_for("callback", _external=True)` returns.
pub record Config : Type 0 where
  pub public_url : String
  pub callback_endpoint : String
  pub default_claims : Dict Value

-- A token response of the provider, as authlib returns it.
abbrev pub Token : Type 0
Token = Dict Value

-- `oauth.keycloak` and `requests`, third-party code and a remote service, as they answer during
-- one request; `none` is an exception. `server_metadata` is what authlib does before it redirects: it
-- loads the metadata of the provider, over HTTP, and may raise.
pub record Provider : Type 0 where
  pub server_metadata : Result (Unit {0})
  pub authorize_access_token : Option Token
  pub fetch_access_token : Value → Option Token
  pub parse_id_token : Token → Option String → Option (Dict Value)
  pub userinfo : Token → Option (Dict Value)
  pub discovery_document : Result Value

-- The arguments of `render_result`, rendered.
pub record ResultPage : Type 0 where
  pub claims : String
  pub discovery : String
  pub id_token : String
  pub access_token : String
  pub userinfo : String
  pub allow_refresh : Bool
  pub source : String
  pub result_id : String

-- The call of `oauth.keycloak.authorize_redirect`.
pub record Redirect : Type 0 where
  pub callback_url : String
  pub state : String
  pub parameters : Dict String

pub data Page : Type 0 where
  home_page : String → Option ClaimsError → Page
  preview_page : String → Page
  error_page : String → String → Page
  result_page : ResultPage → Page
  redirect_page : Redirect → Page

pub record Response : Type 0 where
  pub page : Page
  pub status : ℕ

-- The readings of the clock and of `secrets.token_urlsafe` during one request, in the order in
-- which the handler makes them.
pub record Inputs : Type 0 where
  pub pruned_at : ℕ
  pub stored_at : ℕ
  pub nonce : String
  pub fresh_id : String

-- The process's caches beside what the program keeps in the browser's signed cookie,
-- `session["oidc4ac_result"]`. What authlib keeps there is part of `Provider`.
pub record Site : Type 0 where
  pub caches : Caches
  pub open caches use *
  pub session : Option String

-- What a handler leaves behind: an exception that it does not catch is Flask's HTTP 500.
pub record Outcome : Type 0 where
  pub site : Site
  pub response : Result Response

abbrev pub page_at : ℕ → Page → Result Response
page_at status page = ok (record { page = page; status = status })

abbrev pub prune_site : Inputs → Site → Site
prune_site inputs site = record site { caches = prune_caches inputs.pruned_at site.caches }
