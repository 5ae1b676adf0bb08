-- ===== src/Client/Server/Answers.antt =====
-- What a request to test-client/app.py is answered with, and which exceptions its handler lets
-- through.
pub mod Escaping
pub mod Routes
use keycloak_oidc4ac_lab.Prelude.{
  ℕ, String, List, ◌≡◌, ◌≢◌, refl, sym, ◌∙◌, ◌⊎◌, Option, none, some, inl, inr, is_empty, codes,
  is_blank, utf8_length, ltb, arith, Result, ok, err, Error, value_error, ◌>>=◌, Result-cases,
  Bool-cases, Option-cases,
}
use mathlib.Core.Path.{subst}
use keycloak_oidc4ac_lab.Prelude.Dict
use keycloak_oidc4ac_lab.Prelude.Dict.{Dict}
use keycloak_oidc4ac_lab.Json.{Value, JsonText, Decoded, value, decode_error, raised, object, str}
use keycloak_oidc4ac_lab.Base64.{urlsafe_b64decode}
use keycloak_oidc4ac_lab.Utf8.{decode}
use keycloak_oidc4ac_lab.Client.Claims.{
  ClaimsError, Parsed-cases, parse_claims, escaped, checked, size_limit,
}
use keycloak_oidc4ac_lab.Client.Caches.{Authorization, Caches, prune_caches}
use keycloak_oidc4ac_lab.Client.Discovery.{discovery_metadata}
use keycloak_oidc4ac_lab.Client.Token.{
  as_object, decoded_access_token, decoded_payload, payload_of, split_dots, pad_segment,
}
use keycloak_oidc4ac_lab.Client.Pages.{
  Config, Provider, Inputs, Site, Page, Response, page_at, home_page, preview_page, error_page,
  result_page, redirect_page, ResultPage, Redirect, Outcome,
}
use keycloak_oidc4ac_lab.Client.Login.{home, preview, login, is_on, start_authorization, index_page}
use keycloak_oidc4ac_lab.Client.Grants.{
  callback, refresh, finish_authorization, finish_refresh, render_result, verified, refreshable,
  wanted_result, reported_error, take_context, without_context,
}
use keycloak_oidc4ac_lab.Client.Server.{Event, Route, handle}

-- The pages of a route, each with its status.
abbrev pub Fits : Route → Page → ℕ → Type 0
Fits Route.home page status = (shown : String) × (page ≡ home_page shown none) × (status ≡ 200)
Fits (Route.preview form) page status =
    ((shown : String) × (page ≡ preview_page shown) × (status ≡ 200))
    ⊎ ((shown : String) × (e : ClaimsError) × (page ≡ home_page shown (some e)) × (status ≡ 400))
Fits (Route.login form) page status =
    ((r : Redirect) × (page ≡ redirect_page r) × (status ≡ 302))
    ⊎ ((shown : String) × (e : ClaimsError) × (page ≡ home_page shown (some e)) × (status ≡ 400))
Fits (Route.callback args) page status =
    ((p : ResultPage) × (page ≡ result_page p) × (status ≡ 200))
    ⊎ ((error text : String) × (page ≡ error_page error text)
        × ((status ≡ 400) ⊎ (reported_error args ≡ some error) × (status ≡ 200)))
Fits (Route.refresh form) page status =
    ((p : ResultPage) × (page ≡ result_page p) × (status ≡ 200))
    ⊎ ((error text : String) × (page ≡ error_page error text) × (status ≡ 400))

-- A request that submits a text of claims, and one that ends in a result page.
abbrev pub Submits : String → Route → Type 0
Submits raw (Route.preview form) = Dict.lookup "claims_json" form ≡ some raw
Submits raw (Route.login form) = Dict.lookup "claims_json" form ≡ some raw
Submits raw route = ⊥

abbrev pub ShowsResult : Route → Type 0
ShowsResult (Route.callback args) = Unit {0}
ShowsResult (Route.refresh form) = Unit {0}
ShowsResult route = ⊥

abbrev pub IsLogin : Route → Type 0
IsLogin (Route.login form) = Unit {0}
IsLogin route = ⊥

module _ (json : JsonText) where
  -- Where an exception that a handler lets through comes from.
  pub data Raises (e : Event) (error : Error) : Type 0 where
    claims_text :
        (raw : String)
        → Submits raw e.route
        → json.loads (codes raw) ≡ raised error
        → Raises e error
    redirecting : IsLogin e.route → e.provider.server_metadata ≡ err error → Raises e error
    printing : (v : Value) → json.pretty v ≡ err error → Raises e error
    discovering :
        ShowsResult e.route
        → discovery_metadata e.provider.discovery_document ≡ err error
        → Raises e error
    token_text :
        (text : List ℕ)
        → ShowsResult e.route
        → json.loads text ≡ raised error
        → error ≢ value_error
        → Raises e error

  abbrev pub Answered : Event → Result Response → Type 0
  Answered e r =
      ((a : Response) × (r ≡ ok a) × Fits e.route a.page a.status)
      ⊎ ((error : Error) × (r ≡ err error) × Raises e error)
