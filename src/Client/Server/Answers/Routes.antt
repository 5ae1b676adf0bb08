-- ===== src/Client/Server/Answers/Routes.antt =====
-- The answer of each handler of test-client/app.py.
use keycloak_oidc4ac_lab.Prelude.{
  ℕ, String, ◌≡◌, refl, sym, Option, none, some, inl, inr, Result, ok, err, ◌>>=◌, Result-cases,
  Bool-cases, Option-cases,
}
use mathlib.Core.Path.{subst}
use keycloak_oidc4ac_lab.Prelude.Dict
use keycloak_oidc4ac_lab.Prelude.Dict.{Dict}
use keycloak_oidc4ac_lab.Json.{JsonText, object}
use keycloak_oidc4ac_lab.Client.Claims.{ClaimsError, Parsed-cases, parse_claims}
use keycloak_oidc4ac_lab.Client.Caches.{Authorization, Caches, prune_caches}
use keycloak_oidc4ac_lab.Client.Pages.{
  Config, Provider, Inputs, Site, Response, home_page, result_page, ResultPage, Redirect, page_at,
  redirect_page,
}
use keycloak_oidc4ac_lab.Client.Login.{home, preview, login, is_on, start_authorization, index_page}
use keycloak_oidc4ac_lab.Client.Grants.{
  callback, refresh, finish_authorization, finish_refresh, verified, refreshable, wanted_result,
  reported_error, take_context, without_context,
}
use keycloak_oidc4ac_lab.Client.Server.{Event, Route, handle}
use keycloak_oidc4ac_lab.Client.Server.Answers.{Fits, Raises, Answered}
use keycloak_oidc4ac_lab.Client.Server.Answers.Escaping.{
  Shown, parse_claims-escaped, render_result-Shown,
}

module _ (config : Config) (json : JsonText) (inputs : Inputs) (provider : Provider)
    (session : Option String) (caches : Caches) where
  abbrev event : Route → Event
  event route = record { route = route; inputs = inputs; provider = provider; session = session }

  abbrev AnsweredAt : Route → Type 0
  AnsweredAt route = Answered json (event route) (handle config json (event route) caches).response

  index_page-Answered :
      (route : Route) (raw : Option String) (error : Option ClaimsError) (status : ℕ)
      → ((shown : String) → Fits route (home_page shown error) status)
      → Answered json (event route) (index_page config json raw error status)
  index_page-Answered route (some raw) error status fits = inl (_, refl, fits raw)
  index_page-Answered route none error status fits =
      elim (Result-cases (json.pretty (object config.default_claims))) [
        | inl (shown, e) ↦ rw e (inl (_, refl, fits shown))
        | inr (x, e) ↦ rw e (inr (x, refl, Raises.printing _ e))
      ]

  shown_page :
      (route : Route) (r : Result Response)
      → ((p : ResultPage) → Fits route (result_page p) 200)
      → Shown json (event route) r
      → Answered json (event route) r
  shown_page route r fits (inl (p, e)) = inl (_, e, fits p)
  shown_page route r fits (inr escape) = inr escape

  home-Answered : AnsweredAt Route.home
  unfolding home
  home-Answered = index_page-Answered Route.home none none 200 (λ shown. (shown, refl, refl))

  preview-Answered : (form : Dict String) → AnsweredAt (Route.preview form)
  unfolding preview
  preview-Answered form = elim (Parsed-cases (parse_claims json (Dict.lookup "claims_json" form))) [
    | inl (d, p) ↦ elim (Result-cases (json.pretty (object d))) [
      | inl (shown, e) ↦ rw (p, e, preview) (inl (_, refl, inl (shown, refl, refl)))
      | inr (x, e) ↦ rw (p, e, preview) (inr (x, refl, Raises.printing _ e))
    ]
    | inr (inl (error, p)) ↦
        rw (p, preview)
          (index_page-Answered (Route.preview form) (Dict.lookup "claims_json" form) (some error)
            400 (λ shown. inr (shown, error, refl, refl)))
    | inr (inr (x, p)) ↦
        let t = parse_claims-escaped json (Dict.lookup "claims_json" form) x p in
        rw (p, preview) (inr (x, refl, Raises.claims_text t.0 t.1 t.2))
  ]

  redirect-Answered :
      (form : Dict String) (redirect : Redirect) (r : Result (Unit {0}))
      → provider.server_metadata ≡ r
      → Answered json (event (Route.login form)) (r >>= λ _. page_at 302 (redirect_page redirect))
  redirect-Answered form redirect (ok loaded) e = inl (_, refl, inl (redirect, refl, refl))
  redirect-Answered form redirect (err x) e = inr (x, refl, Raises.redirecting tt e)

  login-Answered : (form : Dict String) → AnsweredAt (Route.login form)
  unfolding login start_authorization
  login-Answered form = elim (Bool-cases (is_on "omit_claims" form)) [
    | inl omitted ↦ rw (omitted, login) (redirect-Answered form _ provider.server_metadata refl)
    | inr offered ↦ elim (Parsed-cases (parse_claims json (Dict.lookup "claims_json" form))) [
      | inl (d, p) ↦ rw (offered, p, login) (redirect-Answered form _ provider.server_metadata refl)
      | inr (inl (error, p)) ↦
          rw (offered, p, login)
            (index_page-Answered (Route.login form) (Dict.lookup "claims_json" form) (some error)
              400 (λ shown. inr (shown, error, refl, refl)))
      | inr (inr (x, p)) ↦
          let t = parse_claims-escaped json (Dict.lookup "claims_json" form) x p in
          rw (offered, p, login) (inr (x, refl, Raises.claims_text t.0 t.1 t.2))
    ]
  ]

  finish_authorization-Answered :
      (args : Dict String) (o : Option Authorization) (site : Site)
      → Answered json
          (event (Route.callback args))
          (finish_authorization json provider o inputs site).response
  unfolding finish_authorization
  finish_authorization-Answered args none site = inl (_, refl, inr (_, _, refl, inl refl))
  finish_authorization-Answered args (some a) site =
      elim (Option-cases (verified json provider provider.authorize_access_token (some a.nonce))) [
        | inl refused ↦
            rw (refused, finish_authorization) (inl (_, refl, inr (_, _, refl, inl refl)))
        | inr ((token, id_token, userinfo), valid) ↦
            rw (valid, finish_authorization)
              (shown_page (Route.callback args) _ (λ p. inl (p, refl, refl))
                (render_result-Shown json (event (Route.callback args)) _ _ _ _ _ _ tt))
      ]

  callback-Answered : (args : Dict String) → AnsweredAt (Route.callback args)
  unfolding callback
  callback-Answered args = elim (Option-cases (reported_error args)) [
    | inl none_reported ↦
        let asked = Dict.lookup "state" args in
        let site : Site = record { caches = caches; session = session } in
        let rest : (callback json provider args inputs site).response
            ≡ (finish_authorization json provider (take_context asked caches.authorizations) inputs
                (without_context asked site)).response =
          rw (none_reported, callback) refl in
        subst (Answered json (event (Route.callback args))) (sym rest) (
          finish_authorization-Answered args (take_context asked caches.authorizations)
            (without_context asked site))
    | inr (error, e) ↦ rw (e, callback) (inl (_, refl, inr (_, _, refl, inr (refl, refl))))
  ]

  refresh-Answered : (form : Dict String) → AnsweredAt (Route.refresh form)
  unfolding refresh finish_refresh
  refresh-Answered form =
      let tokens = (prune_caches inputs.pruned_at caches).tokens in
      elim (Option-cases (refreshable (wanted_result form session) tokens)) [
        | inl e ↦ rw (e, refresh) (inl (_, refl, inr (_, _, refl, refl)))
        | inr ((id, g), e) ↦
            elim (Option-cases
              (verified json provider (provider.fetch_access_token g.refresh_token) none)) [
                | inl refused ↦
                    rw (e, refused, refresh, finish_refresh) (inl (_, refl, inr (_, _, refl, refl)))
                | inr ((token, id_token, userinfo), valid) ↦
                    rw (e, valid, refresh, finish_refresh)
                      (shown_page (Route.refresh form) _ (λ p. inl (p, refl, refl))
                        (render_result-Shown json (event (Route.refresh form)) _ _ _ _ _ _ tt))
              ]
      ]

  route-Answered : (route : Route) → AnsweredAt route
  route-Answered Route.home = home-Answered
  route-Answered (Route.preview form) = preview-Answered form
  route-Answered (Route.login form) = login-Answered form
  route-Answered (Route.callback args) = callback-Answered args
  route-Answered (Route.refresh form) = refresh-Answered form

-- Every request is answered with a page of its route and the status of that page, or its handler
-- raises an exception that `json.loads` raised on the submitted claims, that printing a JSON value
-- raised, that authlib raised before its redirect, that came from the discovery document, or that `json.loads` raised on a text and that is
-- no ValueError.
pub handle-Answered :
    (config : Config) (json : JsonText) (e : Event) (caches : Caches)
    → Answered json e (handle config json e caches).response
handle-Answered config json e caches =
    route-Answered config json e.inputs e.provider e.session caches e.route
