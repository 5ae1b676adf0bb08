-- ===== src/Client/Threads/Alone/Logins.antt =====
-- The handlers `home`, `preview` and `login` without interruption.
use keycloak_oidc4ac_lab.Prelude.{String, Option, [], ◌≡◌, refl, ap, inl, inr, Bool-cases}
use keycloak_oidc4ac_lab.Prelude.Dict
use keycloak_oidc4ac_lab.Prelude.Dict.{Dict, lookup-remove}
use keycloak_oidc4ac_lab.Json.{Value, JsonText}
use keycloak_oidc4ac_lab.Client.Claims.{parse_claims, Parsed-cases}
use keycloak_oidc4ac_lab.Client.Caches.{Caches, prune_caches}
use keycloak_oidc4ac_lab.Client.Pages.{Config, Provider, Inputs}
use keycloak_oidc4ac_lab.Client.Login.{
  authorization_of, home, preview, login, is_on, start_authorization,
}
use keycloak_oidc4ac_lab.Client.Shared.{Shared, caches_of, prune_shared}
use keycloak_oidc4ac_lab.Client.Shared.Objects.{prune_shared-caches_of}
use keycloak_oidc4ac_lab.Client.Server.{Route}
use keycloak_oidc4ac_lab.Client.Threads.{route_step, home_step, preview_step, login_step}
use keycloak_oidc4ac_lab.Client.Threads.Alone.{alone, Alone, event}

module _ (config : Config) (json : JsonText) (inputs : Inputs) (provider : Provider)
    (session : Option String) (shared : Shared) where
  abbrev caches : Caches
  caches = caches_of shared

  abbrev AloneAt : Route → Type 0
  AloneAt route = Alone config json (event config json inputs provider session route) shared

  pub pruned_caches :
      caches_of (prune_shared inputs.pruned_at shared) ≡ prune_caches inputs.pruned_at caches
  pruned_caches = prune_shared-caches_of inputs.pruned_at shared

  pub alone-home : AloneAt Route.home
  unfolding alone route_step home_step home
  alone-home = (pruned_caches, refl)

  pub alone-preview : (form : Dict String) → AloneAt (Route.preview form)
  unfolding alone route_step preview_step preview
  alone-preview form = elim (Parsed-cases (parse_claims json (Dict.lookup "claims_json" form))) [
    | inl (d, e) ↦ rw (e, alone, route_step, preview_step, preview) (refl, refl)
    | inr (inl (error, e)) ↦ rw (e, alone, route_step, preview_step, preview) (pruned_caches, refl)
    | inr (inr (error, e)) ↦ rw (e, alone, route_step, preview_step, preview) (refl, refl)
  ]

  abbrev with_authorization : Dict Value → Caches → Caches
  with_authorization d c = record {
    authorizations =
        Dict.insert inputs.fresh_id (authorization_of config json d inputs) c.authorizations;
    tokens = c.tokens;
  }

  issued :
      (d : Dict Value)
      → with_authorization d (caches_of (prune_shared inputs.pruned_at shared))
        ≡ with_authorization d (prune_caches inputs.pruned_at caches)
  issued d = ap (with_authorization d) pruned_caches

  pub alone-login : (form : Dict String) → AloneAt (Route.login form)
  unfolding alone route_step login_step login start_authorization
  alone-login form = elim (Bool-cases (is_on "omit_claims" form)) [
    | inl omitted ↦ rw (omitted, alone, route_step, login_step, login) (issued [], refl)
    | inr offered ↦ elim (Parsed-cases (parse_claims json (Dict.lookup "claims_json" form))) [
      | inl (d, e) ↦ rw (offered, e, alone, route_step, login_step, login) (issued d, refl)
      | inr (inl (error, e)) ↦
          rw (offered, e, alone, route_step, login_step, login) (pruned_caches, refl)
      | inr (inr (error, e)) ↦ rw (offered, e, alone, route_step, login_step, login) (refl, refl)
    ]
  ]
