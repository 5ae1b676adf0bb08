-- ===== src/Client/Threads/Alone/Whole.antt =====
-- Every handler without interruption.
use keycloak_oidc4ac_lab.Prelude.{String, Option, ◌≡◌}
use keycloak_oidc4ac_lab.Json.{JsonText}
use keycloak_oidc4ac_lab.Client.Caches.{Caches}
use keycloak_oidc4ac_lab.Client.Pages.{Config, Provider, Inputs}
use keycloak_oidc4ac_lab.Client.Shared.{Shared, caches_of}
use keycloak_oidc4ac_lab.Client.Shared.WellFormed.{WellFormed}
use keycloak_oidc4ac_lab.Client.Server.{Route, Event, handle}
use keycloak_oidc4ac_lab.Client.Threads.{Phase}
use keycloak_oidc4ac_lab.Client.Threads.Alone.{alone, Alone, event}
use keycloak_oidc4ac_lab.Client.Threads.Alone.Logins.{alone-home, alone-preview, alone-login}
use keycloak_oidc4ac_lab.Client.Threads.Alone.Callbacks.{alone-callback}
use keycloak_oidc4ac_lab.Client.Threads.Alone.Refreshes.{alone-refresh}

module _ (config : Config) (json : JsonText) (inputs : Inputs) (provider : Provider)
    (session : Option String) (shared : Shared) (well : WellFormed shared) where
  abbrev caches : Caches
  caches = caches_of shared

  abbrev AloneAt : Route → Type 0
  AloneAt route = Alone config json (event config json inputs provider session route) shared

  alone-route : (route : Route) → AloneAt route
  alone-route Route.home = alone-home config json inputs provider session shared
  alone-route (Route.preview form) = alone-preview config json inputs provider session shared form
  alone-route (Route.login form) = alone-login config json inputs provider session shared form
  alone-route (Route.callback args) =
      alone-callback config json inputs provider session shared well args
  alone-route (Route.refresh form) =
      alone-refresh config json inputs provider session shared well form

module _ (config : Config) (json : JsonText) where
  -- From a well-formed shared state, eight steps of a request that no other thread interrupts leave the
  -- caches that the whole handler leaves, and give its answer and its cookie.
  pub alone_is_handle :
      (e : Event) (shared : Shared)
      → WellFormed shared
      → let moved = alone config json 8 e Phase.begin shared in
        let outcome = handle config json e (caches_of shared) in
        (caches_of moved.shared ≡ outcome.site.caches)
        × (moved.phase ≡ Phase.finished outcome.site.session outcome.response)
  alone_is_handle e shared well =
      alone-route config json e.inputs e.provider e.session shared well e.route
