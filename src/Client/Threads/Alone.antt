-- ===== src/Client/Threads/Alone.antt =====
-- A request of test-client/app.py whose steps no other thread interrupts.
pub mod Logins
pub mod Callbacks
pub mod Refreshes
pub mod Whole
use keycloak_oidc4ac_lab.Prelude.{
  ℕ, zero, suc, ◌+◌, String, Bool, Option, none, some, true, false, [], ◌≡◌, refl, sym, ap, ◌∙◌,
  inl, inr, nat_eq, if◌then◌else◌, arith, ◌∷◌, ◌==◌, Bool-cases, Option-cases, is_empty, Result,
}
use keycloak_oidc4ac_lab.Prelude.Dict
use keycloak_oidc4ac_lab.Prelude.Dict.{Dict, lookup-remove}
use keycloak_oidc4ac_lab.Json.{Value, JsonText}
use keycloak_oidc4ac_lab.Client.Claims.{parse_claims, claims, rejected, Parsed-cases}
use keycloak_oidc4ac_lab.Client.Caches.{Authorization, Grant, Caches, prune_caches}
use keycloak_oidc4ac_lab.Client.Pages.{Config, Provider, Inputs, Response, Outcome}
use keycloak_oidc4ac_lab.Client.Login.{
  authorization_of, home, preview, login, is_on, start_authorization,
}
use keycloak_oidc4ac_lab.Client.Grants.{
  callback, refresh, finish_authorization, finish_refresh, verified, refreshable, wanted_result,
  rotated, grant_of, reported_error, take_context, is_true,
}
use keycloak_oidc4ac_lab.Client.Shared.{Shared, caches_of, resolve, write, prune_shared}
use keycloak_oidc4ac_lab.Client.Shared.Objects.{
  prune_shared-caches_of, lookup-resolve, value_at, insert-resolve, resolve-write,
  resolve-write-write, nat_eq_refl,
}
use keycloak_oidc4ac_lab.Client.Shared.WellFormed.{
  WellFormed, Below-Misses, prune_shared-WellFormed,
}
use keycloak_oidc4ac_lab.Client.Server.{Route, Event, handle}
use keycloak_oidc4ac_lab.Client.Threads.{
  Phase, Moved, advance, route_step, home_step, preview_step, login_step, callback_step,
  refresh_step,
}

module _ (config : Config) (json : JsonText) where
  -- Steps of one thread, one after another.
  unfoldable pub alone : ℕ → Event → Phase → Shared → Moved
  alone zero e phase shared = record { shared = shared; phase = phase }
  alone (suc n) e phase shared =
      let moved = advance config json e phase shared in alone n e moved.phase moved.shared

  -- The shared state and the answer are those of the handler.
  abbrev pub Agrees : Outcome → Moved → Type 0
  Agrees outcome moved =
      (caches_of moved.shared ≡ outcome.site.caches)
      × (moved.phase ≡ Phase.finished outcome.site.session outcome.response)

  abbrev pub event : Inputs → Provider → Option String → Route → Event
  event inputs provider session route = record {
    route = route;
    inputs = inputs;
    provider = provider;
    session = session;
  }

  -- The steps of a request alone and its handler, from the same state.
  abbrev pub Alone : Event → Shared → Type 0
  Alone e shared = Agrees (handle config json e (caches_of shared)) (alone 8 e Phase.begin shared)
