-- ===== src/Client/Server.antt =====
-- `create_app` of test-client/app.py as a whole: requests of any browsers, one after another, on
-- the caches that they share.
pub mod Effects
pub mod Answers
pub mod Renewal
pub mod Flow
pub mod Pending
pub mod Invariant
use keycloak_oidc4ac_lab.Prelude.{ℕ, String, Option, List, [], ◌∷◌}
use keycloak_oidc4ac_lab.Prelude.Dict.{Dict}
use keycloak_oidc4ac_lab.Json.{JsonText}
use keycloak_oidc4ac_lab.Client.Caches.{Caches}
use keycloak_oidc4ac_lab.Client.Pages.{Config, Provider, Inputs, Site, Outcome}
use keycloak_oidc4ac_lab.Client.Login
use keycloak_oidc4ac_lab.Client.Grants

-- The routes that touch the caches, with the form or the query of the request.
pub data Route : Type 0 where
  home : Route
  preview login callback refresh : Dict String → Route

pub record Event : Type 0 where
  pub route : Route
  pub inputs : Inputs
  pub provider : Provider
  pub session : Option String

module _ (config : Config) (json : JsonText) where
  abbrev dispatch : Route → Inputs → Provider → Site → Outcome
  dispatch home inputs provider = Login.home config json inputs
  dispatch (preview form) inputs provider = Login.preview config json form inputs
  dispatch (login form) inputs provider = Login.login config json provider form inputs
  dispatch (callback args) inputs provider = Grants.callback json provider args inputs
  dispatch (refresh form) inputs provider = Grants.refresh json provider form inputs

  abbrev pub handle : Event → Caches → Outcome
  handle e caches =
      dispatch e.route e.inputs e.provider (record { caches = caches; session = e.session })

  unfoldable pub run : List Event → Caches → Caches
  run [] caches = caches
  run (e ∷ events) caches = run events (handle e caches).site.caches

abbrev pub init : Caches
init = record { authorizations = []; tokens = [] }
