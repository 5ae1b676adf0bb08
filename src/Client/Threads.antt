-- ===== src/Client/Threads.antt =====
-- Requests of test-client/app.py that Flask serves in threads of one process. A step of a thread is
-- one section under CACHE_LOCK, or one access to a token entry that the handler `refresh` holds
-- outside the lock, with the code before it that touches what belongs to the request alone.
pub mod Moves
pub mod Steps
pub mod Phases
pub mod Taking
pub mod Single
pub mod Invariant
pub mod Brought
pub mod Alone
pub mod Racing
use keycloak_oidc4ac_lab.Prelude.{
  ℕ, String, Bool, true, false, Option, none, some, List, [], ◌∷◌, nat_eq, if◌then◌else◌, Result,
  err,
}
use keycloak_oidc4ac_lab.Prelude.Dict
use keycloak_oidc4ac_lab.Prelude.Dict.{Dict}
use keycloak_oidc4ac_lab.Json.{Value, JsonText}
use keycloak_oidc4ac_lab.Client.Claims.{ClaimsError, claims, rejected, escaped, parse_claims}
use keycloak_oidc4ac_lab.Client.Caches.{Authorization}
use keycloak_oidc4ac_lab.Client.Shared.{
  Shared, init, set_refresh_token, set_created_at, prune_shared, pop_context, add_authorization,
  add_grant,
}
use keycloak_oidc4ac_lab.Client.Pages.{Config, Token, Response}
use keycloak_oidc4ac_lab.Client.Login.{
  index_page, claims_page, is_on, authorization_of, authorize_redirect,
}
use keycloak_oidc4ac_lab.Client.Grants.{
  reported_error, reported, take_context, missing_context, validation_failed, grant_of, verified,
  render_result, get_or_none, wanted_result, is_true, no_refresh_token, refresh_failed, rotated,
}
use keycloak_oidc4ac_lab.Client.Server.{Route, Event}

-- Where the request of a thread stands, with what its handler has read.
pub data Phase : Type 0 where
  begin : Phase
  -- `prune_caches` has returned in `login`, which has the claims.
  composed : (omit_claims : Bool) → Dict Value → Phase
  -- `prune_caches` has returned in `refresh`.
  pruned : Phase
  -- `AUTHORIZATION_CACHE.pop` has given `callback` the context of a state.
  taken : (state : String) → Authorization → Phase
  -- `TOKEN_CACHE.get` has given `refresh` an object.
  found : (id : String) → (address : ℕ) → Phase
  -- The object had a refresh token.
  checked : (id : String) → (address : ℕ) → Phase
  -- The provider has answered with a token, whose claims are valid.
  fetched : (id : String) → (address : ℕ) → (Token × Dict Value × Dict Value) → Phase
  -- The refresh token that the object is to have is known.
  rotating :
      (id : String) → (address : ℕ) → (Token × Dict Value × Dict Value) → (next : Value) → Phase
  -- The object has its new refresh token.
  renewed : (id : String) → (address : ℕ) → (Token × Dict Value × Dict Value) → Phase
  -- The object has its new time.
  stamped : (id : String) → (address : ℕ) → (Token × Dict Value × Dict Value) → Phase
  -- The handler has returned; with the browser's cookie.
  finished : (session : Option String) → Result Response → Phase

pub record Moved : Type 0 where
  pub shared : Shared
  pub phase : Phase

abbrev stay : Phase → Shared → Moved
stay phase shared = record { shared = shared; phase = phase }

abbrev finish : Event → Result Response → Shared → Moved
finish e response shared = record { shared = shared; phase = Phase.finished e.session response }

module _ (config : Config) (json : JsonText) where
  unfoldable pub home_step : Event → Phase → Shared → Moved
  unfolding prune_shared
  home_step e Phase.begin shared =
      finish e (index_page config json none none 200) (prune_shared e.inputs.pruned_at shared)
  home_step e phase shared = stay phase shared

  unfoldable pub preview_step : Dict String → Event → Phase → Shared → Moved
  unfolding prune_shared
  preview_step form e Phase.begin shared =
      let raw_claims = Dict.lookup "claims_json" form in
      elim (parse_claims json raw_claims) [
        | claims d ↦ finish e (claims_page config json d) shared
        | rejected error ↦
            finish e (index_page config json raw_claims (some error) 400)
              (prune_shared e.inputs.pruned_at shared)
        | escaped error ↦ finish e (err error) shared
      ]
  preview_step form e phase shared = stay phase shared

  unfoldable pub login_step : Dict String → Event → Phase → Shared → Moved
  unfolding prune_shared
  login_step form e Phase.begin shared =
      let raw_claims = Dict.lookup "claims_json" form in
      let cleared = prune_shared e.inputs.pruned_at shared in
      if is_on "omit_claims" form
      then stay (Phase.composed true []) cleared
      else elim (parse_claims json raw_claims) [
        | claims d ↦ stay (Phase.composed false d) cleared
        | rejected error ↦ finish e (index_page config json raw_claims (some error) 400) cleared
        | escaped error ↦ finish e (err error) shared
      ]
  login_step form e (Phase.composed omit_claims d) shared =
      finish e (authorize_redirect config json e.provider form omit_claims d e.inputs)
        (add_authorization e.inputs.fresh_id (authorization_of config json d e.inputs) shared)
  login_step form e phase shared = stay phase shared

  unfoldable pub callback_step : Dict String → Event → Phase → Shared → Moved
  callback_step args e Phase.begin shared = elim (reported_error args) [
    | some error ↦ finish e (reported error args) shared
    | none ↦ elim (Dict.lookup "state" args) [
      | none ↦ finish e missing_context shared
      | some state ↦ elim (take_context (some state) shared.authorizations) [
        | none ↦ finish e missing_context shared
        | some context ↦ stay (Phase.taken state context) (pop_context state shared)
      ]
    ]
  ]
  callback_step args e (Phase.taken state context) shared =
      elim (verified json e.provider e.provider.authorize_access_token (some context.nonce)) [
        | none ↦ finish e validation_failed shared
        | some (token, id_token, userinfo) ↦ record {
          shared = add_grant e.inputs.fresh_id (grant_of token context e.inputs) shared;
          phase = Phase.finished (some e.inputs.fresh_id) (
              render_result json e.provider context.claims id_token userinfo
                (get_or_none "access_token" token) "Authorization code response" e.inputs.fresh_id);
        }
      ]
  callback_step args e phase shared = stay phase shared

  unfoldable pub refresh_step : Dict String → Event → Phase → Shared → Moved
  unfolding prune_shared
  refresh_step form e Phase.begin shared =
      stay Phase.pruned (prune_shared e.inputs.pruned_at shared)
  refresh_step form e Phase.pruned shared = elim (wanted_result form e.session) [
    | none ↦ finish e no_refresh_token shared
    | some id ↦ elim (Dict.lookup id shared.tokens) [
      | none ↦ finish e no_refresh_token shared
      | some address ↦ stay (Phase.found id address) shared
    ]
  ]
  refresh_step form e (Phase.found id address) shared =
      if is_true (shared.grants address).refresh_token
      then stay (Phase.checked id address) shared
      else finish e no_refresh_token shared
  refresh_step form e (Phase.checked id address) shared =
      elim (verified json e.provider
        (e.provider.fetch_access_token (shared.grants address).refresh_token) none) [
          | none ↦ finish e refresh_failed shared
          | some response ↦ stay (Phase.fetched id address response) shared
        ]
  refresh_step form e (Phase.fetched id address (token, id_token, userinfo)) shared =
      stay
        (Phase.rotating id address (token, id_token, userinfo)
          (rotated token (shared.grants address)))
        shared
  refresh_step form e (Phase.rotating id address answer next) shared =
      stay (Phase.renewed id address answer) (set_refresh_token address next shared)
  refresh_step form e (Phase.renewed id address answer) shared =
      stay (Phase.stamped id address answer) (set_created_at address e.inputs.stored_at shared)
  refresh_step form e (Phase.stamped id address (token, id_token, userinfo)) shared =
      finish e
        (render_result json e.provider (shared.grants address).claims id_token userinfo
          (get_or_none "access_token" token) "Refresh token response" id)
        shared
  refresh_step form e phase shared = stay phase shared

  unfoldable pub route_step : Route → Event → Phase → Shared → Moved
  unfolding home_step preview_step login_step callback_step refresh_step
  route_step Route.home = home_step
  route_step (Route.preview form) = preview_step form
  route_step (Route.login form) = login_step form
  route_step (Route.callback args) = callback_step args
  route_step (Route.refresh form) = refresh_step form

  -- One step of the thread that serves a request.
  abbrev pub advance : Event → Phase → Shared → Moved
  advance e phase shared = route_step e.route e phase shared

-- A process whose threads serve one request each.
pub record World : Type 0 where
  pub shared : Shared
  pub phases : ℕ → Phase

-- The process has started.
abbrev pub start : World
start = record { shared = init; phases = λ thread. Phase.begin }

abbrev pub set_phase : ℕ → Phase → (ℕ → Phase) → ℕ → Phase
set_phase thread phase phases other = if nat_eq other thread then phase else phases other

module _ (config : Config) (json : JsonText) (requests : ℕ → Event) where
  -- A step of one of the threads.
  abbrev pub step : ℕ → World → World
  step thread world =
      let moved = advance config json (requests thread) (world.phases thread) world.shared in
      record { shared = moved.shared; phases = set_phase thread moved.phase world.phases }

  -- A schedule names the thread of each step.
  unfoldable pub schedule : List ℕ → World → World
  schedule [] world = world
  schedule (thread ∷ threads) world = schedule threads (step thread world)

  -- The worlds that some schedule reaches.
  pub data Reach (world : World) : World → Type 0 where
    at_start : Reach world world
    stepped :
        {between : World} (thread : ℕ) → Reach world between → Reach world (step thread between)
