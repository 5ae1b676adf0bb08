-- ===== src/Client/Threads/Racing.antt =====
-- Two refreshes of one grant in two threads of test-client/app.py.
use keycloak_oidc4ac_lab.Prelude.{
  ℕ, ◌+◌, ◌-◌, ◌≤◌, String, true, none, some, [], ◌∷◌, ◌≡◌, refl, ◌∙◌, ap, arith, Option-cases, inl,
  inr,
}
use keycloak_oidc4ac_lab.Prelude.Dict
use keycloak_oidc4ac_lab.Prelude.Dict.{Dict}
use keycloak_oidc4ac_lab.Json.{Value, JsonText}
use keycloak_oidc4ac_lab.Client.Caches.{cache_ttl}
use keycloak_oidc4ac_lab.Client.Caches.Prune.{lookup-prune}
use keycloak_oidc4ac_lab.Client.Grants.{verified, wanted_result, is_true, refresh_failed}
use keycloak_oidc4ac_lab.Client.Pages.{Config}
use keycloak_oidc4ac_lab.Client.Server.{Event, Route}
use keycloak_oidc4ac_lab.Client.Shared.{Shared, prune_shared}
use keycloak_oidc4ac_lab.Client.Shared.WellFormed.{WellFormed, prune_shared-WellFormed}
use keycloak_oidc4ac_lab.Client.Threads.{Phase, World, schedule, advance, route_step, refresh_step}

-- The request asks for a refresh of this grant, and finds it alive.
pub record Asks (id : String) (address : ℕ) (e : Event) (shared : Shared) : Type 0 where
  pub form : Dict String
  pub route : e.route ≡ Route.refresh form
  pub wanted : wanted_result form e.session ≡ some id
  pub in_time : e.inputs.pruned_at ≤ (shared.grants address).created_at + cache_ttl

-- What a refresh makes of the answers of the provider to one refresh token.
abbrev pub answer_to : JsonText → Event → String → ℕ → Value → Phase
answer_to json e id address refresh_token =
    elim (verified json e.provider (e.provider.fetch_access_token refresh_token) none) [
      | none ↦ Phase.finished e.session refresh_failed
      | some response ↦ Phase.fetched id address response
    ]

kept :
    (id : String) (address : ℕ) (now : ℕ) (shared : Shared)
    → WellFormed shared
    → now ≤ (shared.grants address).created_at + cache_ttl
    → Dict.lookup id shared.tokens ≡ some address
    → Dict.lookup id (prune_shared now shared).tokens ≡ some address
unfolding prune_shared
kept id address now shared well in_time found =
    lookup-prune (λ address. (shared.grants address).created_at) (now - cache_ttl) id shared.tokens
      well.tokens
    ∙ rw found (ground arith)

-- The first four steps of such a request.
module _ (config : Config) (json : JsonText) (id : String) (address : ℕ) (e : Event)
    (form : Dict String) (route : e.route ≡ Route.refresh form) where
  begins :
      (shared : Shared)
      → advance config json e Phase.begin shared
        ≡ record { shared = prune_shared e.inputs.pruned_at shared; phase = Phase.pruned }
  unfolding route_step refresh_step
  begins shared = rw (route, route_step) refl

  finds :
      (shared : Shared)
      → wanted_result form e.session ≡ some id
      → Dict.lookup id shared.tokens ≡ some address
      → advance config json e Phase.pruned shared
        ≡ record { shared = shared; phase = Phase.found id address }
  unfolding route_step refresh_step
  finds shared wanted found = rw (route, wanted, found, route_step, refresh_step) refl

  checks :
      (shared : Shared)
      → is_true (shared.grants address).refresh_token ≡ true
      → advance config json e (Phase.found id address) shared
        ≡ record { shared = shared; phase = Phase.checked id address }
  unfolding route_step refresh_step
  checks shared has = rw (route, has, route_step, refresh_step) refl

  answered :
      (shared : Shared)
      → refresh_step config json form e (Phase.checked id address) shared ≡ record {
        shared = shared;
        phase = answer_to json e id address (shared.grants address).refresh_token;
      }
  unfolding refresh_step
  answered shared =
      elim (Option-cases (
        verified json e.provider
          (e.provider.fetch_access_token (shared.grants address).refresh_token) none)) [
            | inl refused ↦ rw (refused, refresh_step, answer_to) refl
            | inr (response, valid) ↦ rw (valid, refresh_step, answer_to) refl
          ]

  sends :
      (shared : Shared)
      → advance config json e (Phase.checked id address) shared ≡ record {
        shared = shared;
        phase = answer_to json e id address (shared.grants address).refresh_token;
      }
  unfolding route_step
  sends shared =
      ap (λ r. route_step config json r e (Phase.checked id address) shared) route ∙ answered shared

module _ (config : Config) (json : JsonText) (requests : ℕ → Event) (id : String) (address : ℕ)
    (shared : Shared) (well : WellFormed shared)
    (stored : Dict.lookup id shared.tokens ≡ some address)
    (has_token : is_true (shared.grants address).refresh_token ≡ true)
    (first : Asks id address (requests 0) shared)
    (second : Asks id address (requests 1) shared) where
  abbrev begun : World
  begun = record { shared = shared; phases = λ thread. Phase.begin }

  -- If two threads are to refresh one grant that is alive and has a refresh token, there is a schedule
  -- in which both send the provider the same refresh token: from a well-formed state in which no
  -- thread has begun, after four steps of each in turn, each is where the provider's answer to the
  -- stored token leaves it, and that token is still stored.
  pub same_token_twice :
      let world = schedule config json requests (0 ∷ 1 ∷ 0 ∷ 1 ∷ 0 ∷ 1 ∷ 0 ∷ 1 ∷ []) begun in
      let token = (shared.grants address).refresh_token in
      (world.phases 0 ≡ answer_to json (requests 0) id address token)
      × (world.phases 1 ≡ answer_to json (requests 1) id address token)
      × ((world.shared.grants address).refresh_token ≡ token)
  unfolding schedule prune_shared
  same_token_twice =
      let once = prune_shared (requests 0).inputs.pruned_at shared in
      let twice = prune_shared (requests 1).inputs.pruned_at once in
      let found = kept id address _ shared well first.in_time stored in
      let once_well = prune_shared-WellFormed (requests 0).inputs.pruned_at shared well in
      let found_again =
        kept id address (requests 1).inputs.pruned_at once once_well second.in_time found in
      rw
        (
          begins config json id address (requests 0) first.form first.route shared,
          begins config json id address (requests 1) second.form second.route once,
          finds config json id address (requests 0) first.form first.route twice first.wanted
              found_again,
          finds config json id address (requests 1) second.form second.route twice second.wanted
              found_again,
          checks config json id address (requests 0) first.form first.route twice has_token,
          checks config json id address (requests 1) second.form second.route twice has_token,
          sends config json id address (requests 0) first.form first.route twice,
          sends config json id address (requests 1) second.form second.route twice,
        )
        (refl, refl, refl)
