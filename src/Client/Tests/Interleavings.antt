-- ===== src/Client/Tests/Interleavings.antt =====
-- A login and callbacks with its state in the threads of one process, and the theorems at them.
use keycloak_oidc4ac_lab.Prelude.{
  ℕ, ◌≡◌, refl, sym, ap, ◌∙◌, inl, inr, Bool-cases, is_blank, utf8_length, true, List, [], ◌∷◌,
  nat_eq, if◌then◌else◌, arith,
}
use mathlib.Core.Path.{subst}
use keycloak_oidc4ac_lab.Prelude.Dict
use keycloak_oidc4ac_lab.Prelude.Dict.{Dict}
use keycloak_oidc4ac_lab.Client.Claims.{parse_claims}
use keycloak_oidc4ac_lab.Client.Server.{Event, handle}
use keycloak_oidc4ac_lab.Client.Threads.{
  Phase, World, start, step, schedule, Reach, route_step, login_step, callback_step,
}
use keycloak_oidc4ac_lab.Client.Threads.Taking.{is_taken}
use keycloak_oidc4ac_lab.Client.Threads.Single.{DistinctStates, taken_once}
use keycloak_oidc4ac_lab.Client.Tests.Samples.{
  json, config, willing, log_in, come_back, grant, ask_again, AsksUserinfo, log_in-Brings,
  come_back-Brings,
}
use keycloak_oidc4ac_lab.Client.Caches.{expired}
use keycloak_oidc4ac_lab.Client.Grants.{take_context}
use keycloak_oidc4ac_lab.Client.Shared.{Shared, prune_shared, caches_of}
use keycloak_oidc4ac_lab.Client.Shared.WellFormed.{WellFormed}
use keycloak_oidc4ac_lab.Client.Server.Invariant.{Holds, Brings}
use keycloak_oidc4ac_lab.Client.Threads.Moves.{IsLogin}
use keycloak_oidc4ac_lab.Client.Threads.Invariant.{Reach-WellFormed}
use keycloak_oidc4ac_lab.Client.Threads.Brought.{Reach-Holds}
use keycloak_oidc4ac_lab.Client.Threads.Alone.{alone}
use keycloak_oidc4ac_lab.Client.Threads.Racing.{Asks, answer_to, same_token_twice}
use keycloak_oidc4ac_lab.Json.{str}
use keycloak_oidc4ac_lab.Client.Threads.Alone.Whole.{alone_is_handle}

-- Thread 0 serves the login, every other one a callback.
abbrev requests : ℕ → Event
requests thread = if nat_eq thread 0 then log_in else come_back willing

abbrev steps : List ℕ
steps = 0 ∷ 0 ∷ 1 ∷ []

abbrev taken_world : World
taken_world =
    step config json requests 1 (step config json requests 0 (step config json requests 0 start))

taken_world-Reach : Reach config json requests start taken_world
taken_world-Reach = Reach.stepped 1 (Reach.stepped 0 (Reach.stepped 0 Reach.at_start))

only_zero : (thread : ℕ) → IsLogin (requests thread).route → thread ≡ 0
only_zero thread h = elim (Bool-cases (nat_eq thread 0)) [
  | inl e ↦ ground arith
  | inr e ↦ absurd (subst IsLogin (ap (λ b. (if b then log_in else come_back willing).route) e) h)
]

one_login : DistinctStates requests
one_login j k first second same = only_zero j first ∙ sym (only_zero k second)

taken_by_one : is_taken "state-1" (taken_world.phases 1) ≡ true
unfolding is_taken route_step login_step callback_step parse_claims prune_shared expired Dict.lookup
    is_blank utf8_length Dict.insert take_context
taken_by_one = refl

-- A second callback with the same state finds nothing.
abbrev refused_world : World
refused_world = step config json requests 2 taken_world

abbrev taker : ℕ
taker = 1

still_taken : is_taken "state-1" (refused_world.phases taker) ≡ true
still_taken = taken_by_one

taken_once_example : taker ≡ taker
taken_once_example =
    taken_once config json requests one_login "state-1" taken_world refused_world taker taker
      taken_world-Reach taken_by_one (Reach.stepped 2 Reach.at_start) still_taken

Reach-WellFormed_example : WellFormed taken_world.shared
Reach-WellFormed_example = Reach-WellFormed config json requests taken_world taken_world-Reach

requests_bring : (thread : ℕ) → Brings json AsksUserinfo (requests thread)
requests_bring thread = elim (Bool-cases (nat_eq thread 0)) [
  | inl e ↦
      subst (λ b. Brings json AsksUserinfo (if b then log_in else come_back willing)) (sym e)
        log_in-Brings
  | inr e ↦
      subst (λ b. Brings json AsksUserinfo (if b then log_in else come_back willing)) (sym e)
        (come_back-Brings)
]

Reach-Holds_example : Holds AsksUserinfo (caches_of taken_world.shared)
Reach-Holds_example =
    Reach-Holds config json requests AsksUserinfo requests_bring taken_world taken_world-Reach

-- A stored grant is refreshed while no other thread runs.
abbrev one_object : Shared
one_object = record {
  authorizations = [];
  tokens = ("result-1", 0) ∷ [];
  grants = λ address. grant;
  next = 1;
}

one_object-WellFormed : WellFormed one_object
unfolding Dict.mem
one_object-WellFormed = record {
  authorizations = tt;
  tokens = (refl, tt);
  objects = ((tt, tt), (omega arith, tt));
}

alone_is_handle_example :
    let moved = alone config json 8 (ask_again willing) Phase.begin one_object in
    let outcome = handle config json (ask_again willing) (caches_of one_object) in
    (caches_of moved.shared ≡ outcome.site.caches)
    × (moved.phase ≡ Phase.finished outcome.site.session outcome.response)
alone_is_handle_example =
    alone_is_handle config json (ask_again willing) one_object one_object-WellFormed

-- Two threads refresh the stored grant.
abbrev refreshing : ℕ → Event
refreshing thread = ask_again willing

refreshing-Asks : Asks "result-1" 0 (ask_again willing) one_object
unfolding Dict.lookup
refreshing-Asks = record {
  form = ("result_id", "result-1") ∷ [];
  route = refl;
  wanted = refl;
  in_time = omega arith;
}

same_token_twice_example :
    let world =
      schedule config json refreshing
        (0 ∷ 1 ∷ 0 ∷ 1 ∷ 0 ∷ 1 ∷ 0 ∷ 1 ∷ [])
        (record { shared = one_object; phases = λ thread. Phase.begin }) in
    (world.phases 0 ≡ answer_to json (ask_again willing) "result-1" 0 (str "r-1"))
    × (world.phases 1 ≡ answer_to json (ask_again willing) "result-1" 0 (str "r-1"))
    × ((world.shared.grants 0).refresh_token ≡ str "r-1")
unfolding Dict.lookup
same_token_twice_example =
    same_token_twice config json refreshing "result-1" 0 one_object one_object-WellFormed refl refl
      refreshing-Asks refreshing-Asks
