-- ===== src/Client/Threads/Steps.antt =====
-- Every step of a thread of test-client/app.py, on every branch of its handler, is one of the moves.
use keycloak_oidc4ac_lab.Prelude.{
  String, Option, true, false, none, some, [], ◌≡◌, refl, is_empty, inl, inr, Bool-cases,
  Option-cases,
}
use keycloak_oidc4ac_lab.Prelude.Dict
use keycloak_oidc4ac_lab.Prelude.Dict.{Dict}
use keycloak_oidc4ac_lab.Json.{JsonText}
use keycloak_oidc4ac_lab.Client.Claims.{parse_claims, Parsed-cases}
use keycloak_oidc4ac_lab.Client.Pages.{Config, Provider, Inputs}
use keycloak_oidc4ac_lab.Client.Login.{is_on}
use keycloak_oidc4ac_lab.Client.Grants.{
  reported_error, take_context, verified, wanted_result, is_true,
}
use keycloak_oidc4ac_lab.Client.Shared.{Shared}
use keycloak_oidc4ac_lab.Client.Server.{Route, Event}
use keycloak_oidc4ac_lab.Client.Threads.{
  Phase, Moved, route_step, advance, home_step, preview_step, login_step, callback_step,
  refresh_step,
}
use keycloak_oidc4ac_lab.Client.Threads.Moves.{Fits, Move}

module _ (config : Config) (json : JsonText) where
  -- A move to where a step leads.
  abbrev Moves : Event → Phase → Shared → Moved → Type 0
  Moves e phase shared moved = Move json e shared phase moved.shared moved.phase

  module _ (inputs : Inputs) (provider : Provider) (session : Option String) (shared : Shared) where
    abbrev event : Route → Event
    event route = record { route = route; inputs = inputs; provider = provider; session = session }

    home-Move :
        (phase : Phase)
        → Fits Route.home phase
        → Moves
            (event Route.home)
            phase
            shared
            (home_step config json (event Route.home) phase shared)
    unfolding home_step
    home-Move Phase.begin h = Move.clear _
    home-Move (Phase.finished s r) h = Move.rest s r
    home-Move phase h = absurd h

    preview-Move :
        (form : Dict String) (phase : Phase)
        → Fits (Route.preview form) phase
        → Moves
            (event (Route.preview form))
            phase
            shared
            (preview_step config json form (event (Route.preview form)) phase shared)
    unfolding preview_step
    preview-Move form Phase.begin h =
        elim (Parsed-cases (parse_claims json (Dict.lookup "claims_json" form))) [
          | inl (d, e) ↦ rw (e, preview_step) (Move.reply _)
          | inr (inl (error, e)) ↦ rw (e, preview_step) (Move.clear _)
          | inr (inr (error, e)) ↦ rw (e, preview_step) (Move.reply _)
        ]
    preview-Move form (Phase.finished s r) h = Move.rest s r
    preview-Move form phase h = absurd h

    login-Move :
        (form : Dict String) (phase : Phase)
        → Fits (Route.login form) phase
        → Moves
            (event (Route.login form))
            phase
            shared
            (login_step config json form (event (Route.login form)) phase shared)
    unfolding login_step
    login-Move form Phase.begin h = elim (Bool-cases (is_on "omit_claims" form)) [
      | inl omitted ↦ rw (omitted, login_step) (Move.compose form true [] refl (rw omitted refl))
      | inr offered ↦ elim (Parsed-cases (parse_claims json (Dict.lookup "claims_json" form))) [
        | inl (d, e) ↦
            rw (offered, e, login_step) (Move.compose form false d refl (rw (offered, e) refl))
        | inr (inl (error, e)) ↦ rw (offered, e, login_step) (Move.clear _)
        | inr (inr (error, e)) ↦ rw (offered, e, login_step) (Move.reply _)
      ]
    ]
    login-Move form (Phase.composed o d) h = Move.issue o d _
    login-Move form (Phase.finished s r) h = Move.rest s r
    login-Move form phase h = absurd h

    take-Move :
        (args : Dict String)
        → reported_error args ≡ none
        → Moves
            (event (Route.callback args))
            Phase.begin
            shared
            (callback_step config json args (event (Route.callback args)) Phase.begin shared)
    unfolding callback_step take_context
    take-Move args e = elim (Option-cases (Dict.lookup "state" args)) [
      | inl no_state ↦ rw (e, no_state, callback_step) (Move.reply _)
      | inr (state, given) ↦ elim (Bool-cases (is_empty state)) [
        | inl empty ↦ rw (e, given, empty, callback_step) (Move.reply _)
        | inr full ↦ elim (Option-cases (Dict.lookup state shared.authorizations)) [
          | inl gone ↦ rw (e, given, full, gone, callback_step) (Move.reply _)
          | inr (context, pending) ↦
              rw (e, given, full, pending, callback_step)
                (Move.take args state context refl given pending)
        ]
      ]
    ]

    callback-Move :
        (args : Dict String) (phase : Phase)
        → Fits (Route.callback args) phase
        → Moves
            (event (Route.callback args))
            phase
            shared
            (callback_step config json args (event (Route.callback args)) phase shared)
    unfolding callback_step
    callback-Move args Phase.begin h = elim (Option-cases (reported_error args)) [
      | inr (error, e) ↦ rw (e, callback_step) (Move.reply _)
      | inl none_reported ↦ take-Move args none_reported
    ]
    callback-Move args (Phase.taken state c) h =
        elim (Option-cases
          (verified json provider provider.authorize_access_token (some c.nonce))) [
            | inl refused ↦ rw (refused, callback_step) (Move.refuse state c _)
            | inr ((token, id_token, userinfo), valid) ↦
                rw (valid, callback_step) (Move.store state c token _)
          ]
    callback-Move args (Phase.finished s r) h = Move.rest s r
    callback-Move args phase h = absurd h

    refresh-Move :
        (form : Dict String) (phase : Phase)
        → Fits (Route.refresh form) phase
        → Moves
            (event (Route.refresh form))
            phase
            shared
            (refresh_step config json form (event (Route.refresh form)) phase shared)
    unfolding refresh_step
    refresh-Move form Phase.begin h = Move.clear_first form refl
    refresh-Move form Phase.pruned h = elim (Option-cases (wanted_result form session)) [
      | inl no_id ↦ rw (no_id, refresh_step) (Move.find_none _)
      | inr (id, wanted) ↦ elim (Option-cases (Dict.lookup id shared.tokens)) [
        | inl gone ↦ rw (wanted, gone, refresh_step) (Move.find_none _)
        | inr (address, e) ↦ rw (wanted, e, refresh_step) (Move.find id address e)
      ]
    ]
    refresh-Move form (Phase.found id a) h =
        elim (Bool-cases (is_true (shared.grants a).refresh_token)) [
          | inl e ↦ rw (e, refresh_step) (Move.check id a)
          | inr e ↦ rw (e, refresh_step) (Move.lack id a _)
        ]
    refresh-Move form (Phase.checked id a) h =
        elim (Option-cases (
          verified json provider (provider.fetch_access_token (shared.grants a).refresh_token)
            none)) [
              | inl refused ↦ rw (refused, refresh_step) (Move.fail id a _)
              | inr (response, valid) ↦ rw (valid, refresh_step) (Move.fetch id a response)
            ]
    refresh-Move form (Phase.fetched id a (t, i, u)) h = Move.rotate id a (t, i, u)
    refresh-Move form (Phase.rotating id a answer next) h = Move.renew id a answer next
    refresh-Move form (Phase.renewed id a answer) h = Move.stamp id a answer
    refresh-Move form (Phase.stamped id a (t, i, u)) h = Move.show id a (t, i, u) _
    refresh-Move form (Phase.finished s r) h = Move.rest s r
    refresh-Move form phase h = absurd h

    route-Move :
        (route : Route) (phase : Phase)
        → Fits route phase
        → Moves (event route) phase shared (advance config json (event route) phase shared)
    unfolding route_step
    route-Move Route.home phase h = home-Move phase h
    route-Move (Route.preview form) phase h = preview-Move form phase h
    route-Move (Route.login form) phase h = login-Move form phase h
    route-Move (Route.callback args) phase h = callback-Move args phase h
    route-Move (Route.refresh form) phase h = refresh-Move form phase h

  -- A step of a thread whose phase is one of its handler is a move.
  pub advance-Move :
      (e : Event) (phase : Phase) (shared : Shared)
      → Fits e.route phase
      → Moves e phase shared (advance config json e phase shared)
  advance-Move e phase shared h = route-Move e.inputs e.provider e.session shared e.route phase h
