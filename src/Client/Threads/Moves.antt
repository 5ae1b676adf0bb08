-- ===== src/Client/Threads/Moves.antt =====
-- The steps of a thread as a relation: every step is one of these moves.
use keycloak_oidc4ac_lab.Prelude.{ℕ, String, Option, Bool, some, ◌≡◌, Result}
use keycloak_oidc4ac_lab.Prelude.Dict
use keycloak_oidc4ac_lab.Prelude.Dict.{Dict}
use keycloak_oidc4ac_lab.Json.{Value, JsonText}
use keycloak_oidc4ac_lab.Client.Caches.{Authorization}
use keycloak_oidc4ac_lab.Client.Pages.{Token, Response, Inputs}
use keycloak_oidc4ac_lab.Client.Grants.{rotated, grant_of}
use keycloak_oidc4ac_lab.Client.Shared.{
  Shared, set_refresh_token, set_created_at, prune_shared, pop_context, add_authorization,
  add_grant,
}
use keycloak_oidc4ac_lab.Client.Server.{Route, Event}
use keycloak_oidc4ac_lab.Client.Server.Effects.{accepted}
use keycloak_oidc4ac_lab.Client.Threads.{Phase}

-- The phases of a handler.
abbrev pub IsLogin : Route → Type 0
IsLogin (Route.login form) = Unit {0}
IsLogin _ = ⊥

abbrev pub IsCallback : Route → Type 0
IsCallback (Route.callback args) = Unit {0}
IsCallback _ = ⊥

abbrev pub IsRefresh : Route → Type 0
IsRefresh (Route.refresh form) = Unit {0}
IsRefresh _ = ⊥

abbrev pub Fits : Route → Phase → Type 0
Fits route Phase.begin = Unit {0}
Fits route (Phase.composed omit_claims d) = IsLogin route
Fits route Phase.pruned = IsRefresh route
Fits route (Phase.taken state context) = IsCallback route
Fits route (Phase.found id address) = IsRefresh route
Fits route (Phase.checked id address) = IsRefresh route
Fits route (Phase.fetched id address answer) = IsRefresh route
Fits route (Phase.rotating id address answer next) = IsRefresh route
Fits route (Phase.renewed id address answer) = IsRefresh route
Fits route (Phase.stamped id address answer) = IsRefresh route
Fits route (Phase.finished session response) = Unit {0}

abbrev issued_by : Inputs → Dict Value → Authorization
issued_by inputs d = record { claims = d; nonce = inputs.nonce; created_at = inputs.stored_at }

module _ (json : JsonText) where
  pub data Move (e : Event) (before : Shared) : Phase → Shared → Phase → Type 0 where
    reply :
        (response : Result Response)
        → Move e before Phase.begin before (Phase.finished e.session response)
    clear :
        (response : Result Response)
        → Move e before Phase.begin
            (prune_shared e.inputs.pruned_at before)
            (Phase.finished e.session response)
    compose :
        (form : Dict String) (omit_claims : Bool) (d : Dict Value)
        → e.route ≡ Route.login form
        → accepted json form ≡ some d
        → Move e before Phase.begin
            (prune_shared e.inputs.pruned_at before)
            (Phase.composed omit_claims d)
    issue :
        (omit_claims : Bool) (d : Dict Value) (response : Result Response)
        → Move e before
            (Phase.composed omit_claims d)
            (add_authorization e.inputs.fresh_id (issued_by e.inputs d) before)
            (Phase.finished e.session response)
    take :
        (args : Dict String) (state : String) (context : Authorization)
        → e.route ≡ Route.callback args
        → Dict.lookup "state" args ≡ some state
        → Dict.lookup state before.authorizations ≡ some context
        → Move e before Phase.begin (pop_context state before) (Phase.taken state context)
    refuse :
        (state : String) (context : Authorization) (response : Result Response)
        → Move e before (Phase.taken state context) before (Phase.finished e.session response)
    store :
        (state : String) (context : Authorization) (token : Token) (response : Result Response)
        → Move e before
            (Phase.taken state context)
            (add_grant e.inputs.fresh_id (grant_of token context e.inputs) before)
            (Phase.finished (some e.inputs.fresh_id) response)
    clear_first :
        (form : Dict String)
        → e.route ≡ Route.refresh form
        → Move e before Phase.begin (prune_shared e.inputs.pruned_at before) Phase.pruned
    find :
        (id : String) (address : ℕ)
        → Dict.lookup id before.tokens ≡ some address
        → Move e before Phase.pruned before (Phase.found id address)
    find_none :
        (response : Result Response)
        → Move e before Phase.pruned before (Phase.finished e.session response)
    check :
        (id : String) (address : ℕ)
        → Move e before (Phase.found id address) before (Phase.checked id address)
    lack :
        (id : String) (address : ℕ) (response : Result Response)
        → Move e before (Phase.found id address) before (Phase.finished e.session response)
    fetch :
        (id : String) (address : ℕ) (answer : Token × Dict Value × Dict Value)
        → Move e before (Phase.checked id address) before (Phase.fetched id address answer)
    fail :
        (id : String) (address : ℕ) (response : Result Response)
        → Move e before (Phase.checked id address) before (Phase.finished e.session response)
    rotate :
        (id : String) (address : ℕ) (answer : Token × Dict Value × Dict Value)
        → Move e before
            (Phase.fetched id address answer)
            before
            (Phase.rotating id address answer (rotated answer.0 (before.grants address)))
    renew :
        (id : String) (address : ℕ) (answer : Token × Dict Value × Dict Value) (next : Value)
        → Move e before
            (Phase.rotating id address answer next)
            (set_refresh_token address next before)
            (Phase.renewed id address answer)
    stamp :
        (id : String) (address : ℕ) (answer : Token × Dict Value × Dict Value)
        → Move e before
            (Phase.renewed id address answer)
            (set_created_at address e.inputs.stored_at before)
            (Phase.stamped id address answer)
    show :
        (id : String) (address : ℕ) (answer : Token × Dict Value × Dict Value)
        (response : Result Response)
        → Move e before (Phase.stamped id address answer) before (Phase.finished e.session response)
    rest :
        (session : Option String) (response : Result Response)
        → Move e before (Phase.finished session response) before (Phase.finished session response)

-- A move stays among the phases of the handler.
pub Move-Fits :
    {json : JsonText} {e : Event} {before after : Shared} {phase later : Phase}
    → Move json e before phase after later
    → Fits e.route phase
    → Fits e.route later
Move-Fits (Move.reply response) h = tt
Move-Fits (Move.clear response) h = tt
Move-Fits (Move.compose form omit_claims d route ok) h = rw route tt
Move-Fits (Move.issue omit_claims d response) h = tt
Move-Fits (Move.take args state context route given pending) h = rw route tt
Move-Fits (Move.refuse state context response) h = tt
Move-Fits (Move.store state context token response) h = tt
Move-Fits (Move.clear_first form route) h = rw route tt
Move-Fits (Move.find id address e) h = h
Move-Fits (Move.find_none response) h = tt
Move-Fits (Move.check id address) h = h
Move-Fits (Move.lack id address response) h = tt
Move-Fits (Move.fetch id address answer) h = h
Move-Fits (Move.fail id address response) h = tt
Move-Fits (Move.rotate id address answer) h = h
Move-Fits (Move.renew id address answer next) h = h
Move-Fits (Move.stamp id address answer) h = h
Move-Fits (Move.show id address answer response) h = tt
Move-Fits (Move.rest session response) h = tt
