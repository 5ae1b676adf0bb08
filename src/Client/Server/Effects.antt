-- ===== src/Client/Server/Effects.antt =====
-- The transitions of the caches, as a relation: every request makes one of them.
use keycloak_oidc4ac_lab.Prelude.{
  String, ◌≡◌, refl, Option, none, some, [], arith, is_empty, if◌then◌else◌, Bool-cases,
  Option-cases, inl, inr,
}
use keycloak_oidc4ac_lab.Prelude.Dict
use keycloak_oidc4ac_lab.Prelude.Dict.{Dict}
use keycloak_oidc4ac_lab.Json.{Value, JsonText}
use keycloak_oidc4ac_lab.Client.Claims.{claims, rejected, escaped, parse_claims, Parsed-cases}
use keycloak_oidc4ac_lab.Client.Caches.{Authorization, Grant, Caches, prune_caches}
use keycloak_oidc4ac_lab.Client.Pages.{Config, Provider, Inputs, Site}
use keycloak_oidc4ac_lab.Client.Login.{home, preview, login, is_on}
use keycloak_oidc4ac_lab.Client.Grants.{
  callback, refresh, finish_authorization, finish_refresh, verified, refreshable, wanted_result,
  rotated, get_or_none, reported_error,
}
use keycloak_oidc4ac_lab.Client.Server.{Event, Route, handle}

abbrev pub issue : String → Authorization → Caches → Caches
issue state a caches = record caches { authorizations = Dict.insert state a caches.authorizations }

abbrev pub take : String → Caches → Caches
take state caches = record {
  authorizations = Dict.remove state caches.authorizations;
  tokens = caches.tokens;
}

abbrev pub store : String → Grant → Caches → Caches
store id g caches = record {
  authorizations = caches.authorizations;
  tokens = Dict.insert id g caches.tokens;
}

-- The claims that `login` accepts, if it accepts the form.
abbrev pub accepted : JsonText → Dict String → Option (Dict Value)
accepted json form =
    if is_on "omit_claims" form
    then some []
    else elim (parse_claims json (Dict.lookup "claims_json" form)) [
      | claims d ↦ some d
      | rejected e ↦ none
      | escaped e ↦ none
    ]

module _ (json : JsonText) where
  pub data Change (e : Event) (before : Caches) : Caches → Type 0 where
    kept : Change e before before
    pruned : Change e before (prune_caches e.inputs.pruned_at before)
    issued :
        (form : Dict String) (d : Dict Value)
        → e.route ≡ Route.login form
        → accepted json form ≡ some d
        → Change e before (
            issue e.inputs.fresh_id
              (record { claims = d; nonce = e.inputs.nonce; created_at = e.inputs.stored_at })
              (prune_caches e.inputs.pruned_at before))
    consumed :
        (args : Dict String) (state : String)
        → e.route ≡ Route.callback args
        → Dict.lookup "state" args ≡ some state
        → Change e before (take state before)
    granted :
        (args : Dict String) (state : String) (a : Authorization) (token : Value)
        → e.route ≡ Route.callback args
        → Dict.lookup "state" args ≡ some state
        → Dict.lookup state before.authorizations ≡ some a
        → Change e before (
            store e.inputs.fresh_id
              (record { refresh_token = token; claims = a.claims; created_at = e.inputs.stored_at })
              (take state before))
    refreshed :
        (form : Dict String) (id : String) (g : Grant) (token : Value)
        → e.route ≡ Route.refresh form
        → Dict.lookup id (prune_caches e.inputs.pruned_at before).tokens ≡ some g
        → Change e before (
            store id
              (record { refresh_token = token; claims = g.claims; created_at = e.inputs.stored_at })
              (prune_caches e.inputs.pruned_at before))

-- What `refreshable` finds is in the cache, under the id that was asked for.
pub refreshable_found :
    (wanted : Option String) (cache : Dict Grant) (id : String) (g : Grant)
    → refreshable wanted cache ≡ some (id, g)
    → (Dict.lookup id cache ≡ some g) × (wanted ≡ some id)
unfolding refreshable
refreshable_found none cache id g h = cc
refreshable_found (some w) cache id g h = ground arith

module _ (config : Config) (json : JsonText) (inputs : Inputs) (provider : Provider)
    (session : Option String) (caches : Caches) where
  abbrev site : Site
  site = record { caches = caches; session = session }

  abbrev event : Route → Event
  event route = record { route = route; inputs = inputs; provider = provider; session = session }

  preview-Change :
      (form : Dict String)
      → Change json
          (event (Route.preview form))
          caches
          (preview config json form inputs site).site.caches
  unfolding preview
  preview-Change form = elim (Parsed-cases (parse_claims json (Dict.lookup "claims_json" form))) [
    | inl (d, e) ↦ rw (e, preview) Change.kept
    | inr (inl (error, e)) ↦ rw (e, preview) Change.pruned
    | inr (inr (error, e)) ↦ rw (e, preview) Change.kept
  ]

  login-Change :
      (form : Dict String)
      → Change json
          (event (Route.login form))
          caches
          (login config json provider form inputs site).site.caches
  unfolding login
  login-Change form = elim (Bool-cases (is_on "omit_claims" form)) [
    | inl omitted ↦ rw omitted (Change.issued form [] refl (rw omitted refl))
    | inr offered ↦ elim (Parsed-cases (parse_claims json (Dict.lookup "claims_json" form))) [
      | inl (d, e) ↦ rw (offered, e) (Change.issued form d refl (rw (offered, e) refl))
      | inr (inl (error, e)) ↦ rw (offered, e) Change.pruned
      | inr (inr (error, e)) ↦ rw (offered, e) Change.kept
    ]
  ]

  finish-Change :
      (args : Dict String) (state : String)
      → Dict.lookup "state" args ≡ some state
      → Change json
          (event (Route.callback args))
          caches
          (finish_authorization json provider
            (Dict.lookup state caches.authorizations)
            inputs
            (record { caches = take state caches; session = session })).site.caches
  unfolding finish_authorization
  finish-Change args state e = elim (Option-cases (Dict.lookup state caches.authorizations)) [
    | inl gone ↦ rw (gone, finish_authorization) (Change.consumed args state refl e)
    | inr (a, pending) ↦
        elim (Option-cases
          (verified json provider provider.authorize_access_token (some a.nonce))) [
            | inl refused ↦
                rw (pending, refused, finish_authorization) (Change.consumed args state refl e)
            | inr ((token, id_token, userinfo), valid) ↦
                rw (pending, valid, finish_authorization)
                  (Change.granted args state a (get_or_none "refresh_token" token) refl e pending)
          ]
  ]

  callback-Change :
      (args : Dict String)
      → Change json
          (event (Route.callback args))
          caches
          (callback json provider args inputs site).site.caches
  unfolding callback
  callback-Change args = elim (Option-cases (reported_error args)) [
    | inr (error, e) ↦ rw (e, callback) Change.kept
    | inl none_reported ↦ elim (Option-cases (Dict.lookup "state" args)) [
      | inl e ↦ rw (none_reported, e, callback) Change.kept
      | inr (state, e) ↦ elim (Bool-cases (is_empty state)) [
        | inl empty ↦ rw (none_reported, e, callback) (rw empty Change.kept)
        | inr full ↦ rw (none_reported, e, callback) (rw full (finish-Change args state e))
      ]
    ]
  ]

  refresh-Change :
      (form : Dict String)
      → Change json
          (event (Route.refresh form))
          caches
          (refresh json provider form inputs site).site.caches
  unfolding refresh
  refresh-Change form =
      let tokens = (prune_caches inputs.pruned_at caches).tokens in
      let wanted = wanted_result form session in
      elim (Option-cases (refreshable wanted tokens)) [
        | inl e ↦ rw (e, refresh) Change.pruned
        | inr ((id, g), e) ↦
            elim (Option-cases
              (verified json provider (provider.fetch_access_token g.refresh_token) none)) [
                | inl refused ↦ rw (e, refused, refresh, finish_refresh) Change.pruned
                | inr ((token, id_token, userinfo), valid) ↦
                    rw (e, valid, refresh, finish_refresh)
                      (Change.refreshed form id g (rotated token g) refl
                        (refreshable_found wanted tokens id g e).0)
              ]
      ]

  route-Change :
      (route : Route)
      → Change json (event route) caches (handle config json (event route) caches).site.caches
  route-Change Route.home = unfold home in Change.pruned
  route-Change (Route.preview form) = preview-Change form
  route-Change (Route.login form) = login-Change form
  route-Change (Route.callback args) = callback-Change args
  route-Change (Route.refresh form) = refresh-Change form

-- Whatever the provider answers, what a request does to the caches is one of the transitions of
-- `Change`.
pub handle-Change :
    (config : Config) (json : JsonText) (e : Event) (caches : Caches)
    → Change json e caches (handle config json e caches).site.caches
handle-Change config json e caches =
    route-Change config json e.inputs e.provider e.session caches e.route
