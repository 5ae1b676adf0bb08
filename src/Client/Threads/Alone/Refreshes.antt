-- ===== src/Client/Threads/Alone/Refreshes.antt =====
-- The handler `refresh` without interruption.
use keycloak_oidc4ac_lab.Prelude.{
  ℕ, String, Bool, Option, none, some, true, false, ◌≡◌, refl, sym, ap, ◌∙◌, inl, inr,
  if◌then◌else◌, arith, Bool-cases, Option-cases,
}
use keycloak_oidc4ac_lab.Prelude.Dict
use keycloak_oidc4ac_lab.Prelude.Dict.{Dict, lookup-remove}
use keycloak_oidc4ac_lab.Json.{Value, JsonText}
use keycloak_oidc4ac_lab.Client.Caches.{Grant, Caches, prune_caches}
use keycloak_oidc4ac_lab.Client.Pages.{Config, Provider, Inputs}
use keycloak_oidc4ac_lab.Client.Grants.{
  refresh, finish_refresh, verified, refreshable, wanted_result, rotated, is_true,
}
use keycloak_oidc4ac_lab.Client.Shared.{Shared, caches_of, write, prune_shared}
use keycloak_oidc4ac_lab.Client.Shared.Objects.{
  lookup-resolve, value_at, resolve-write, resolve-write-write, nat_eq_refl,
}
use keycloak_oidc4ac_lab.Client.Shared.WellFormed.{WellFormed, prune_shared-WellFormed}
use keycloak_oidc4ac_lab.Client.Server.{Route}
use keycloak_oidc4ac_lab.Client.Threads.{route_step, refresh_step}
use keycloak_oidc4ac_lab.Client.Threads.Alone.{alone, Alone, event}
use keycloak_oidc4ac_lab.Client.Threads.Alone.Logins.{pruned_caches}

refreshable-none :
    (id : String) (cache : Dict Grant)
    → Dict.lookup id cache ≡ none
    → refreshable (some id) cache ≡ none
unfolding refreshable
refreshable-none id cache h = ground arith

refreshable-some :
    (id : String) (cache : Dict Grant) (grant : Grant) (b : Bool)
    → Dict.lookup id cache ≡ some grant
    → is_true grant.refresh_token ≡ b
    → refreshable (some id) cache ≡ (if b then some (id, grant) else none)
unfolding refreshable
refreshable-some id cache grant b h has = ground arith

module _ (config : Config) (json : JsonText) (inputs : Inputs) (provider : Provider)
    (session : Option String) (shared : Shared) (well : WellFormed shared) where
  abbrev caches : Caches
  caches = caches_of shared

  abbrev AloneAt : Route → Type 0
  AloneAt route = Alone config json (event config json inputs provider session route) shared

  abbrev cleared : Shared
  cleared = prune_shared inputs.pruned_at shared

  -- What `TOKEN_CACHE.get` finds in the one model and in the other.
  seen :
      (id : String)
      → Dict.lookup id (prune_caches inputs.pruned_at caches).tokens
        ≡ value_at cleared.grants (Dict.lookup id cleared.tokens)
  seen id =
      sym (
        ap (λ c. Dict.lookup id c.tokens)
          (pruned_caches config json inputs provider session shared))
      ∙ lookup-resolve cleared.grants id cleared.tokens

  abbrev sought : Option String → Option (String × Grant)
  sought wanted = refreshable wanted (prune_caches inputs.pruned_at caches).tokens

  sought-none : (id : String) → Dict.lookup id cleared.tokens ≡ none → sought (some id) ≡ none
  sought-none id gone = refreshable-none id _ (seen id ∙ ap (value_at cleared.grants) gone)

  sought-some :
      (id : String) (address : ℕ) (b : Bool)
      → Dict.lookup id cleared.tokens ≡ some address
      → is_true (cleared.grants address).refresh_token ≡ b
      → sought (some id) ≡ (if b then some (id, cleared.grants address) else none)
  sought-some id address b found has =
      refreshable-some id _ _ b (seen id ∙ ap (value_at cleared.grants) found) has

  abbrev with_grant : String → Grant → Caches → Caches
  with_grant id grant c = record {
    authorizations = c.authorizations;
    tokens = Dict.insert id grant c.tokens;
  }

  -- The two writes of `refresh` to the object that it found.
  renewed_caches :
      (id : String) (address : ℕ) (first : Grant) (refresh_token : Value)
      → Dict.lookup id cleared.tokens ≡ some address
      → let second : Grant = record {
        refresh_token = refresh_token;
        claims = (cleared.grants address).claims;
        created_at = inputs.stored_at;
      } in
        caches_of
          (record cleared { grants = write address second (write address first cleared.grants) })
        ≡ with_grant id second (prune_caches inputs.pruned_at caches)
  renewed_caches id address first refresh_token found =
      ap (λ tokens. record { authorizations = cleared.authorizations; tokens = tokens })
        (resolve-write-write address first _ cleared.grants cleared.tokens
          ∙ resolve-write id address _ cleared.grants cleared.tokens found
              (prune_shared-WellFormed inputs.pruned_at shared well).objects.0)
      ∙ ap (with_grant id _) (pruned_caches config json inputs provider session shared)

  alone-renew :
      (form : Dict String) (id : String) (address : ℕ)
      → wanted_result form session ≡ some id
      → Dict.lookup id cleared.tokens ≡ some address
      → is_true (cleared.grants address).refresh_token ≡ true
      → AloneAt (Route.refresh form)
  unfolding alone route_step refresh_step refresh finish_refresh
  alone-renew form id address wanted found has =
      let grant = cleared.grants address in
      let object = sought-some id address true found has in
      elim (Option-cases
        (verified json provider (provider.fetch_access_token grant.refresh_token) none)) [
          | inl refused ↦
              rw
                (
                  wanted, found, object, has, refused, alone, route_step, refresh_step, refresh,
                  finish_refresh,
                )
                (pruned_caches config json inputs provider session shared, refl)
          | inr ((token, id_token, userinfo), valid) ↦
              rw
                (
                  wanted,
                  found,
                  object,
                  has,
                  valid,
                  nat_eq_refl address,
                  alone,
                  route_step,
                  refresh_step,
                  refresh,
                  finish_refresh,
                )
                (renewed_caches id address _ (rotated token grant) found, refl)
        ]

  pub alone-refresh : (form : Dict String) → AloneAt (Route.refresh form)
  unfolding alone route_step refresh_step refresh finish_refresh refreshable
  alone-refresh form = elim (Option-cases (wanted_result form session)) [
    | inl e ↦
        rw (e, alone, route_step, refresh_step, refresh)
          (pruned_caches config json inputs provider session shared, refl)
    | inr (id, wanted) ↦ elim (Option-cases (Dict.lookup id cleared.tokens)) [
      | inl gone ↦
          rw (wanted, gone, sought-none id gone, alone, route_step, refresh_step, refresh)
            (pruned_caches config json inputs provider session shared, refl)
      | inr (address, found) ↦ elim (Bool-cases (is_true (cleared.grants address).refresh_token)) [
        | inl has ↦ alone-renew form id address wanted found has
        | inr lacks ↦
            rw
              (
                wanted,
                found,
                sought-some id address false found lacks,
                lacks,
                alone,
                route_step,
                refresh_step,
                refresh,
              )
              (pruned_caches config json inputs provider session shared, refl)
      ]
    ]
  ]
