-- ===== src/Client/Threads/Alone/Callbacks.antt =====
-- The handler `callback` without interruption.
use keycloak_oidc4ac_lab.Prelude.{
  String, Option, none, some, false, [], ◌≡◌, refl, sym, ap, inl, inr, if◌then◌else◌, arith, ◌∷◌,
  ◌==◌, Bool-cases, Option-cases, is_empty,
}
use keycloak_oidc4ac_lab.Prelude.Dict
use keycloak_oidc4ac_lab.Prelude.Dict.{Dict, lookup-remove}
use keycloak_oidc4ac_lab.Json.{JsonText}
use keycloak_oidc4ac_lab.Client.Caches.{Authorization, Caches}
use keycloak_oidc4ac_lab.Client.Pages.{Config, Provider, Inputs}
use keycloak_oidc4ac_lab.Client.Grants.{
  callback, finish_authorization, verified, grant_of, reported_error, take_context,
}
use keycloak_oidc4ac_lab.Client.Shared.{Shared, caches_of, resolve}
use keycloak_oidc4ac_lab.Client.Shared.Objects.{insert-resolve}
use keycloak_oidc4ac_lab.Client.Shared.WellFormed.{WellFormed, Below-Misses}
use keycloak_oidc4ac_lab.Client.Server.{Route}
use keycloak_oidc4ac_lab.Client.Threads.{route_step, callback_step}
use keycloak_oidc4ac_lab.Client.Threads.Alone.{alone, Alone, event}

remove_absent :
    {V : Type 0} (k : String) (d : Dict V) → Dict.lookup k d ≡ none → Dict.remove k d ≡ d
unfolding Dict.lookup Dict.remove
remove_absent k [] h = refl
remove_absent k ((j, v) ∷ d) h = elim (Bool-cases (j == k)) [
  | inl e ↦ absurd (cc (h, ap (λ b. if b then some v else Dict.lookup k d) e))
  | inr e ↦ rw e (ap (λ d. (j, v) ∷ d) (remove_absent k d (ground arith)))
]

module _ (config : Config) (json : JsonText) (inputs : Inputs) (provider : Provider)
    (session : Option String) (shared : Shared) (well : WellFormed shared) where
  abbrev caches : Caches
  caches = caches_of shared

  abbrev AloneAt : Route → Type 0
  AloneAt route = Alone config json (event config json inputs provider session route) shared

  -- A callback whose context was in the cache.
  alone-finish :
      (args : Dict String) (state : String) (context : Authorization)
      → reported_error args ≡ none
      → Dict.lookup "state" args ≡ some state
      → is_empty state ≡ false
      → Dict.lookup state shared.authorizations ≡ some context
      → AloneAt (Route.callback args)
  unfolding alone route_step callback_step callback take_context finish_authorization
  alone-finish args state context ok given full pending =
      elim (Option-cases
        (verified json provider provider.authorize_access_token (some context.nonce))) [
          | inl refused ↦
              rw
                (
                  ok, given, full, pending, refused, alone, route_step, callback_step, callback,
                  finish_authorization,
                )
                (refl, refl)
          | inr ((token, id_token, userinfo), valid) ↦
              rw
                (
                  ok, given, full, pending, valid, alone, route_step, callback_step, callback,
                  finish_authorization,
                )
                (
                  ap
                      (λ tokens. record {
                        authorizations = Dict.remove state shared.authorizations;
                        tokens = tokens;
                      })
                      (insert-resolve inputs.fresh_id shared.next (grant_of token context inputs)
                        shared.grants shared.tokens
                        (Below-Misses shared.next shared.tokens well.objects.1)),
                  refl,
                )
        ]

  pub alone-callback : (args : Dict String) → AloneAt (Route.callback args)
  unfolding alone route_step callback_step callback take_context finish_authorization
  alone-callback args = elim (Option-cases (reported_error args)) [
    | inr (error, e) ↦ rw (e, alone, route_step, callback_step, callback) (refl, refl)
    | inl ok ↦ elim (Option-cases (Dict.lookup "state" args)) [
      | inl e ↦ rw (ok, e, alone, route_step, callback_step, callback) (refl, refl)
      | inr (state, e) ↦ elim (Bool-cases (is_empty state)) [
        | inl empty ↦ rw (ok, e, empty, alone, route_step, callback_step, callback) (refl, refl)
        | inr full ↦ elim (Option-cases (Dict.lookup state shared.authorizations)) [
          | inl gone ↦
              rw (ok, e, full, gone, alone, route_step, callback_step, callback)
                (
                  ap
                      (λ a. record {
                        authorizations = a;
                        tokens = resolve shared.grants shared.tokens;
                      })
                      (sym (remove_absent state shared.authorizations gone)),
                  refl,
                )
          | inr (context, pending) ↦ alone-finish args state context ok e full pending
        ]
      ]
    ]
  ]
