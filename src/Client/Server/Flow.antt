-- ===== src/Client/Server/Flow.antt =====
-- An authorization from its login to its callback, with the requests of other browsers in between.
pub mod Verified
pub mod Continued
use keycloak_oidc4ac_lab.Prelude.{
  String, ◌≡◌, refl, false, Option, none, some, List, arith, eq_iff, Bool-cases, Option-cases, inl,
  inr, some_inj, All, sym, ◌∙◌, ap, is_empty, ok, Result,
}
use keycloak_oidc4ac_lab.Prelude.Dict
use keycloak_oidc4ac_lab.Prelude.Dict.{Dict, lookup-insert, lookup-remove}
use keycloak_oidc4ac_lab.Json.{Value, str, JsonText, object}
use keycloak_oidc4ac_lab.Client.Claims.{Parsed-cases, parse_claims}
use keycloak_oidc4ac_lab.Client.Caches.{Authorization, Caches, prune_caches}
use keycloak_oidc4ac_lab.Client.Caches.Prune.{IsValid}
use keycloak_oidc4ac_lab.Client.Login.{login, is_on}
use keycloak_oidc4ac_lab.Client.Grants.{
  callback, reported_error, take_context, finish_authorization, verified, render_result,
  get_or_none,
}
use keycloak_oidc4ac_lab.Client.Pages.{
  Config, Provider, Inputs, Site, Response, error_page, result_page, Token, ResultPage,
}
use keycloak_oidc4ac_lab.Client.Server.{Event, Route, handle, run}
use keycloak_oidc4ac_lab.Client.Server.Effects.{accepted, issue, take}
use keycloak_oidc4ac_lab.Client.Server.Invariant.{handle-IsValid}
use keycloak_oidc4ac_lab.Client.Server.Pending.{Spares, DrawsOther, run-Spares, run-absent}

-- The entry that an accepted login makes.
abbrev pub entry_of : Inputs → Dict Value → Authorization
entry_of inputs d = record { claims = d; nonce = inputs.nonce; created_at = inputs.stored_at }

-- The page on which a callback without a pending authorization ends.
abbrev pub missing_context : Result Response
missing_context = ok (record {
  page = error_page "missing_context" "The local relying-party session has expired.";
  status = 400;
})

-- A callback that reports no error, for a state that is a text.
pub record IsCallback (state : String) (e : Event) : Type 0 where
  pub args : Dict String
  pub route : e.route ≡ Route.callback args
  pub no_error : reported_error args ≡ none
  pub has_state : Dict.lookup "state" args ≡ some state
  pub nonempty : is_empty state ≡ false

module _ (config : Config) (json : JsonText) where
  -- What a callback does is decided by the entry under its state.
  pub handle-callback :
      (state : String) (e : Event) (caches : Caches) (o : Option Authorization)
      → IsCallback state e
      → Dict.lookup state caches.authorizations ≡ o
      → handle config json e caches
        ≡ finish_authorization json e.provider o e.inputs
            (record { caches = take state caches; session = e.session })
  unfolding callback take_context
  handle-callback state e caches o c h =
      rw c.route (rw (c.no_error, callback) (rw (c.has_state, callback) (rw (c.nonempty, h) refl)))

  handle-login :
      (form : Dict String) (d : Dict Value) (e : Event) (caches : Caches)
      → e.route ≡ Route.login form
      → accepted json form ≡ some d
      → (handle config json e caches).site.caches
        ≡ issue e.inputs.fresh_id (entry_of e.inputs d) (prune_caches e.inputs.pruned_at caches)
  unfolding login
  handle-login form d e caches route given = elim (Bool-cases (is_on "omit_claims" form)) [
    | inl omitted ↦
        rw route (rw (omitted, login) (ap claims_issued (some_inj (rw omitted at given))))
    | inr offered ↦ elim (Parsed-cases (parse_claims json (Dict.lookup "claims_json" form))) [
      | inl (d', p) ↦
          rw route (rw (offered, p, login) (ap claims_issued (some_inj (rw (offered, p) at given))))
      | inr (inl (error, p)) ↦ absurd (none≢some (rw (offered, p) at given))
      | inr (inr (error, p)) ↦ absurd (none≢some (rw (offered, p) at given))
    ]
  ]
    where
      claims_issued : Dict Value → Caches
      claims_issued d =
          issue e.inputs.fresh_id (entry_of e.inputs d) (prune_caches e.inputs.pruned_at caches)

      none≢some : Path (Option (Dict Value)) none (some d) → ⊥
      none≢some h = cc h

  authorizations-finish :
      (provider : Provider) (o : Option Authorization) (inputs : Inputs) (site : Site)
      → (finish_authorization json provider o inputs site).site.authorizations ≡ site.authorizations
  unfolding finish_authorization
  authorizations-finish provider none inputs site = refl
  authorizations-finish provider (some a) inputs site =
      elim (Option-cases (verified json provider provider.authorize_access_token (some a.nonce))) [
        | inl refused ↦ rw (refused, finish_authorization) refl
        | inr ((token, id_token, userinfo), valid) ↦ rw (valid, finish_authorization) refl
      ]

  -- A callback takes the entry under its state away.
  callback_takes :
      (state : String) (c : Event) (caches : Caches)
      → IsCallback state c
      → Dict.lookup state (handle config json c caches).site.authorizations ≡ none
  callback_takes state c caches back =
      ap (λ o. Dict.lookup state o.site.authorizations)
        (handle-callback state c caches (Dict.lookup state caches.authorizations) back refl)
      ∙ ap (Dict.lookup state) (
          authorizations-finish c.provider (Dict.lookup state caches.authorizations) c.inputs
            (record { caches = take state caches; session = c.session }))
      ∙ ground (arith, lookup-remove state state caches.authorizations, eq_iff state state)

  -- After an accepted login on caches that hold each key once, whatever other requests come that
  -- spare its authorization, a callback with its state that reports no error continues with the
  -- claims and the nonce of that login, and takes the entry away.
  pub callback_continues_login :
      (form : Dict String) (d : Dict Value) (l c : Event) (events : List Event) (caches : Caches)
      → IsValid caches
      → l.route ≡ Route.login form
      → accepted json form ≡ some d
      → All (Spares l.inputs.fresh_id (entry_of l.inputs d)) events
      → IsCallback l.inputs.fresh_id c
      → let between = run config json events (handle config json l caches).site.caches in
        handle config json c between
        ≡ finish_authorization json c.provider
            (some (entry_of l.inputs d))
            c.inputs
            (record { caches = take l.inputs.fresh_id between; session = c.session })
  callback_continues_login form d l c events caches v route given spared back =
      handle-callback l.inputs.fresh_id c _ (some (entry_of l.inputs d)) back (
        run-Spares config json l.inputs.fresh_id (entry_of l.inputs d) events _ spared
          (handle-IsValid config json l caches v)
          (rw (handle-login form d l caches route given) (
            ground (
              arith,
              lookup-insert l.inputs.fresh_id l.inputs.fresh_id (entry_of l.inputs d)
                  (prune_caches l.inputs.pruned_at caches).authorizations,
              eq_iff l.inputs.fresh_id l.inputs.fresh_id,
            ))))

  -- On caches that hold each key once, a state is used once: after a callback with it that reports
  -- no error, whether the response was verified or not, and after any requests that draw other ids, a
  -- second callback that reports no error is refused and changes no grant.
  pub replay_refused :
      (state : String) (c again : Event) (events : List Event) (caches : Caches)
      → IsValid caches
      → IsCallback state c
      → All (DrawsOther state) events
      → IsCallback state again
      → let between = run config json events (handle config json c caches).site.caches in
        ((handle config json again between).response ≡ missing_context)
        × ((handle config json again between).site.tokens ≡ between.tokens)
  replay_refused state c again events caches v back others back' =
      rw
        (handle-callback state again
          (run config json events (handle config json c caches).site.caches) none back'
          (run-absent config json state events _ others (handle-IsValid config json c caches v)
            (callback_takes state c caches back)))
        (unfold finish_authorization in (refl, refl))

  -- A callback for a pending authorization whose response cannot be verified takes the entry under
  -- its state away, leaves the grants and the browser's result id as they were, and answers with the
  -- error page of token_validation_failed and HTTP 400.
  pub unverified_callback :
      (state : String) (a : Authorization) (c : Event) (caches : Caches)
      → IsCallback state c
      → Dict.lookup state caches.authorizations ≡ some a
      → verified json c.provider c.provider.authorize_access_token (some a.nonce) ≡ none
      → let o = handle config json c caches in
        (o.site ≡ record { caches = take state caches; session = c.session })
        × (o.response
            ≡ ok (record {
              page =
                  error_page "token_validation_failed"
                    "The authorization response could not be verified.";
              status = 400;
            }))
  unverified_callback state a c caches back pending refused =
      rw (handle-callback state c caches (some a) back pending)
        (unfold finish_authorization in rw (refused, finish_authorization) (refl, refl))
