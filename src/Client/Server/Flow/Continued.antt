-- ===== src/Client/Server/Flow/Continued.antt =====
-- An authorization from its login over its callback to the refreshes of its grant.
use keycloak_oidc4ac_lab.Prelude.{
  ℕ, String, ◌≡◌, refl, sym, ap, ◌∙◌, Option, none, some, List, [], ◌∷◌, arith, eq_iff, All,
  Option-cases, Bool-cases, ◌==◌, inl, inr, ok, some_inj,
}
use mathlib.Core.Path.{subst}
use keycloak_oidc4ac_lab.Prelude.Dict
use keycloak_oidc4ac_lab.Prelude.Dict.{Dict, lookup-insert}
use keycloak_oidc4ac_lab.Json.{Value, JsonText, object}
use keycloak_oidc4ac_lab.Client.Caches.{Authorization, Grant, Caches, prune_caches}
use keycloak_oidc4ac_lab.Client.Caches.Prune.{IsValid, lookup-prune_caches, entry_of_alive}
use keycloak_oidc4ac_lab.Client.Grants.{
  refresh, finish_refresh, finish_authorization, verified, wanted_result, get_or_none, grant_of,
}
use keycloak_oidc4ac_lab.Client.Pages.{
  Config, Provider, Inputs, Site, result_page, Token, ResultPage, page_at,
}
use keycloak_oidc4ac_lab.Client.Server.{Event, Route, handle, run}
use keycloak_oidc4ac_lab.Client.Server.Effects.{
  Change, handle-Change, accepted, refreshable_found, store, take,
}
use keycloak_oidc4ac_lab.Client.Server.Invariant.{handle-IsValid, run-IsValid}
use keycloak_oidc4ac_lab.Client.Server.Pending.{Spares, DrawsOther}
use keycloak_oidc4ac_lab.Client.Server.Flow.{IsCallback, entry_of, callback_continues_login}
use keycloak_oidc4ac_lab.Client.Server.Flow.Verified.{rendered}

-- A grant that is stored under `id`, if there is one, has the claims `d`.
abbrev HasClaims : String → Dict Value → Caches → Type 0
HasClaims id d caches = (g : Grant) → Dict.lookup id caches.tokens ≡ some g → g.claims ≡ d

module _ (id : String) (d : Dict Value) where
  pruned-HasClaims :
      (now : ℕ) (caches : Caches)
      → IsValid caches
      → HasClaims id d caches
      → HasClaims id d (prune_caches now caches)
  pruned-HasClaims now caches v h g e = h g (
      entry_of_alive _ now (Dict.lookup id caches.tokens) g
        (sym (lookup-prune_caches now caches id v).1 ∙ e))

  store-HasClaims :
      (j : String) (new : Grant) (caches : Caches)
      → (j ≡ id → new.claims ≡ d)
      → HasClaims id d caches
      → HasClaims id d (store j new caches)
  store-HasClaims j new caches same h g e = elim (Bool-cases (j == id)) [
    | inl k ↦
        let written : new ≡ g = ground (arith, lookup-insert j id new caches.tokens) in
        ap (λ g. g.claims) (sym written) ∙ same ((eq_iff j id).0 k)
    | inr k ↦ h g (ground (arith, lookup-insert j id new caches.tokens))
  ]

  Change-HasClaims :
      {json : JsonText} {e : Event} {before after : Caches}
      → Change json e before after
      → DrawsOther id e
      → IsValid before
      → HasClaims id d before
      → HasClaims id d after
  Change-HasClaims Change.kept o v h = h
  Change-HasClaims {e} {before} Change.pruned o v h = pruned-HasClaims _ before v h
  Change-HasClaims {e} {before} (Change.issued form c route given) o v h =
      pruned-HasClaims e.inputs.pruned_at before v h
  Change-HasClaims (Change.consumed args j route given) o v h = h
  Change-HasClaims {e} {before} (Change.granted args j b token route given pending) o v h =
      store-HasClaims e.inputs.fresh_id _ (take j before) (λ same. absurd (o same)) h
  Change-HasClaims {e} {before} (Change.refreshed form j g token route found) o v h =
      let p = pruned-HasClaims e.inputs.pruned_at before v h in
      store-HasClaims j _ (prune_caches e.inputs.pruned_at before)
        (λ same. p g (
          subst (λ k. Dict.lookup k (prune_caches e.inputs.pruned_at before).tokens ≡ some g) same
            found))
        p

module _ (config : Config) (json : JsonText) where
  run-HasClaims :
      (id : String) (d : Dict Value) (events : List Event) (caches : Caches)
      → All (DrawsOther id) events
      → IsValid caches
      → HasClaims id d caches
      → HasClaims id d (run config json events caches)
  unfolding run
  run-HasClaims id d [] caches o v h = h
  run-HasClaims id d (e ∷ events) caches o v h =
      run-HasClaims id d events (handle config json e caches).site.caches o.1
        (handle-IsValid config json e caches v)
        (Change-HasClaims id d (handle-Change config json e caches) o.0 v h)

  -- What a callback with a verified response stores has the claims of its authorization.
  finish-HasClaims :
      (provider : Provider) (a : Authorization) (inputs : Inputs) (site : Site) (token : Token)
      (id_token userinfo : Dict Value)
      → verified json provider provider.authorize_access_token (some a.nonce)
        ≡ some (token, id_token, userinfo)
      → HasClaims inputs.fresh_id a.claims
          (finish_authorization json provider (some a) inputs site).site.caches
  unfolding finish_authorization
  finish-HasClaims provider a inputs site token id_token userinfo valid =
      rw (valid, finish_authorization)
        λ g e.
          let new = grant_of token a inputs in
          let written : new ≡ g = ground (
            arith,
            lookup-insert inputs.fresh_id inputs.fresh_id new site.tokens,
            eq_iff inputs.fresh_id inputs.fresh_id,
          ) in
          ap (λ g. g.claims) (sym written)

  finish_shows :
      (provider : Provider) (o : Option (String × Grant)) (inputs : Inputs) (site : Site)
      (p : ResultPage)
      → (finish_refresh json provider o inputs site).response ≡ page_at 200 (result_page p)
      → (id : String) × (g : Grant) × (o ≡ some (id, g))
        × (json.pretty (object g.claims) ≡ ok p.claims)
  unfolding finish_refresh
  finish_shows provider none inputs site p h = absurd (cc h)
  finish_shows provider (some (id, g)) inputs site p h =
      elim (Option-cases
        (verified json provider (provider.fetch_access_token g.refresh_token) none)) [
          | inl refused ↦ absurd (cc (rw (refused, finish_refresh) at h))
          | inr ((token, id_token, userinfo), valid) ↦ (
            id,
            g,
            refl,
            (rendered json provider g.claims id_token userinfo (get_or_none "access_token" token)
                "Refresh token response" id p (rw (valid, finish_refresh) at h)).0,
          )
        ]

  -- A result page of a refresh shows the claims of the grant that was asked for.
  refresh_shows :
      (id : String) (d : Dict Value) (form : Dict String) (r : Event) (caches : Caches)
      (p : ResultPage)
      → IsValid caches
      → HasClaims id d caches
      → r.route ≡ Route.refresh form
      → wanted_result form r.session ≡ some id
      → (handle config json r caches).response ≡ page_at 200 (result_page p)
      → json.pretty (object d) ≡ ok p.claims
  unfolding refresh
  refresh_shows id d form r caches p v h route wanted shown =
      let cleared = prune_caches r.inputs.pruned_at caches in
      let seen = finish_shows r.provider _ r.inputs _ p (rw (route, refresh) at shown) in
      let g = seen.1 in
      let found = refreshable_found (wanted_result form r.session) cleared.tokens seen.0 g seen.2 in
      let same : seen.0 ≡ id = some_inj (sym found.1 ∙ wanted) in
      let claimed =
        pruned-HasClaims id d r.inputs.pruned_at caches v h g
          (subst (λ k. Dict.lookup k cleared.tokens ≡ some g) same found.0) in
      subst (λ d. json.pretty (object d) ≡ ok p.claims) claimed seen.3

  -- After an accepted login on caches that hold each key once, requests that spare its
  -- authorization, a callback whose response is verified, and any further requests that draw other
  -- ids, every result page of a refresh of the grant that the callback stored shows the claims of
  -- that login.
  pub refresh_shows_login_claims :
      (form asked : Dict String) (d : Dict Value) (l c r : Event) (events later : List Event)
      (caches : Caches) (token : Token) (id_token userinfo : Dict Value) (p : ResultPage)
      → IsValid caches
      → l.route ≡ Route.login form
      → accepted json form ≡ some d
      → All (Spares l.inputs.fresh_id (entry_of l.inputs d)) events
      → IsCallback l.inputs.fresh_id c
      → verified json c.provider c.provider.authorize_access_token (some l.inputs.nonce)
        ≡ some (token, id_token, userinfo)
      → All (DrawsOther c.inputs.fresh_id) later
      → r.route ≡ Route.refresh asked
      → wanted_result asked r.session ≡ some c.inputs.fresh_id
      → let between = run config json events (handle config json l caches).site.caches in
        let granted = run config json later (handle config json c between).site.caches in
        (handle config json r granted).response ≡ page_at 200 (result_page p)
        → json.pretty (object d) ≡ ok p.claims
  refresh_shows_login_claims form asked d l c r events later caches token id_token userinfo p v
        login given spared back valid others route wanted shown =
      let between = run config json events (handle config json l caches).site.caches in
      let v' = run-IsValid config json events _ (handle-IsValid config json l caches v) in
      let v'' = handle-IsValid config json c between v' in
      let continued =
        callback_continues_login config json form d l c events caches v login given spared back in
      let stored : HasClaims c.inputs.fresh_id d (handle config json c between).site.caches =
        subst (λ o. HasClaims c.inputs.fresh_id d o.site.caches) (sym continued)
          (finish-HasClaims c.provider (entry_of l.inputs d) c.inputs _ token id_token userinfo
            valid) in
      refresh_shows c.inputs.fresh_id d asked r _ p (run-IsValid config json later _ v'')
        (run-HasClaims c.inputs.fresh_id d later _ others v'' stored) route wanted shown
