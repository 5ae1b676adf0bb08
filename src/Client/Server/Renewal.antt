-- ===== src/Client/Server/Renewal.antt =====
-- The refresh of a stored grant.
use keycloak_oidc4ac_lab.Prelude.{
  ℕ, ◌+◌, ◌≤◌, String, ◌≡◌, ◌≢◌, refl, true, false, none, some, arith, eq_iff, ◌==◌, ap, ok, ◌∙◌,
}
use keycloak_oidc4ac_lab.Prelude.Dict
use keycloak_oidc4ac_lab.Prelude.Dict.{Dict, lookup-insert}
use keycloak_oidc4ac_lab.Json.{Value, JsonText}
use keycloak_oidc4ac_lab.Client.Caches.{Grant, Caches, prune_caches, cache_ttl}
use keycloak_oidc4ac_lab.Client.Caches.Prune.{IsValid, alive, lookup-prune_caches}
use keycloak_oidc4ac_lab.Client.Grants.{
  refresh, refreshable, finish_refresh, verified, wanted_result, rotated, is_true,
}
use keycloak_oidc4ac_lab.Client.Pages.{Config, Token, error_page}
use keycloak_oidc4ac_lab.Client.Server.{Event, Route, handle}

-- A refresh of the grant `g`, which is stored under `id`, still alive and has a refresh token.
pub record IsRefresh (id : String) (g : Grant) (e : Event) (caches : Caches) : Type 0 where
  pub form : Dict String
  pub route : e.route ≡ Route.refresh form
  pub wanted : wanted_result form e.session ≡ some id
  pub stored : Dict.lookup id caches.tokens ≡ some g
  pub in_time : e.inputs.pruned_at ≤ g.created_at + cache_ttl
  pub has_token : is_true g.refresh_token ≡ true

-- What becomes of the grant `g`: the refresh token of the response, or the old one if the response
-- has none, with the claims of the grant and the time of the renewal.
pub record IsRenewal (token : Token) (g : Grant) (now : ℕ) (renewed : Grant) : Type 0 where
  pub given : (v : Value) → Dict.lookup "refresh_token" token ≡ some v → renewed.refresh_token ≡ v
  pub not_given : Dict.lookup "refresh_token" token ≡ none → renewed.refresh_token ≡ g.refresh_token
  pub same_claims : renewed.claims ≡ g.claims
  pub stored_at : renewed.created_at ≡ now

module _ (config : Config) (json : JsonText) (id : String) (g : Grant) (e : Event) (caches : Caches)
    (v : IsValid caches) (r : IsRefresh id g e caches) where
  found_refreshable :
      refreshable (some id) (prune_caches e.inputs.pruned_at caches).tokens ≡ some (id, g)
  unfolding refreshable
  found_refreshable =
      rw
        (
          ((lookup-prune_caches e.inputs.pruned_at caches id v).1
              ∙ ap (alive (λ (g : Grant). g.created_at) e.inputs.pruned_at) r.stored
              ∙ kept),
          refreshable,
        )
        (rw r.has_token refl)
    where
      kept : alive (λ (g : Grant). g.created_at) e.inputs.pruned_at (some g) ≡ some g
      kept = let t = r.in_time in ground arith

  handle-refresh :
      handle config json e caches
      ≡ finish_refresh json e.provider
          (some (id, g))
          e.inputs
          (record { caches = prune_caches e.inputs.pruned_at caches; session = e.session })
  unfolding refresh
  handle-refresh = rw r.route (rw (r.wanted, refresh) (rw found_refreshable refl))

  -- A refresh whose response is verified keeps the claims of its grant, stores the new refresh
  -- token, or the old one if the response has none, under the same id, and does to the other
  -- grants and to the pending authorizations no more than what pruning does.
  pub refresh_renews :
      (token : Token) (id_token userinfo : Dict Value)
      → verified json e.provider (e.provider.fetch_access_token g.refresh_token) none
        ≡ some (token, id_token, userinfo)
      → let o = handle config json e caches in
        ((renewed : Grant) × (Dict.lookup id o.site.tokens ≡ some renewed)
          × IsRenewal token g e.inputs.stored_at renewed)
        × ((j : String)
            → id ≢ j
            → Dict.lookup j o.site.tokens
              ≡ alive (λ g. g.created_at) e.inputs.pruned_at (Dict.lookup j caches.tokens))
        × (o.site.authorizations ≡ (prune_caches e.inputs.pruned_at caches).authorizations)
        × (o.site.session ≡ e.session)
  refresh_renews token id_token userinfo valid = rw handle-refresh (
      unfold finish_refresh in
      rw (valid, finish_refresh)
        (
          (renewed, stored_renewed, is_renewal),
          λ j ne.
              lookup-insert id j renewed (prune_caches e.inputs.pruned_at caches).tokens
              ∙ rw (other j ne) (lookup-prune_caches e.inputs.pruned_at caches j v).1,
          refl,
          refl,
        ))
    where
      renewed : Grant
      renewed = record {
        refresh_token = rotated token g;
        claims = g.claims;
        created_at = e.inputs.stored_at;
      }

      stored_renewed :
          Dict.lookup id (Dict.insert id renewed (prune_caches e.inputs.pruned_at caches).tokens)
          ≡ some renewed
      stored_renewed = ground (
        arith,
        lookup-insert id id renewed (prune_caches e.inputs.pruned_at caches).tokens,
        eq_iff id id,
      )

      is_renewal : IsRenewal token g e.inputs.stored_at renewed
      is_renewal = record {
        given = λ v h. rw (h, rotated) refl;
        not_given = λ h. rw (h, rotated) refl;
        same_claims = refl;
        stored_at = refl;
      }

      other : (j : String) → id ≢ j → (id == j) ≡ false
      other j ne = ground (arith, eq_iff id j)

  -- A refresh whose response cannot be verified changes nothing but what pruning does, and answers
  -- with the error page of refresh_failed and HTTP 400.
  pub refresh_unverified :
      verified json e.provider (e.provider.fetch_access_token g.refresh_token) none ≡ none
      → let o = handle config json e caches in
        (o.site ≡ record { caches = prune_caches e.inputs.pruned_at caches; session = e.session })
        × (o.response
            ≡ ok (record {
              page =
                  error_page "refresh_failed" "The refreshed token response could not be verified.";
              status = 400;
            }))
  refresh_unverified refused =
      rw handle-refresh (unfold finish_refresh in rw (refused, finish_refresh) (refl, refl))
