-- ===== src/Client/Tests/Handlers.antt =====
-- The theorems about the handlers at concrete requests.
use keycloak_oidc4ac_lab.Prelude.{String, ◌≡◌, ◌≢◌, refl, none, some, [], ◌∷◌, ok}
use keycloak_oidc4ac_lab.Prelude.Dict
use keycloak_oidc4ac_lab.Prelude.Dict.{Dict, is_member}
use keycloak_oidc4ac_lab.Json.{Value, str, object}
use keycloak_oidc4ac_lab.Client.Discovery.{discovery_metadata}
use keycloak_oidc4ac_lab.Client.Caches.{Grant, prune_caches}
use keycloak_oidc4ac_lab.Client.Caches.Prune.{alive, lookup-prune_caches}
use keycloak_oidc4ac_lab.Client.Pages.{error_page}
use keycloak_oidc4ac_lab.Client.Grants.{finish_authorization, callback, verified}
use keycloak_oidc4ac_lab.Client.Token.{decoded_access_token}
use keycloak_oidc4ac_lab.Client.Server.{handle, run, init}
use keycloak_oidc4ac_lab.Client.Server.Effects.{Change, take, handle-Change}
use keycloak_oidc4ac_lab.Client.Server.Invariant.{Holds, run-Holds}
use keycloak_oidc4ac_lab.Client.Server.Flow.{
  missing_context, callback_continues_login, replay_refused, unverified_callback,
}
use keycloak_oidc4ac_lab.Client.Server.Flow.Verified.{result_page_verified}
use keycloak_oidc4ac_lab.Client.Server.Renewal.{IsRenewal, refresh_renews, refresh_unverified}
use keycloak_oidc4ac_lab.Client.Tests.Samples.{
  requested, json, config, willing, failing, at_time, login_form, log_in, other_login, come_back,
  pending, one_pending, grant, one_grant, init-IsValid, one_pending-IsValid, one_grant-IsValid,
  come_back-IsCallback, other_login-Spares, login_accepted, other_login_draws, willing-ChecksNonce,
  shown_page, ask_again, ask_again-IsRefresh, AsksUserinfo, log_in-Brings, come_back-Brings,
  init-Holds,
}

callback_continues_login_example :
    let between = run config json (other_login ∷ []) (handle config json log_in init).site.caches in
    handle config json (come_back willing) between
    ≡ finish_authorization json willing
        (some pending)
        (at_time 1200000000 "result-1")
        (record { caches = take "state-1" between; session = none })
callback_continues_login_example =
    callback_continues_login config json login_form requested log_in (come_back willing)
      (other_login ∷ []) init init-IsValid refl login_accepted (other_login-Spares, tt)
      (come_back-IsCallback willing)

replay_refused_example :
    let between =
      run config json
        (other_login ∷ [])
        (handle config json (come_back failing) one_pending).site.caches in
    ((handle config json (come_back willing) between).response ≡ missing_context)
    × ((handle config json (come_back willing) between).site.tokens ≡ between.tokens)
replay_refused_example =
    replay_refused config json "state-1" (come_back failing) (come_back willing) (other_login ∷ [])
      one_pending one_pending-IsValid (come_back-IsCallback failing) (other_login_draws, tt)
      (come_back-IsCallback willing)

unverified_callback_example :
    let o = handle config json (come_back failing) one_pending in
    (o.site ≡ record { caches = take "state-1" one_pending; session = none })
    × (o.response
        ≡ ok (record {
          page =
              error_page "token_validation_failed"
                "The authorization response could not be verified.";
          status = 400;
        }))
unfolding verified Dict.lookup
unverified_callback_example =
    unverified_callback config json "state-1" pending (come_back failing) one_pending
      (come_back-IsCallback failing) refl refl

result_page_verified_example :
    (json.pretty (object requested) ≡ ok shown_page.claims)
    × ((id_token : Dict Value) × (json.pretty (object id_token) ≡ ok shown_page.id_token)
        × (Dict.lookup "nonce" id_token ≡ some (str "n-1")))
unfolding callback Dict.lookup discovery_metadata decoded_access_token
result_page_verified_example =
    result_page_verified config json "state-1" pending (come_back willing) one_pending shown_page
      willing-ChecksNonce (come_back-IsCallback willing) refl refl

refresh_renews_example :
    let o = handle config json (ask_again willing) one_grant in
    ((renewed : Grant) × (Dict.lookup "result-1" o.site.tokens ≡ some renewed)
      × IsRenewal (("refresh_token", str "r-2") ∷ []) grant 1200000000 renewed)
    × ((j : String)
        → "result-1" ≢ j
        → Dict.lookup j o.site.tokens
          ≡ alive (λ g. g.created_at) 1200000000 (Dict.lookup j one_grant.tokens))
    × (o.site.authorizations ≡ (prune_caches 1200000000 one_grant).authorizations)
    × (o.site.session ≡ none)
unfolding verified Dict.lookup
refresh_renews_example =
    refresh_renews config json "result-1" grant (ask_again willing) one_grant one_grant-IsValid
      (ask_again-IsRefresh willing) (("refresh_token", str "r-2") ∷ []) [] [] refl

refresh_unverified_example :
    let o = handle config json (ask_again failing) one_grant in
    (o.site ≡ record { caches = prune_caches 1200000000 one_grant; session = none })
    × (o.response
        ≡ ok (record {
          page = error_page "refresh_failed" "The refreshed token response could not be verified.";
          status = 400;
        }))
unfolding verified
refresh_unverified_example =
    refresh_unverified config json "result-1" grant (ask_again failing) one_grant one_grant-IsValid
      (ask_again-IsRefresh failing) refl

run-Holds_example : Holds AsksUserinfo (run config json (log_in ∷ come_back willing ∷ []) init)
run-Holds_example =
    run-Holds config json AsksUserinfo (log_in ∷ come_back willing ∷ []) init
      (log_in-Brings, (come_back-Brings, tt)) init-IsValid init-Holds

handle-Change_example : Change json log_in init (handle config json log_in init).site.caches
handle-Change_example = handle-Change config json log_in init

lookup-prune_caches_example :
    (Dict.lookup "state-1" (prune_caches 2000000000 one_pending).authorizations
      ≡ alive (λ a. a.created_at) 2000000000 (Dict.lookup "state-1" one_pending.authorizations))
    × (Dict.lookup "state-1" (prune_caches 2000000000 one_pending).tokens
        ≡ alive (λ g. g.created_at) 2000000000 (Dict.lookup "state-1" one_pending.tokens))
lookup-prune_caches_example =
    lookup-prune_caches 2000000000 one_pending "state-1" one_pending-IsValid
