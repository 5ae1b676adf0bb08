-- ===== src/Client/Tests/Answers.antt =====
-- The theorems about what a user is answered, at concrete requests.
use keycloak_oidc4ac_lab.Prelude.{
  String, ◌≡◌, refl, none, some, [], ◌∷◌, ok, err, arith, nat_eq, length, if◌then◌else◌, ap, ◌==◌,
  recursion_error, false, true, codes, ok_inj, is_blank, utf8_length,
}
use mathlib.Core.Path.{subst}
use keycloak_oidc4ac_lab.Prelude.Dict
use keycloak_oidc4ac_lab.Prelude.Dict.{Dict}
use keycloak_oidc4ac_lab.Json.{
  null, str, obj, field, end, value, JsonText, object, IsFaithful, raised,
}
use keycloak_oidc4ac_lab.Client.Claims.{parse_claims}
use keycloak_oidc4ac_lab.Client.Claims.Accepted.{IsRequestObject}
use keycloak_oidc4ac_lab.Client.Discovery.{discovery_metadata}
use keycloak_oidc4ac_lab.Client.Token.{decoded_access_token}
use keycloak_oidc4ac_lab.Client.Caches.{prune_caches, expired}
use keycloak_oidc4ac_lab.Client.Grants.{callback, refresh, verified}
use keycloak_oidc4ac_lab.Client.Login.{login, preview, is_on, authorization_of, answered_redirect}
use keycloak_oidc4ac_lab.Client.Login.Meaning.{Reads, meaning_kept}
use keycloak_oidc4ac_lab.Client.Login.Escapes.{raised_text_escapes}
use keycloak_oidc4ac_lab.Client.Pages.{Redirect, ResultPage, page_at, preview_page, Site}
use keycloak_oidc4ac_lab.Client.Server.{handle, run, init}
use keycloak_oidc4ac_lab.Client.Server.Answers.{Answered}
use keycloak_oidc4ac_lab.Client.Server.Answers.Routes.{handle-Answered}
use keycloak_oidc4ac_lab.Client.Server.Flow.Continued.{refresh_shows_login_claims}
use keycloak_oidc4ac_lab.Client.Server.Pending.{DrawsOther}
use keycloak_oidc4ac_lab.Client.Tests.Samples.{
  failing, requested, json, config, willing, at_time, login_form, log_in, other_login, come_back,
  ask_again, init-IsValid, come_back-IsCallback, other_login-Spares, login_accepted, tokens,
}

handle-Answered_example : Answered json log_in (handle config json log_in init).response
handle-Answered_example = handle-Answered config json log_in init

-- The sample's reader and writer know one text only.
json-IsFaithful : IsFaithful json
json-IsFaithful = record {
  dumps_read = λ text v h. ground arith;
  pretty_read =
      λ text v printed h e. subst (λ s. json.loads (codes s) ≡ value v) (ok_inj e) (ground arith);
}

sample_text : IsRequestObject json "{}" requested
unfolding is_blank utf8_length
sample_text = record {
  not_blank = refl;
  fits = omega arith;
  fields = field "userinfo" null end;
  decoded = refl;
  is_entries = refl;
}

abbrev fresh_site : Site
fresh_site = record { caches = init; session = none }

meaning_kept_example :
    (is_on "omit_claims" login_form ≡ false
      → let o = login config json willing login_form (at_time 1000000000 "state-1") fresh_site in
        (redirect : Redirect) × (sent : String) × (o.response
          ≡ answered_redirect config json willing redirect)
        × (Dict.lookup "claims" redirect.parameters ≡ some sent)
        × Reads json sent (field "userinfo" null end)
        × (Dict.lookup redirect.state o.site.authorizations
            ≡ some (authorization_of config json requested (at_time 1000000000 "state-1"))))
    × ((shown : String)
        → (preview config json login_form (at_time 1000000000 "state-1") fresh_site).response
          ≡ page_at 200 (preview_page shown)
        → Reads json shown (field "userinfo" null end))
unfolding Dict.lookup sample_text
meaning_kept_example =
    meaning_kept config json json-IsFaithful willing login_form "{}" requested refl sample_text
      (at_time 1000000000 "state-1") fresh_site

-- A reader that gives up at the second level.
abbrev shallow : JsonText
shallow = record {
  loads = λ text. if nat_eq (length text) 2 then value (obj end) else raised recursion_error;
  dumps = λ v. "{}";
  pretty = λ v. ok "{}";
}

abbrev nested_form : Dict String
nested_form = ("claims_json", "[[]]") ∷ []

raised_text_escapes_example :
    (preview config shallow nested_form (at_time 1000000000 "state-1") fresh_site
      ≡ record { site = fresh_site; response = err recursion_error })
    × (is_on "omit_claims" nested_form ≡ false
        → login config shallow failing nested_form (at_time 1000000000 "state-1") fresh_site
          ≡ record { site = fresh_site; response = err recursion_error })
unfolding Dict.lookup is_blank utf8_length
raised_text_escapes_example =
    raised_text_escapes config shallow "[[]]" recursion_error refl (omega arith) refl failing
      nested_form (at_time 1000000000 "state-1") fresh_site refl

abbrev refreshed_page : ResultPage
refreshed_page = record {
  claims = "{}";
  discovery = "{}";
  id_token = "{}";
  access_token = "{}";
  userinfo = "{}";
  allow_refresh = true;
  source = "Refresh token response";
  result_id = "result-1";
}

other_login-DrawsOther : DrawsOther "result-1" other_login
other_login-DrawsOther = λ same. absurd (cc (ap (λ s. s == "result-1") same))

refresh_shows_login_claims_example : json.pretty (object requested) ≡ ok refreshed_page.claims
unfolding verified Dict.lookup Dict.insert refresh callback login run discovery_metadata
    decoded_access_token prune_caches expired parse_claims is_blank utf8_length
refresh_shows_login_claims_example =
    refresh_shows_login_claims config json login_form (("result_id", "result-1") ∷ []) requested
      log_in (come_back willing) (ask_again willing) (other_login ∷ []) (other_login ∷ []) init
      tokens (("nonce", str "n-1") ∷ []) [] refreshed_page init-IsValid refl login_accepted
      (other_login-Spares, tt) (come_back-IsCallback willing) refl (other_login-DrawsOther, tt) refl
      refl refl
