-- ===== src/Client/Login/Meaning.antt =====
-- `login` and `preview` of test-client/app.py do not change what a submitted text means.
use keycloak_oidc4ac_lab.Prelude.{
  String, [], ◌∷◌, ◌≡◌, refl, ap, sym, ◌∙◌, false, some, inl, inr, codes, arith, eq_iff, Bool-cases,
  Result-cases,
}
use mathlib.Core.Path.{subst}
use keycloak_oidc4ac_lab.Prelude.Dict
use keycloak_oidc4ac_lab.Prelude.Dict.{Dict, lookup-insert}
use keycloak_oidc4ac_lab.Json.{
  Value, obj, value, JsonText, object, Fields, IsFaithful, of_entries-entries,
}
use keycloak_oidc4ac_lab.Client.Claims.{claims, parse_claims}
use keycloak_oidc4ac_lab.Client.Claims.Accepted.{IsRequestObject, parse_claims_accepts}
use keycloak_oidc4ac_lab.Client.Caches.{prune_caches}
use keycloak_oidc4ac_lab.Client.Pages.{
  Config, Provider, Inputs, Site, Redirect, preview_page, page_at,
}
use keycloak_oidc4ac_lab.Client.Login.{
  callback_url, login, preview, start_authorization, is_on, authorization_of, with_claims,
  with_scope, with_prompt, answered_redirect,
}

-- A text is JSON of the object with these fields.
abbrev pub Reads : JsonText → String → Fields → Type 0
Reads json text fields = json.loads (codes text) ≡ value (obj fields)

module _ (config : Config) (json : JsonText) where
  claims-with_prompt :
      (form parameters : Dict String)
      → Dict.lookup "claims" (with_prompt config json form parameters)
        ≡ Dict.lookup "claims" parameters
  claims-with_prompt form parameters = elim (Bool-cases (is_on "prompt_login" form)) [
    | inl e ↦ rw e (lookup-insert "prompt" "claims" "login" parameters)
    | inr e ↦ rw e refl
  ]

  login_accepted :
      (provider : Provider) (form : Dict String) (d : Dict Value) (inputs : Inputs) (site : Site)
      → is_on "omit_claims" form ≡ false
      → parse_claims json (Dict.lookup "claims_json" form) ≡ claims d
      → login config json provider form inputs site
        ≡ start_authorization config json provider form false d inputs site
  unfolding login
  login_accepted provider form d inputs site offered parsed = rw (offered, parsed, login) refl

  module _ (faithful : IsFaithful json) (provider : Provider) (form : Dict String) (raw : String)
      (d : Dict Value) (given : Dict.lookup "claims_json" form ≡ some raw)
      (r : IsRequestObject json raw d) (inputs : Inputs) (site : Site) where
    parsed : parse_claims json (Dict.lookup "claims_json" form) ≡ claims d
    parsed = ap (parse_claims json) given ∙ (parse_claims_accepts json raw d).1 r

    same_object : object d ≡ obj r.fields
    same_object = ap object (sym r.is_entries) ∙ ap obj (of_entries-entries r.fields)

    read_again : json.loads (codes raw) ≡ value (object d)
    read_again = r.decoded ∙ ap value (sym same_object)

    -- The redirect that `login` answers with.
    abbrev redirect : Redirect
    redirect = record {
      callback_url = callback_url config json;
      state = inputs.fresh_id;
      parameters = with_prompt config json form (
          with_claims config json false d
            (with_scope config json form (("nonce", inputs.nonce) ∷ [])));
    }

    redirected :
        is_on "omit_claims" form ≡ false
        → let o = login config json provider form inputs site in
          (o.response ≡ answered_redirect config json provider redirect)
          × (Dict.lookup redirect.state o.site.authorizations
              ≡ some (authorization_of config json d inputs))
    redirected offered = rw (login_accepted provider form d inputs site offered parsed) (
        unfold start_authorization in
        (
          refl,
          ground (
            arith,
            lookup-insert inputs.fresh_id inputs.fresh_id (authorization_of config json d inputs)
                (prune_caches inputs.pruned_at site.caches).authorizations,
            eq_iff inputs.fresh_id inputs.fresh_id,
          ),
        ))

    sent_claims : Dict.lookup "claims" redirect.parameters ≡ some (json.dumps (object d))
    sent_claims =
        claims-with_prompt form _
        ∙ lookup-insert "claims" "claims" (json.dumps (object d))
            (with_scope config json form (("nonce", inputs.nonce) ∷ []))

    sent-Reads : Reads json (json.dumps (object d)) r.fields
    sent-Reads = faithful.dumps_read (codes raw) (object d) read_again ∙ ap value same_object

    shown-Reads :
        (shown : String)
        → (preview config json form inputs site).response ≡ page_at 200 (preview_page shown)
        → Reads json shown r.fields
    unfolding preview
    shown-Reads shown h = elim (Result-cases (json.pretty (object d))) [
      | inl (printed, e) ↦
          let same : printed ≡ shown = cc (rw (parsed, e, preview) at h) in
          subst (λ text. Reads json text r.fields) same
            (faithful.pretty_read (codes raw) (object d) printed read_again e
              ∙ ap value same_object)
      | inr (x, e) ↦ absurd (cc (rw (parsed, e, preview) at h))
    ]

    -- If what `json` writes of a value that it read is read as that value again, a submitted text
    -- of the object `d` is not changed in its meaning. A login that does not omit the claims stores
    -- `d` with the nonce of this login under the state of the redirect that it answers with or, if authlib
    -- raises, was to answer with, and the `claims` parameter of that redirect is a JSON text of the same object; a page of the preview shows one too.
    pub meaning_kept :
        (is_on "omit_claims" form ≡ false
          → let o = login config json provider form inputs site in
            (redirect : Redirect) × (sent : String) × (o.response
              ≡ answered_redirect config json provider redirect)
            × (Dict.lookup "claims" redirect.parameters ≡ some sent)
            × Reads json sent r.fields
            × (Dict.lookup redirect.state o.site.authorizations
                ≡ some (authorization_of config json d inputs)))
        × ((shown : String)
            → (preview config json form inputs site).response ≡ page_at 200 (preview_page shown)
            → Reads json shown r.fields)
    meaning_kept = (
      λ offered.
          let o = redirected offered in
          (redirect, json.dumps (object d), o.0, sent_claims, sent-Reads, o.1),
      shown-Reads,
    )
