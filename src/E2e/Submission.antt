-- ===== src/E2e/Submission.antt =====
-- What the runner of e2e/http/run.py submits to /login, and what test-client/app.py makes of it.
use keycloak_oidc4ac_lab.Prelude.{
  ℕ, String, Bool, true, false, Option, none, some, [], ◌∷◌, ◌≡◌, refl, ap, sym, ◌∙◌, arith, eq_iff,
  if◌then◌else◌,
}
use mathlib.Core.Path.{subst}
use keycloak_oidc4ac_lab.Prelude.Dict
use keycloak_oidc4ac_lab.Prelude.Dict.{Dict, lookup-insert}
use keycloak_oidc4ac_lab.Json.{Value, JsonText, object}
use keycloak_oidc4ac_lab.Client.Claims.{parse_claims}
use keycloak_oidc4ac_lab.Client.Claims.Accepted.{IsRequestObject, parse_claims_accepts}
use keycloak_oidc4ac_lab.Client.Caches.{prune_caches}
use keycloak_oidc4ac_lab.Client.Pages.{Config, Provider, Inputs, Site, Redirect, Outcome}
use keycloak_oidc4ac_lab.Client.Login.{
  login, start_authorization, is_on, authorization_of, answered_redirect,
}
use keycloak_oidc4ac_lab.E2e.Lab.{Constants, Network}
use keycloak_oidc4ac_lab.E2e.Authorize.{Options, login_data}

-- The form that arrives: `requests` leaves the values that are None out.
abbrev pub arriving : Dict (Option String) → Dict String
arriving [] = []
arriving ((name, none) ∷ form) = arriving form
arriving ((name, some v) ∷ form) = (name, v) ∷ arriving form

-- The claims, the prompt and the scope of the authorization request that the options ask for.
abbrev pub asked_prompt : Options → Option String
asked_prompt options = if options.prompt_login then some "login" else none

abbrev pub asked_scope : Options → Option String
asked_scope options =
    if options.offline_access then some "openid profile email offline_access" else none

abbrev pub asked_claims : Options → Dict Value → Dict Value
asked_claims options d = if options.omit_claims then [] else d

-- What the client answers and stores.
pub record IsAsked (config : Config) (json : JsonText) (provider : Provider) (d : Dict Value)
    (options : Options) (inputs : Inputs) (o : Outcome) : Type 0 where
  pub redirect : Redirect
  pub answer : o.response ≡ answered_redirect config json provider redirect
  pub nonce : Dict.lookup "nonce" redirect.parameters ≡ some inputs.nonce
  pub prompt : Dict.lookup "prompt" redirect.parameters ≡ asked_prompt options
  pub scope : Dict.lookup "scope" redirect.parameters ≡ asked_scope options
  pub parameter :
      Dict.lookup "claims" redirect.parameters
      ≡ (if options.omit_claims then none else some (json.dumps (object d)))
  pub pending :
      Dict.lookup redirect.state o.site.authorizations
      ≡ some (authorization_of config json (asked_claims options d) inputs)

-- A property of three switches, from its eight instances.
switches :
    (P : Bool → Bool → Bool → Type 0)
    → P true true true
    → P true true false
    → P true false true
    → P true false false
    → P false true true
    → P false true false
    → P false false true
    → P false false false
    → (p m o : Bool) → P p m o
switches P a b c d e f g h true true true = a
switches P a b c d e f g h true true false = b
switches P a b c d e f g h true false true = c
switches P a b c d e f g h true false false = d
switches P a b c d e f g h false true true = e
switches P a b c d e f g h false true false = f
switches P a b c d e f g h false false true = g
switches P a b c d e f g h false false false = h

-- The parameters that `login` sends with these switches.
abbrev sent : JsonText → Inputs → Dict Value → Bool → Bool → Bool → Dict String
sent json inputs d p m o =
    let opened : Dict String = ("nonce", inputs.nonce) ∷ [] in
    let scoped =
      if o then Dict.insert "scope" "openid profile email offline_access" opened else opened in
    let claimed = if m then scoped else Dict.insert "claims" (json.dumps (object d)) scoped in
    if p then Dict.insert "prompt" "login" claimed else claimed

nonce-sent :
    (json : JsonText) (inputs : Inputs) (d : Dict Value) (p m o : Bool)
    → Dict.lookup "nonce" (sent json inputs d p m o) ≡ some inputs.nonce
unfolding Dict.lookup Dict.insert
nonce-sent json inputs d =
    switches (λ p m o. Dict.lookup "nonce" (sent json inputs d p m o) ≡ some inputs.nonce) refl refl
      refl refl refl refl refl refl

prompt-sent :
    (json : JsonText) (inputs : Inputs) (d : Dict Value) (p m o : Bool)
    → Dict.lookup "prompt" (sent json inputs d p m o) ≡ (if p then some "login" else none)
unfolding Dict.lookup Dict.insert
prompt-sent json inputs d =
    switches
      (λ p m o.
        Dict.lookup "prompt" (sent json inputs d p m o) ≡ (if p then some "login" else none))
      refl refl refl refl refl refl refl refl

scope-sent :
    (json : JsonText) (inputs : Inputs) (d : Dict Value) (p m o : Bool)
    → Dict.lookup "scope" (sent json inputs d p m o)
      ≡ (if o then some "openid profile email offline_access" else none)
unfolding Dict.lookup Dict.insert
scope-sent json inputs d =
    switches
      (λ p m o.
        Dict.lookup "scope" (sent json inputs d p m o)
        ≡ (if o then some "openid profile email offline_access" else none))
      refl refl refl refl refl refl refl refl

claims-sent :
    (json : JsonText) (inputs : Inputs) (d : Dict Value) (p m o : Bool)
    → Dict.lookup "claims" (sent json inputs d p m o)
      ≡ (if m then none else some (json.dumps (object d)))
unfolding Dict.lookup Dict.insert
claims-sent json inputs d =
    switches
      (λ p m o.
        Dict.lookup "claims" (sent json inputs d p m o)
        ≡ (if m then none else some (json.dumps (object d))))
      refl refl refl refl refl refl refl refl

sent_if :
    (json : JsonText) (d : Dict Value) (m : Bool)
    → (if m then none else some (json.dumps (object (if m then [] else d))))
      ≡ (if m then none else some (json.dumps (object d)))
sent_if json d true = refl
sent_if json d false = refl

module _ (config : Config) (json : JsonText) (provider : Provider) (inputs : Inputs)
    (site : Site) where
  -- The authorization request of a form with the switches of the options.
  started :
      (options : Options) (d : Dict Value) (form : Dict String)
      → is_on "prompt_login" form ≡ options.prompt_login
      → is_on "offline_access" form ≡ options.offline_access
      → IsAsked config json provider d options inputs (
          start_authorization config json provider form options.omit_claims
            (asked_claims options d)
            inputs
            site)
  unfolding start_authorization
  started options d form prompted offline =
      let asked = asked_claims options d in
      let p = options.prompt_login in
      let m = options.omit_claims in
      let o = options.offline_access in
      rw (prompted, offline, start_authorization)
        (record {
          redirect = _;
          answer = refl;
          nonce = nonce-sent json inputs asked p m o;
          prompt = prompt-sent json inputs asked p m o;
          scope = scope-sent json inputs asked p m o;
          parameter = claims-sent json inputs asked p m o ∙ sent_if json d m;
          pending = ground (
            arith,
            lookup-insert inputs.fresh_id inputs.fresh_id
                (authorization_of config json (asked_claims options d) inputs)
                (prune_caches inputs.pruned_at site.caches).authorizations,
            eq_iff inputs.fresh_id inputs.fresh_id,
          );
        })

-- The four facts about the form that arrives.
module _ {W : Type 0} (net : Network W) (constants : Constants) (d : Dict Value)
    (session : Option ℕ) (email : Bool) where
  abbrev options_of : Bool → Bool → Bool → Options
  options_of p m o = record {
    session = session;
    prompt_login = p;
    omit_claims = m;
    offline_access = o;
    use_email_code = email;
  }

  abbrev form_of : Bool → Bool → Bool → Dict String
  form_of p m o = arriving (login_data net constants d (options_of p m o))

  prompted : (p m o : Bool) → is_on "prompt_login" (form_of p m o) ≡ p
  unfolding login_data Dict.lookup Dict.insert
  prompted =
      switches (λ p m o. is_on "prompt_login" (form_of p m o) ≡ p) refl refl refl refl refl refl
        refl refl

  offline : (p m o : Bool) → is_on "offline_access" (form_of p m o) ≡ o
  unfolding login_data Dict.lookup Dict.insert
  offline =
      switches (λ p m o. is_on "offline_access" (form_of p m o) ≡ o) refl refl refl refl refl refl
        refl refl

  omitted : (p m o : Bool) → is_on "omit_claims" (form_of p m o) ≡ m
  unfolding login_data Dict.lookup Dict.insert
  omitted =
      switches (λ p m o. is_on "omit_claims" (form_of p m o) ≡ m) refl refl refl refl refl refl refl
        refl

  offered :
      (p o : Bool)
      → Dict.lookup "claims_json" (form_of p false o) ≡ some (net.dumps_default (object d))
  unfolding login_data Dict.lookup Dict.insert
  offered true true = refl
  offered true false = refl
  offered false true = refl
  offered false false = refl

module _ {W : Type 0} (net : Network W) (constants : Constants) (config : Config) (json : JsonText)
    (provider : Provider) (d : Dict Value)
    (readable : IsRequestObject json (net.dumps_default (object d)) d) (inputs : Inputs)
    (site : Site) where
  accepted :
      (session : Option ℕ) (email p m o : Bool)
      → let options = options_of net constants d session email p m o in
        let form = arriving (login_data net constants d options) in
        login config json provider form inputs site
        ≡ start_authorization config json provider form m (asked_claims options d) inputs site
  unfolding login
  accepted session email p true o = rw (omitted net constants d session email p true o, login) refl
  accepted session email p false o =
      let parsed =
        ap (parse_claims json) (offered net constants d session email p o)
        ∙ (parse_claims_accepts json (net.dumps_default (object d)) d).1 readable in
      rw (omitted net constants d session email p false o, parsed, login) refl

  -- If the test client reads the text of the runner's claims as these claims, it answers the form
  -- that `authorize` submits with what authlib makes of a redirect whose parameters are the nonce, the prompt, the scope
  -- and the claims that the options ask for, and no others of these, and keeps the claims, or none if
  -- they are omitted, with the nonce under the state of the redirect.
  pub login-login_data :
      (options : Options)
      → IsAsked config json provider d options inputs
          (login config json provider (arriving (login_data net constants d options)) inputs site)
  login-login_data options =
      let session = options.session in
      let email = options.use_email_code in
      let p = options.prompt_login in
      let m = options.omit_claims in
      let o = options.offline_access in
      subst (IsAsked config json provider d options inputs) (sym (accepted session email p m o)) (
        started config json provider inputs site options d
          (arriving (login_data net constants d options))
          (prompted net constants d session email p m o)
          (offline net constants d session email p m o))
