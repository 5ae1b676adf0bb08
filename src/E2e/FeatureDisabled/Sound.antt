-- ===== src/E2e/FeatureDisabled/Sound.antt =====
-- What a run of tests/feature-disabled.py has seen when it passes.
use keycloak_oidc4ac_lab.Prelude.{
  ℕ, String, ◌≡◌, refl, Bool, true, false, not, ok, ◌<>◌, nat_eq, ◌||◌, contains, ap, ◌∙◌,
  Bool-cases, Result-cases, inl, inr,
}
use keycloak_oidc4ac_lab.Prelude.Dict.{Dict}
use keycloak_oidc4ac_lab.Prelude.Action.{Action, lift, pure, ◌>>=◌, ◌>>◌}
use keycloak_oidc4ac_lab.Json.{Value}
use keycloak_oidc4ac_lab.E2e.Lab.{Reply, Network}
use keycloak_oidc4ac_lab.E2e.Scenarios.Sections.{has_key}
use keycloak_oidc4ac_lab.Evaluation.Compatibility.Main.{RealmApi}
use keycloak_oidc4ac_lab.Evaluation.Compatibility.Matrix.{advertises}
use keycloak_oidc4ac_lab.Evaluation.Compatibility.Passed.{action->>=-eq-ok}
use keycloak_oidc4ac_lab.E2e.FeatureDisabled.{
  check, parameters, unadvertised, bind_builtin_flow, ordinary_authorization, main,
}

checked :
    {W : Type 0} (b : Bool) (message : String) (w : W) (u : Unit)
    → (check b message w).0 ≡ ok u
    → (b ≡ true) × ((check b message w).1 ≡ w)
checked true message w u h = (refl, refl)
checked false message w u h = absurd (cc h)

flipped : (b : Bool) → not b ≡ true → b ≡ false
flipped true h = cc
flipped false h = refl

module _ {W : Type 0} (net : Network W) (api : RealmApi W)
    (authorization : String → Dict String → Action W Reply) (issuer : String) where
  -- A discovery document without the extension.
  pub record IsPlain (w : W) : Type 0 where
    pub discovery : Reply
    pub metadata : Value
    pub served : (net.fetch (issuer <> "/.well-known/openid-configuration") w).0 ≡ ok discovery
    pub found : nat_eq discovery.status 200 ≡ true
    pub read : net.body discovery ≡ ok metadata
    pub no_details : advertises "amr_details" metadata ≡ ok false
    pub no_methods : has_key "amr_identifiers_supported" metadata ≡ ok false

  -- An answer to the authorization request that is a page or a redirect, without the error of the
  -- extension.
  pub record IsOrdinary (w : W) : Type 0 where
    pub response : Reply
    pub answered :
        (authorization (issuer <> "/protocol/openid-connect/auth") parameters w).0 ≡ ok response
    pub accepted : (nat_eq response.status 200 || nat_eq response.status 302) ≡ true
    pub no_error : contains "unmet_authentication_requirements" response.text ≡ false

  abbrev capability_check : Bool → Action W Unit
  capability_check capable =
      check (not capable) "Disabled OIDC4AC unexpectedly advertised method capabilities."

  abbrev details_check : Value → Bool → Action W Unit
  details_check metadata advertised =
      check (not advertised) "Disabled OIDC4AC unexpectedly advertised amr_details support."
      >> (lift (has_key "amr_identifiers_supported" metadata) >>= capability_check)

  abbrev metadata_check : Value → Action W Unit
  metadata_check metadata = lift (advertises "amr_details" metadata) >>= details_check metadata

  abbrev discovery_check : Reply → Action W Unit
  discovery_check discovery =
      check (nat_eq discovery.status 200) "Disabled-feature discovery returned an error."
      >> (lift (net.body discovery) >>= metadata_check)

  -- What the checks of the discovery document leave.
  abbrev Passed : Reply → Type 0
  Passed discovery =
      (nat_eq discovery.status 200 ≡ true)
      × ((metadata : Value) × (net.body discovery ≡ ok metadata)
          × (advertises "amr_details" metadata ≡ ok false)
          × (has_key "amr_identifiers_supported" metadata ≡ ok false))

  capability_passed :
      (metadata : Value) (w : W) (u : Unit)
      → ((lift (has_key "amr_identifiers_supported" metadata) >>= capability_check) w).0 ≡ ok u
      → has_key "amr_identifiers_supported" metadata ≡ ok false
  capability_passed metadata w u h =
      elim (Result-cases (has_key "amr_identifiers_supported" metadata)) [
        | inr (e, x) ↦ absurd (cc (rw (x, ◌>>=◌) at h))
        | inl (capable, x) ↦
            x ∙ ap ok (flipped capable (checked (not capable) _ w u (rw (x, ◌>>=◌) at h)).0)
      ]

  details_passed :
      (metadata : Value) (w : W) (u : Unit)
      → (metadata_check metadata w).0 ≡ ok u
      → (advertises "amr_details" metadata ≡ ok false)
        × (has_key "amr_identifiers_supported" metadata ≡ ok false)
  details_passed metadata w u h = elim (Result-cases (advertises "amr_details" metadata)) [
    | inr (e, x) ↦ absurd (cc (rw (x, ◌>>=◌) at h))
    | inl (true, x) ↦ absurd (cc (rw (x, ◌>>=◌) at h))
    | inl (false, x) ↦ (x, capability_passed metadata w u (rw (x, ◌>>=◌) at h))
  ]

  discovery-Passed :
      (discovery : Reply) (w : W) (u : Unit)
      → (discovery_check discovery w).0 ≡ ok u
      → Passed discovery
  discovery-Passed discovery w u h = elim (Bool-cases (nat_eq discovery.status 200)) [
    | inr bad ↦ absurd (cc (rw bad at h))
    | inl good ↦ elim (Result-cases (net.body discovery)) [
      | inr (e, x) ↦ absurd (cc (rw (good, x) at h))
      | inl (metadata, x) ↦
          let rest = details_passed metadata w u (rw (good, x) at h) in
          (good, (metadata, x, rest.0, rest.1))
    ]
  ]

  unadvertised-IsPlain :
      (w : W) (u : Unit) → (unadvertised net api authorization issuer w).0 ≡ ok u → IsPlain w
  unfolding unadvertised
  unadvertised-IsPlain w u h =
      let url = issuer <> "/.well-known/openid-configuration" in
      let fetched = action->>=-eq-ok (net.fetch url) discovery_check w h in
      let passed = discovery-Passed fetched.0 (net.fetch url w).1 u fetched.2 in
      let (metadata, read, no_details, no_methods) = passed.1 in
      record {
        discovery = fetched.0;
        metadata = metadata;
        served = fetched.1;
        found = passed.0;
        read = read;
        no_details = no_details;
        no_methods = no_methods;
      }

  abbrev answer_check : Reply → Action W Unit
  answer_check response =
      check (nat_eq response.status 200 || nat_eq response.status 302)
        "Disabled-feature authorization returned an error."
      >> check (not (contains "unmet_authentication_requirements" response.text))
          "Disabled OIDC4AC emitted its experimental authentication error."

  answer_passed :
      (response : Reply) (w : W) (u : Unit)
      → (answer_check response w).0 ≡ ok u
      → ((nat_eq response.status 200 || nat_eq response.status 302) ≡ true)
        × (contains "unmet_authentication_requirements" response.text ≡ false)
  answer_passed response w u h =
      elim (Bool-cases (nat_eq response.status 200 || nat_eq response.status 302)) [
        | inr bad ↦ absurd (cc (rw bad at h))
        | inl good ↦
            let shown = contains "unmet_authentication_requirements" response.text in
            (good, flipped shown (checked (not shown) _ w u (rw good at h)).0)
      ]

  ordinary_authorization-IsOrdinary :
      (w : W) (u : Unit)
      → (ordinary_authorization net api authorization issuer w).0 ≡ ok u
      → IsOrdinary w
  unfolding ordinary_authorization
  ordinary_authorization-IsOrdinary w u h =
      let url = issuer <> "/protocol/openid-connect/auth" in
      let asked = action->>=-eq-ok (authorization url parameters) answer_check w h in
      let passed = answer_passed asked.0 (authorization url parameters w).1 u asked.2 in
      record { response = asked.0; answered = asked.1; accepted = passed.0; no_error = passed.1 }

  -- If the script passes, the discovery document that it was served named neither amr_details nor
  -- methods, and after the realm was given the built-in flow, a request that asks for amr_details was
  -- answered with a page or a redirect that does not carry the error of the extension.
  pub main_sound :
      (w : W) (code : ℕ)
      → (main net api authorization issuer w).0 ≡ ok code
      → let checked_discovery = unadvertised net api authorization issuer w in
        let bound = bind_builtin_flow net api authorization issuer checked_discovery.1 in
        IsPlain w × (bound.0 ≡ ok tt) × IsOrdinary bound.1
  unfolding main
  main_sound w code h =
      let first = unadvertised net api authorization issuer in
      let bind = bind_builtin_flow net api authorization issuer in
      let last = ordinary_authorization net api authorization issuer in
      let advertised = action->>=-eq-ok first (λ _. bind >> (last >> pure 0)) w h in
      let bound = action->>=-eq-ok bind (λ _. last >> pure 0) (first w).1 advertised.2 in
      let asked = action->>=-eq-ok last (λ _. pure 0) (bind (first w).1).1 bound.2 in
      (
        unadvertised-IsPlain w advertised.0 advertised.1,
        bound.1,
        ordinary_authorization-IsOrdinary (bind (first w).1).1 asked.0 asked.1,
      )
