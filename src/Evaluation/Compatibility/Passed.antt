-- ===== src/Evaluation/Compatibility/Passed.antt =====
-- What the steps of the compatibility matrix have seen when they pass.
use keycloak_oidc4ac_lab.Prelude.{
  ℕ, String, ◌≡◌, refl, Bool, true, false, not, Option, [], ok, ◌∙◌, ap, sym, ok_inj, Result-cases,
  inl, inr, contains, arith,
}
use keycloak_oidc4ac_lab.Prelude.Action.{Action, lift, pure, ◌>>=◌, ◌>>◌}
use keycloak_oidc4ac_lab.E2e.Lab.{Network, Lab, Constants}
use keycloak_oidc4ac_lab.E2e.Pages.{AuthorizationResult, json_section, require_success}
use keycloak_oidc4ac_lab.E2e.Scenarios.Sections.{has_key}
use keycloak_oidc4ac_lab.Json.{Value}
use keycloak_oidc4ac_lab.E2e.Authorize
use keycloak_oidc4ac_lab.E2e.Authorize.{Options, defaults, require}
use keycloak_oidc4ac_lab.E2e.Authorize.Frame.{KeepsTarget, bind-KeepsTarget, authorize-KeepsTarget}
use keycloak_oidc4ac_lab.Evaluation.Compatibility.{
  Endpoint, configure, section_has_details, has_details, ordinary_success,
}

-- What a successful chain of two actions did.
pub action->>=-eq-ok :
    {S A B : Type 0} (m : Action S A) (f : A → Action S B) (s : S) {b : B}
    → ((m >>= f) s).0 ≡ ok b
    → (a : A) × ((m s).0 ≡ ok a) × ((f a (m s).1).0 ≡ ok b)
action->>=-eq-ok m f s h = elim (Result-cases (m s).0) [
  | inl (a, e) ↦ (a, e, rw (e, ◌>>=◌) at h)
  | inr (e, raised) ↦ absurd (cc (rw (raised, ◌>>=◌) at h))
]

required_true :
    {S : Type 0} (b : Bool) (message : String) (s : S) (u : Unit)
    → (require b message s).0 ≡ ok u
    → b ≡ true
required_true true message s u h = refl
required_true false message s u h = cc

module _ {W : Type 0} (net : Network W) (constants : Constants) where
  -- The checks of `ordinary_success` on the page that it is given.
  abbrev hidden_only : AuthorizationResult → Bool → Action (Lab W) AuthorizationResult
  hidden_only result disclosed =
      require (not disclosed) "an ordinary OIDC request unexpectedly received amr_details."
      >> pure result

  abbrev inspect : AuthorizationResult → Action (Lab W) AuthorizationResult
  inspect result = lift (has_details net result) >>= hidden_only result

  abbrev judge : AuthorizationResult → Action (Lab W) AuthorizationResult
  judge page = lift (require_success net page) >>= inspect

  judge-KeepsTarget : (page : AuthorizationResult) → KeepsTarget (judge page)
  judge-KeepsTarget page s = ground arith

  success_shown :
      (page result : AuthorizationResult)
      → require_success net page ≡ ok result
      → contains "Verified authentication context" result.response.text ≡ true
  unfolding require_success
  success_shown page result h = ground arith

  -- The section of the result page is there, and has no `amr_details`.
  abbrev pub Hides : AuthorizationResult → String → Type 0
  Hides result heading =
      (v : Value) × (json_section net result heading ≡ ok v) × (has_key "amr_details" v ≡ ok false)

  section-Hides :
      (result : AuthorizationResult) (heading : String)
      → section_has_details net result heading ≡ ok false
      → Hides result heading
  section-Hides result heading h = elim (Result-cases (json_section net result heading)) [
    | inl (v, e) ↦ (v, e, rw (e, section_has_details) at h)
    | inr (x, e) ↦ absurd (cc (rw (e, section_has_details) at h))
  ]

  has_details-Hides :
      (result : AuthorizationResult)
      → has_details net result ≡ ok false
      → Hides result "Verified ID Token" × Hides result "Access-token-bound UserInfo"
  unfolding has_details
  has_details-Hides result h =
      elim (Result-cases (section_has_details net result "Verified ID Token")) [
        | inl (true, e) ↦ absurd (cc (rw (e, has_details) at h))
        | inl (false, e) ↦ (
          section-Hides result "Verified ID Token" e,
          section-Hides result "Access-token-bound UserInfo" (rw (e, has_details) at h),
        )
        | inr (x, e) ↦ absurd (cc (rw (e, has_details) at h))
      ]

  judge_sound :
      (page result : AuthorizationResult) (s : Lab W)
      → (judge page s).0 ≡ ok result
      → (has_details net result ≡ ok false)
        × (contains "Verified authentication context" result.response.text ≡ true)
  judge_sound page result s h =
      let first = action->>=-eq-ok (lift (require_success net page)) inspect s h in
      let second =
        action->>=-eq-ok (lift (has_details net first.0)) (hidden_only first.0) s first.2 in
      let third =
        action->>=-eq-ok
          (require (not second.0) "an ordinary OIDC request unexpectedly received amr_details.")
          (λ _. pure first.0) s second.2 in
      let hidden = required_true (not second.0) _ s _ third.1 in
      let same : first.0 ≡ result = ok_inj third.2 in
      let is_hidden : second.0 ≡ false = ground arith in
      (
        ap (has_details net) (sym same) ∙ second.1 ∙ ap ok is_hidden,
        ap (λ r. contains "Verified authentication context" r.response.text) (sym same)
            ∙ success_shown page first.0 first.1,
      )

  -- However it ends, `ordinary_success` leaves the runner with the client and the issuer of the
  -- endpoint, and with the user and password as before; when it returns, it returns a page of success
  -- that has a section of the ID Token and one of UserInfo, each without `amr_details`.
  pub ordinary_success_sound :
      (endpoint : Endpoint) (session : Option ℕ) (prompt_login : Bool) (s : Lab W)
      → let run = ordinary_success net constants endpoint session prompt_login s in
        (run.1.settings.client ≡ endpoint.client)
        × (run.1.settings.issuer ≡ endpoint.issuer)
        × (run.1.settings.alice ≡ s.settings.alice)
        × (run.1.settings.password ≡ s.settings.password)
        × ((result : AuthorizationResult)
            → run.0 ≡ ok result
            → Hides result "Verified ID Token"
              × Hides result "Access-token-bound UserInfo"
              × (contains "Verified authentication context" result.response.text ≡ true))
  unfolding ordinary_success configure
  ordinary_success_sound endpoint session prompt_login s =
      let options : Options = record defaults {
        session = session;
        prompt_login = prompt_login;
        omit_claims = true;
      } in
      let ordinary : Action (Lab W) AuthorizationResult =
        Authorize.authorize net constants [] options in
      let configured : Lab W = record s { settings = configure endpoint s.settings } in
      let kept =
        bind-KeepsTarget ordinary judge (authorize-KeepsTarget net constants [] options)
          judge-KeepsTarget configured in
      (
        ap (λ t. t.client) kept,
        ap (λ t. t.issuer) kept,
        ap (λ t. t.alice) kept,
        ap (λ t. t.password) kept,
        λ result h.
            let page = action->>=-eq-ok ordinary judge configured h in
            let seen = judge_sound page.0 result (ordinary configured).1 page.2 in
            let hidden = has_details-Hides result seen.0 in (hidden.0, hidden.1, seen.1),
      )
