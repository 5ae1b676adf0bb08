-- ===== src/E2e/Authorize/Outcome.antt =====
-- How `authorize` can end, whatever the network answers.
use keycloak_oidc4ac_lab.Prelude.{
  ℕ, ◌<◌, String, ◌≡◌, ◌⊎◌, true, false, Option, none, some, List, [], ◌∷◌, ◌++◌, length, Result,
  ok, err, if◌then◌else◌, contains,
}
use keycloak_oidc4ac_lab.Prelude.Dict
use keycloak_oidc4ac_lab.Prelude.Dict.{Dict}
use keycloak_oidc4ac_lab.Prelude.Action.{Action}
use keycloak_oidc4ac_lab.E2e.Forms.{Form, parse_forms}
use keycloak_oidc4ac_lab.E2e.Lab.{Reply, Network, Lab, Constants}
use keycloak_oidc4ac_lab.E2e.Pages.{AuthorizationResult}
use keycloak_oidc4ac_lab.E2e.Authorize.{
  Screen, shows_result, redirect, login_form, otp_form, enrolment, terminal, unexpected,
}

module _ {W : Type 0} (net : Network W) (constants : Constants) where
  abbrev forms_of : Reply → Dict Form
  forms_of reply = parse_forms (net.tokenise reply.text)

  -- A page on which an authorization may end: no redirect, none of the three forms of Keycloak that
  -- the runner knows, HTTP 200, and a result or an error of the test client.
  pub record IsLast (reply : Reply) : Type 0 where
    pub no_redirect : reply.is_redirect ≡ false
    pub no_login : Dict.lookup "kc-form-login" (forms_of reply) ≡ none
    pub no_otp : Dict.lookup "kc-otp-login-form" (forms_of reply) ≡ none
    pub no_enrolment : Dict.mem "kc-totp-settings-form" (forms_of reply) ≡ false
    pub status : reply.status ≡ 200
    pub shows :
        (contains "Verified authentication context" reply.text ≡ true)
        ⊎ (contains "class=\"error-page\"" reply.text ≡ true)

  -- The authentication screen that a page on the way is: the login form where it takes a password,
  -- or else the form of a one-time code. A redirect is none.
  abbrev pub screens_of : Reply → List String
  screens_of reply =
      if reply.is_redirect then [] else elim (Dict.lookup "kc-form-login" (forms_of reply)) [
        | some form ↦ if Dict.mem "password" form.values then "kc-form-login" ∷ [] else []
        | none ↦ elim (Dict.lookup "kc-otp-login-form" (forms_of reply)) [
          | none ↦ []
          | some form ↦ "kc-otp-login-form" ∷ []
        ]
      ]

  -- The screens of pages, in their order.
  abbrev pub screens : List Reply → List String
  screens [] = []
  screens (reply ∷ replies) = screens_of reply ++ screens replies

  -- An authorization ends on such a page, after less than `n` further pages, whose screens follow
  -- those that were counted before.
  abbrev pub Ends : ℕ → List String → Result AuthorizationResult → Type 0
  Ends n submitted (ok r) =
      IsLast r.response
      × ((pages : List Reply) × (length pages < n) × (r.forms ≡ submitted ++ screens pages))
  Ends n submitted (err e) = Unit

  -- What the runner has seen of a page with this screen.
  abbrev Shows : Reply → Screen → Type 0
  Shows reply redirect = reply.is_redirect ≡ true
  Shows reply (login_form form) =
      (reply.is_redirect ≡ false) × (Dict.lookup "kc-form-login" (forms_of reply) ≡ some form)
  Shows reply (otp_form form) =
      (reply.is_redirect ≡ false)
      × (Dict.lookup "kc-form-login" (forms_of reply) ≡ none)
      × (Dict.lookup "kc-otp-login-form" (forms_of reply) ≡ some form)
  Shows reply terminal = IsLast reply
  Shows reply enrolment = Unit
  Shows reply unexpected = Unit

  abbrev other_screen : Reply → Screen
  other_screen reply =
      if Dict.mem "kc-totp-settings-form" (forms_of reply)
      then enrolment
      else if shows_result reply
      then terminal
      else unexpected

  module _ (session : ℕ) (emailed : Option (List String)) where
    -- The invariant of the loop.
    abbrev Drives : ℕ → (Reply → List String → Action (Lab W) AuthorizationResult) → Type 0
    Drives n again =
        (reply : Reply) (submitted : List String) (s : Lab W)
        → Ends n submitted (again reply submitted s).0
