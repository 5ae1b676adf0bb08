-- ===== src/E2e/Authorize/Frame.antt =====
-- What an authorization leaves as it was in the runner's state.
use keycloak_oidc4ac_lab.Prelude.{
  ℕ, zero, suc, String, ◌≡◌, refl, Bool, true, false, Option, some, List, [], ◌∷◌, ◌++◌, ◌<>◌, ◌∙◌,
  Result-cases, inl, inr, arith,
}
use keycloak_oidc4ac_lab.Prelude.Dict.{Dict}
use keycloak_oidc4ac_lab.Prelude.Action.{Action, ◌>>=◌}
use keycloak_oidc4ac_lab.Json.{Value}
use keycloak_oidc4ac_lab.E2e.Lab.{Reply, Network, Lab, Settings, Constants, outside}
use keycloak_oidc4ac_lab.E2e.Pages.{AuthorizationResult}
use keycloak_oidc4ac_lab.E2e.Authorize.{
  Options, Screen, redirect, login_form, otp_form, enrolment, terminal, unexpected, screen_of,
  follow, post_form, credentials, counted, one_time_code, act, drive, authorize,
  allow_loopback_secure_cookies, session_for, known_messages, login_data, require,
}

-- The settings without the counter of the last one-time code.
pub record Target : Type 0 where
  pub client : String
  pub issuer : String
  pub alice : String
  pub password : String

abbrev pub target_of : Settings → Target
target_of settings = record {
  client = settings.client;
  issuer = settings.issuer;
  alice = settings.alice;
  password = settings.password;
}

module _ {W : Type 0} where
  -- Whatever comes of the action, the runner addresses the same servers as the same user.
  abbrev pub KeepsTarget : {A : Type 0} → Action (Lab W) A → Type 0
  KeepsTarget m = (s : Lab W) → target_of (m s).1.settings ≡ target_of s.settings

  pub bind-KeepsTarget :
      {A B : Type 0} (m : Action (Lab W) A) (f : A → Action (Lab W) B)
      → KeepsTarget m
      → ((a : A) → KeepsTarget (f a))
      → KeepsTarget (m >>= f)
  bind-KeepsTarget m f keeps rest s = elim (Result-cases (m s).0) [
    | inl (a, e) ↦ rw (e, ◌>>=◌) (rest a (m s).1 ∙ keeps s)
    | inr (e, h) ↦ rw (h, ◌>>=◌) (keeps s)
  ]

  pub outside-KeepsTarget : {A : Type 0} (m : Action W A) → KeepsTarget (outside m)
  outside-KeepsTarget m s = refl

  pub require-KeepsTarget : (b : Bool) (message : String) → KeepsTarget (require b message)
  require-KeepsTarget true message s = refl
  require-KeepsTarget false message s = refl

  module _ (net : Network W) (constants : Constants) (session : ℕ)
      (emailed : Option (List String)) where
    one_time_code-KeepsTarget : KeepsTarget (one_time_code net constants session emailed)
    unfolding one_time_code
    one_time_code-KeepsTarget s = ground arith

    act-KeepsTarget :
        (again : Reply → List String → Action (Lab W) AuthorizationResult) (reply : Reply)
        (submitted : List String) (screen : Screen)
        → ((next : Reply) (more : List String) → KeepsTarget (again next more))
        → KeepsTarget (act net constants session emailed again reply submitted screen)
    unfolding act
    act-KeepsTarget again reply submitted redirect ih s =
        bind-KeepsTarget (outside (follow net session reply)) (λ next. again next submitted)
          (outside-KeepsTarget (follow net session reply)) (λ next. ih next submitted) s
    act-KeepsTarget again reply submitted (login_form form) ih s =
        bind-KeepsTarget (outside (post_form net session reply form (credentials s.settings form)))
          (λ next. again next (counted form submitted))
          (outside-KeepsTarget (post_form net session reply form (credentials s.settings form)))
          (λ next. ih next (counted form submitted)) s
    act-KeepsTarget again reply submitted (otp_form form) ih s =
        let more : List String = submitted ++ "kc-otp-login-form" ∷ [] in
        let send : String → Action (Lab W) Reply =
          λ otp. outside (post_form net session reply form (("otp", some otp) ∷ [])) in
        bind-KeepsTarget (one_time_code net constants session emailed)
          (λ otp. send otp >>= λ next. again next more) one_time_code-KeepsTarget
          (λ otp.
            bind-KeepsTarget (send otp) (λ next. again next more)
              (outside-KeepsTarget (post_form net session reply form (("otp", some otp) ∷ [])))
              λ next. ih next more)
          s
    act-KeepsTarget again reply submitted enrolment ih s = refl
    act-KeepsTarget again reply submitted terminal ih s = refl
    act-KeepsTarget again reply submitted unexpected ih s = refl

    drive-KeepsTarget :
        (n : ℕ) (reply : Reply) (submitted : List String)
        → KeepsTarget (drive net constants session emailed n reply submitted)
    unfolding drive
    drive-KeepsTarget zero reply submitted s = refl
    drive-KeepsTarget (suc n) reply submitted s =
        bind-KeepsTarget (outside (allow_loopback_secure_cookies net session))
          (λ _.
            act net constants session emailed (drive net constants session emailed n) reply
              submitted (screen_of net reply))
          (outside-KeepsTarget (allow_loopback_secure_cookies net session))
          (λ _.
            act-KeepsTarget (drive net constants session emailed n) reply submitted
              (screen_of net reply) (drive-KeepsTarget n))
          s

  module _ (net : Network W) (constants : Constants) where
    -- Whatever the network answers, an authorization changes nothing of the runner's settings but
    -- the counter of the last one-time code.
    pub authorize-KeepsTarget :
        (request_claims : Dict Value) (options : Options) (s : Lab W)
        → target_of (authorize net constants request_claims options s).1.settings
          ≡ target_of s.settings
    unfolding authorize
    authorize-KeepsTarget request_claims options =
        let login : String → ℕ → Action W Reply = λ client session.
          net.post session (client <> "/login") (login_data net constants request_claims options) in
        let checked : ℕ → Option (List String) → Reply → Unit → Action (Lab W) AuthorizationResult =
          λ session emailed response _. drive net constants session emailed 16 response [] in
        let answered : ℕ → Option (List String) → Reply → Action (Lab W) AuthorizationResult =
          λ session emailed response.
            require response.is_redirect "Test-client /login did not redirect."
            >>= checked session emailed response in
        let posted : ℕ → Option (List String) → Action (Lab W) AuthorizationResult =
          λ session emailed t.
            (outside (login t.settings.client session) >>= answered session emailed) t in
        bind-KeepsTarget (outside (session_for net constants options.session))
          (λ session.
            outside (known_messages net constants options.use_email_code) >>= posted session)
          (outside-KeepsTarget (session_for net constants options.session))
          λ session.
            bind-KeepsTarget (outside (known_messages net constants options.use_email_code))
              (posted session)
              (outside-KeepsTarget (known_messages net constants options.use_email_code))
              λ emailed t.
                bind-KeepsTarget (outside (login t.settings.client session))
                  (answered session emailed) (outside-KeepsTarget (login t.settings.client session))
                  (λ response.
                    bind-KeepsTarget
                      (require response.is_redirect "Test-client /login did not redirect.")
                      (checked session emailed response)
                      (require-KeepsTarget response.is_redirect
                        "Test-client /login did not redirect.")
                      λ _. drive-KeepsTarget net constants session emailed 16 response [])
                  t
