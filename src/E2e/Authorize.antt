-- ===== src/E2e/Authorize.antt =====
-- The browser of e2e/http/run.py: `authorize` and `direct_authorization` follow redirects and fill
-- in Keycloak's forms, for sixteen transitions at most.
pub mod Outcome
pub mod Frame
pub mod Direct
pub mod Success
use keycloak_oidc4ac_lab.Prelude.{
  ℕ, zero, suc, String, Bool, true, false, not, Option, none, some, List, [], ◌∷◌, ◌++◌, map,
  nat_eq, contains, select, ◌<>◌, ◌==◌, ◌&&◌, ◌||◌, Result, ok, err, check_failure, if◌then◌else◌,
}
use keycloak_oidc4ac_lab.Prelude.Dict
use keycloak_oidc4ac_lab.Prelude.Dict.{Dict, is_member}
use keycloak_oidc4ac_lab.Prelude.Action.{Action, pure, raise, lift, gets, ◌>>=◌, ◌>>◌}
use keycloak_oidc4ac_lab.Json.{Value, object}
use keycloak_oidc4ac_lab.E2e.Totp.{current_totp, must_wait, counter_at, wait, Clock}
use keycloak_oidc4ac_lab.E2e.Forms.{Form, parse_forms}
use keycloak_oidc4ac_lab.E2e.Lab.{Reply, Cookie, Network, Lab, Settings, Constants, outside}
use keycloak_oidc4ac_lab.E2e.Pages.{AuthorizationResult}
use keycloak_oidc4ac_lab.E2e.Smtp.{smtp_messages, smtp_message_key, smtp_verification_code}

-- `check(condition, message)`, as an action
abbrev pub require {ℓ} : {S : Type ℓ} → Bool → String → Action S (Unit {ℓ})
require true message s = (ok tt, s)
require false message s = (err (check_failure message), s)

-- The equality of two lists of texts.
abbrev pub same_forms : List String → List String → Bool
same_forms [] [] = true
same_forms [] (y ∷ ys) = false
same_forms (x ∷ xs) [] = false
same_forms (x ∷ xs) (y ∷ ys) = x == y && same_forms xs ys

abbrev is_loopback : String → Bool
is_loopback domain =
    domain == "keycloak.localhost" || domain == "localhost" || domain == "localhost.local"

-- `cookie.secure = False`, on the loopback names only
unfoldable pub loosen : Cookie → Cookie
loosen cookie = if is_loopback cookie.domain then record cookie { secure = false } else cookie

-- The keyword arguments of `authorize`.
pub record Options : Type 0 where
  pub session : Option ℕ
  pub prompt_login : Bool
  pub omit_claims : Bool
  pub offline_access : Bool
  pub use_email_code : Bool

abbrev pub defaults : Options
defaults = record {
  session = none;
  prompt_login = true;
  omit_claims = false;
  offline_access = false;
  use_email_code = false;
}

abbrev switch : Bool → String → Dict (Option String) → Dict (Option String)
switch true name form = Dict.insert name (some "on") form
switch false name form = form

-- What a page asks for, in the order in which `authorize` looks.
pub data Screen : Type 0 where
  redirect : Screen
  login_form otp_form : Form → Screen
  enrolment terminal unexpected : Screen

abbrev pub shows_result : Reply → Bool
shows_result reply =
    nat_eq reply.status 200
    && (contains "Verified authentication context" reply.text
        || contains "class=\"error-page\"" reply.text)

module _ {W : Type 0} (net : Network W) where
  unfoldable pub screen_of : Reply → Screen
  screen_of reply =
      let forms = parse_forms (net.tokenise reply.text) in
      let other =
        if Dict.mem "kc-totp-settings-form" forms
        then enrolment
        else if shows_result reply
        then terminal
        else unexpected in
      if reply.is_redirect then redirect else elim (Dict.lookup "kc-form-login" forms) [
        | some form ↦ login_form form
        | none ↦ elim (Dict.lookup "kc-otp-login-form" forms) [
          | some form ↦ otp_form form
          | none ↦ other
        ]
      ]

  unfoldable pub allow_loopback_secure_cookies : ℕ → Action W Unit
  unfolding loosen
  allow_loopback_secure_cookies session =
      net.cookies session >>= λ cookies. net.set_cookies session (map loosen cookies)

  -- The cookies of a domain that names Keycloak are dropped.
  unfoldable pub clear_keycloak_cookies : ℕ → Action W Unit
  clear_keycloak_cookies session = net.cookies session >>= λ cookies.
      net.set_cookies session (select (λ cookie. not (contains "keycloak" cookie.domain)) cookies)

  unfoldable pub post_form : ℕ → Reply → Form → Dict (Option String) → Action W Reply
  post_form session reply form values =
      net.post session (net.url_join reply.url form.action) (Dict.update form.values values)

  unfoldable pub follow : ℕ → Reply → Action W Reply
  follow session reply = elim reply.location [
    | none ↦ raise (check_failure "Redirect response did not include Location.")
    | some location ↦ net.get session (net.url_join reply.url (some location))
  ]

  unfoldable pub clock_for : Settings → Action W Clock
  clock_for settings = net.time >>= λ now.
      if must_wait settings.last_totp_counter (counter_at now)
      then (net.time >>= λ asleep.
          net.pause (wait asleep)
          >> (net.time >>= λ woken. pure (record { now = now; asleep = asleep; woken = woken })))
      else pure (record { now = now; asleep = now; woken = now })

abbrev pub credentials : Settings → Form → Dict (Option String)
credentials settings form =
    if Dict.mem "password" form.values
    then ("username", some settings.alice) ∷ ("password", some settings.password) ∷ []
    else ("username", some settings.alice) ∷ []

-- Only the screen that takes the password counts as an authentication form.
unfoldable pub counted : Form → List String → List String
counted form submitted =
    if Dict.mem "password" form.values then submitted ++ "kc-form-login" ∷ [] else submitted

module _ {W : Type 0} (net : Network W) (constants : Constants) where
  -- The code for the OTP form, as decimal digits in a text.
  fresh_totp : Action (Lab W) String
  unfolding clock_for
  fresh_totp = gets (λ s. s.settings) >>= λ settings. outside (clock_for net settings) >>= λ clock.
      λ s.
        let (code, last) = current_totp constants.totp_secret settings.last_totp_counter clock in
        (
          ok (net.digits_text code),
          record s { settings = record settings { last_totp_counter = last } },
        )

  module _ (session : ℕ) (emailed : Option (List String)) where
    unfoldable pub one_time_code : Action (Lab W) String
    unfolding fresh_totp
    one_time_code = elim emailed [
      | some previous ↦ outside (smtp_verification_code net constants previous)
      | none ↦ fresh_totp
    ]

    -- The body of the loop, on what the page asks for.
    unfoldable pub act :
        (Reply → List String → Action (Lab W) AuthorizationResult)
        → Reply
        → List String
        → Screen
        → Action (Lab W) AuthorizationResult
    act again reply submitted redirect =
        outside (follow net session reply) >>= λ next. again next submitted
    act again reply submitted (login_form form) = gets (λ s. s.settings) >>= λ settings.
        outside (post_form net session reply form (credentials settings form)) >>= λ next.
        again next (counted form submitted)
    act again reply submitted (otp_form form) = one_time_code >>= λ otp.
        outside (post_form net session reply form (("otp", some otp) ∷ [])) >>= λ next.
        again next (submitted ++ "kc-otp-login-form" ∷ [])
    act again reply submitted enrolment = raise (check_failure "Keycloak asked to enrol OTP.")
    act again reply submitted terminal =
        pure (record { session = session; response = reply; forms = submitted })
    act again reply submitted unexpected =
        raise (check_failure "Unexpected page during authorization.")

    -- The loop, with the number of transitions that are left.
    unfoldable pub drive : ℕ → Reply → List String → Action (Lab W) AuthorizationResult
    unfolding screen_of allow_loopback_secure_cookies act
    drive zero reply submitted =
        raise (check_failure "Authorization did not reach the test-client callback.")
    drive (suc transitions) reply submitted =
        let again : Reply → List String → Action (Lab W) AuthorizationResult = drive transitions in
        outside (allow_loopback_secure_cookies net session)
        >> act again reply submitted (screen_of net reply)

  abbrev pub known_messages : Bool → Action W (Option (List String))
  known_messages true = smtp_messages net constants >>= λ messages.
      pure (some (map (smtp_message_key net constants) messages))
  known_messages false = pure none

  abbrev pub session_for : Option ℕ → Action W ℕ
  session_for (some session) = pure session
  session_for none = net.new_session

  -- The form that the test client's /login is sent.
  unfoldable pub login_data : Dict Value → Options → Dict (Option String)
  login_data request_claims options =
      let offered =
        switch options.offline_access "offline_access"
          (switch options.prompt_login "prompt_login" []) in
      if options.omit_claims
      then switch true "omit_claims" offered
      else Dict.insert "claims_json" (some (net.dumps_default (object request_claims))) offered

  unfoldable pub authorize : Dict Value → Options → Action (Lab W) AuthorizationResult
  unfolding drive login_data
  authorize request_claims options = do
    session ← outside (session_for options.session)
    emailed ← outside (known_messages options.use_email_code)
    settings ← gets (λ s. s.settings)
    response ←
        outside (net.post session (settings.client <> "/login") (login_data request_claims options))
    require response.is_redirect "Test-client /login did not redirect."
    drive session emailed 16 response []
