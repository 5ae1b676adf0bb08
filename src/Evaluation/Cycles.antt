-- ===== src/Evaluation/Cycles.antt =====
-- The measured cycles of evaluation/benchmark/timing-benchmark.py, on the HTTP suite's `authorize`.
pub mod Restored
use keycloak_oidc4ac_lab.Prelude.{
  ℕ, ◌+◌, ◌-◌, String, Bool, true, false, not, Option, none, some, List, [], ◌∷◌, ltb, contains,
  ◌<>◌, ◌==◌, ◌&&◌, Result, ok, err, assertion_error, check_failure, key_error, attribute_error,
  if◌then◌else◌, utf8_length, codes,
}
use keycloak_oidc4ac_lab.Prelude.Dict
use keycloak_oidc4ac_lab.Prelude.Dict.{Dict}
use keycloak_oidc4ac_lab.Prelude.Action.{Action, pure, raise, lift, gets, ◌>>=◌, ◌>>◌, finally}
use keycloak_oidc4ac_lab.Json.{Value, object, as_dict, JsonText}
use keycloak_oidc4ac_lab.E2e.Lab.{Reply, Network, Lab, Settings, Constants, outside}
use keycloak_oidc4ac_lab.E2e.Pages.{AuthorizationResult, json_section, require_success}
use keycloak_oidc4ac_lab.E2e.Authorize
use keycloak_oidc4ac_lab.E2e.Scenarios.Sections.{in_both}
use keycloak_oidc4ac_lab.E2e.Authorize.{Options, defaults, same_forms}
use keycloak_oidc4ac_lab.Evaluation.Slots.{Condition, Kind, sso, refresh, login}
use keycloak_oidc4ac_lab.Evaluation.Requests.{compact_bytes}

-- `run.CLIENT` and `run.ISSUER` are those of the condition from here on.
unfoldable pub configure : Condition → Settings → Settings
configure c settings = record settings { client = c.client; issuer = c.issuer }

abbrev pub modify_settings : {W : Type 0} → (Settings → Settings) → Action (Lab W) (Unit {0})
modify_settings f s = (ok tt, record s { settings = f s.settings })

abbrev same_bool : Bool → Bool → Bool
same_bool true b = b
same_bool false b = not b

abbrev is_nil : List String → Bool
is_nil [] = true
is_nil (x ∷ xs) = false

module _ {W : Type 0} (net : Network W) (constants : Constants) where
  -- Both sections are read before they are compared; `and` looks into the second only where the
  -- first has details.
  unfoldable pub check_projection : Condition → AuthorizationResult → Result (Unit {0})
  unfolding in_both
  check_projection c result =
      let id_token = json_section net result "Verified ID Token" in
      let userinfo = json_section net result "Access-token-bound UserInfo" in
      elim (in_both "amr_details" id_token userinfo) [
        | err e ↦ err e
        | ok has_details ↦
            if same_bool has_details c.expects_details
            then ok tt
            else err (assertion_error "unexpected amr_details projection")
      ]

  unfoldable pub authorize : Condition → ℕ → Bool → Action (Lab W) AuthorizationResult
  unfolding configure check_projection
  authorize c session prompt_login = do
    modify_settings (configure c)
    page ← Authorize.authorize net constants c.request_claims (record defaults {
      session = some session;
      prompt_login = prompt_login;
      omit_claims = c.omit_claims;
    })
    result ← lift (require_success net page)
    lift (check_projection c result)
    (if not prompt_login && not (is_nil result.forms)
        then raise (assertion_error "warm SSO unexpectedly rendered a form")
        else pure result)

  unfoldable pub sso_cycle : Condition → Dict ℕ → Action (Lab W) (Unit {0})
  unfolding authorize
  sso_cycle c sessions = elim (Dict.lookup c.name sessions) [
    | none ↦ raise (key_error c.name)
    | some session ↦ (authorize c session false >>= λ result. pure tt)
  ]

  unfoldable pub refresh_cycle : Condition → Dict ℕ → Action (Lab W) (Unit {0})
  unfolding check_projection
  refresh_cycle c sessions = elim (Dict.lookup c.name sessions) [
    | none ↦ raise (key_error c.name)
    | some session ↦ (do
      response ← outside (net.post_followed session (c.client <> "/refresh") [])
      result ←
          lift (require_success net (record { session = session; response = response; forms = [] }))
      (if contains "Refresh token response" response.text
          then lift (check_projection c result)
          else raise (assertion_error "the test client did not render a refresh response")))
  ]

  abbrev as_user : String → String → Settings → Settings
  as_user alice password settings = record settings { alice = alice; password = password }

  abbrev restore_user : String → String → Lab W → Lab W
  restore_user alice password s = record s { settings = as_user alice password s.settings }

  -- `try: … finally: run.ALICE, run.PASSWORD = ALICE`
  unfoldable pub login_cycle :
      (String × String) → (String × String) → Condition → Action (Lab W) (Unit {0})
  unfolding configure check_projection
  login_cycle (login_user, login_password) (alice, password) c = do
    modify_settings (configure c)
    modify_settings (as_user login_user login_password)
    result ←
        finally
          (Authorize.authorize net constants c.request_claims
              (record defaults { omit_claims = c.omit_claims })
            >>= λ page. lift (require_success net page))
          (restore_user alice password)
    (if same_forms result.forms ("kc-form-login" ∷ [])
        then pure tt
        else raise (assertion_error "login crossed other forms than the password form"))
    lift (check_projection c result)

  unfoldable pub cycle :
      (String × String) → (String × String) → Kind → Condition → Dict ℕ → Action (Lab W) (Unit {0})
  unfolding sso_cycle refresh_cycle login_cycle
  cycle login_user alice sso c sessions = sso_cycle c sessions
  cycle login_user alice refresh c sessions = refresh_cycle c sessions
  cycle login_user alice login c sessions = login_cycle login_user alice c
