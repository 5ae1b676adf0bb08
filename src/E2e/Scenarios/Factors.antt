-- ===== src/E2e/Scenarios/Factors.antt =====
-- Scenarios of e2e/http/run.py that ask for several factors.
use keycloak_oidc4ac_lab.Prelude.{true, false, not, none, some, [], ◌∷◌, ◌&&◌, contains, map}
use keycloak_oidc4ac_lab.Prelude.Dict
use keycloak_oidc4ac_lab.Prelude.Dict.{Dict}
use keycloak_oidc4ac_lab.Prelude.Action.{Action, pure, lift, ◌>>=◌, ◌>>◌}
use keycloak_oidc4ac_lab.Json.{Value, bool, str, object}
use keycloak_oidc4ac_lab.E2e.Requests.{claims, method}
use keycloak_oidc4ac_lab.E2e.Lab.{Network, Lab, Constants}
use keycloak_oidc4ac_lab.E2e.Authorize.{require}
use keycloak_oidc4ac_lab.E2e.Authorize.Success.{success_result}
use keycloak_oidc4ac_lab.E2e.Scenarios.Sections.{
  complete_event, properties_of, is_exactly, combined,
}

-- A one-time password whose algorithm must be TOTP.
abbrev totp_method : Dict Value
totp_method =
    method "otp"
      (some
        (("otp_algorithm", object (("value", str "TOTP") ∷ ("essential", bool true) ∷ [])) ∷ []))
      none

module _ {W : Type 0} (net : Network W) (constants : Constants) where
  unfoldable pub best_effort_leaf_inside_all_of_does_not_block : Action (Lab W) Unit
  best_effort_leaf_inside_all_of_does_not_block = do
    (result, id_token, userinfo) ←
        success_result net constants
          (claims (combined "all_of" (method "pwd" none none ∷ method "face" none none ∷ [])) true
            true false)
          ("kc-form-login" ∷ [])
    events ← lift (complete_event id_token userinfo ("pwd" ∷ []))
    require
        (not (contains "face" (net.dumps_default (object (map (λ (k, d). (k, object d)) events.0))))
          && not (
              contains "face"
                (net.dumps_default (object (map (λ (k, d). (k, object d)) events.1)))))
        "A best-effort unsupported all_of leaf appeared in the event."

  unfoldable pub password_and_otp_all_of : Action (Lab W) Unit
  password_and_otp_all_of = do
    (result, id_token, userinfo) ←
        success_result net constants
          (claims (combined "all_of" (method "pwd" none none ∷ totp_method ∷ [])) true true true)
          ("kc-form-login" ∷ "kc-otp-login-form" ∷ [])
    events ← lift (complete_event id_token userinfo ("pwd" ∷ "otp" ∷ []))
    in_token ← lift (properties_of "otp" events.0)
    require (is_exactly "TOTP" (Dict.lookup "otp_algorithm" in_token))
        "OTP properties did not describe the verified TOTP credential in the ID Token."
    in_userinfo ← lift (properties_of "otp" events.1)
    require (is_exactly "TOTP" (Dict.lookup "otp_algorithm" in_userinfo))
        "OTP properties did not describe the verified TOTP credential in UserInfo."

  unfoldable pub one_of_uses_realm_priority : Action (Lab W) Unit
  one_of_uses_realm_priority = do
    (result, id_token, userinfo) ←
        success_result net constants
          (claims (combined "one_of" (method "pwd" none none ∷ method "otp" none none ∷ [])) true
            true true)
          ("kc-form-login" ∷ [])
    events ← lift (complete_event id_token userinfo ("pwd" ∷ []))
    pure tt

  unfoldable pub nested_expression_selects_the_preferred_satisfiable_branch : Action (Lab W) Unit
  nested_expression_selects_the_preferred_satisfiable_branch = do
    (result, id_token, userinfo) ←
        success_result net constants
          (claims
            (combined "one_of" (
              combined "all_of" (method "pwd" none none ∷ method "otp" none none ∷ [])
              ∷ method "pop" none none
              ∷ []))
            true true true)
          ("kc-form-login" ∷ "kc-otp-login-form" ∷ [])
    events ← lift (complete_event id_token userinfo ("pwd" ∷ "otp" ∷ []))
    pure tt
