-- ===== src/E2e/Scenarios/Constraints.antt =====
-- Scenarios of e2e/http/run.py that constrain the properties of an execution, or that repeat one.
use keycloak_oidc4ac_lab.Prelude.{
  String, Bool, true, false, not, Option, none, some, List, [], ◌∷◌, ◌<>◌, map, Result, traverse,
}
use keycloak_oidc4ac_lab.Prelude.Dict
use keycloak_oidc4ac_lab.Prelude.Dict.{Dict}
use keycloak_oidc4ac_lab.Prelude.Action.{Action, pure, lift, ◌>>=◌, ◌>>◌}
use keycloak_oidc4ac_lab.Json.{Value, null, bool, int, pos, str, object, array}
use keycloak_oidc4ac_lab.Json.Equality.{same_value}
use keycloak_oidc4ac_lab.E2e.Requests.{claims, method, at_location, request_of}
use keycloak_oidc4ac_lab.E2e.Lab.{Network, Lab, Constants}
use keycloak_oidc4ac_lab.E2e.Pages.{AuthorizationResult, require_success}
use keycloak_oidc4ac_lab.E2e.Authorize.{authorize, Options, defaults, require, same_forms}
use keycloak_oidc4ac_lab.E2e.Authorize.Success.{success_result}
use keycloak_oidc4ac_lab.E2e.Scenarios.Sections.{
  has_property, properties_of, execution_of, details_in, details_list, identifier_of, indexed,
  is_exactly, complete_event, combined, id_token_of, userinfo_of,
}

-- `actual is not None and actual != text`
abbrev is_other : String → Option Value → Bool
is_other text none = false
is_other text (some null) = false
is_other text (some v) = not (is_exactly text (some v))

-- `detail["amr_metadata"]["time"]`
abbrev time_of : Value → Result Value
time_of detail = elim (indexed "amr_metadata" detail) [
  | Result.ok metadata ↦ indexed "time" metadata
  | Result.err error ↦ Result.err error
]

abbrev constraint : List (String × Value) → Value
constraint members = object (("essential", bool true) ∷ members)

abbrev identifier_values : Dict Value
identifier_values =
    (
      "id_token",
      at_location (
          ("essential", bool true)
          ∷ ("amr_identifier", object (("values", array (str "otp" ∷ str "pwd" ∷ [])) ∷ []))
          ∷ ("amr_metadata", object (("time", constraint []) ∷ []))
          ∷ []),
    )
    ∷ []

abbrev bounded : Dict Value
bounded =
    method "otp"
      (some (
        ("otp_algorithm", constraint (("values", array (str "TOTP" ∷ str "HOTP" ∷ [])) ∷ []))
        ∷ ("otp_length", constraint (("min", int (pos 6)) ∷ ("max", int (pos 6)) ∷ []))
        ∷ ("otp_time_to_live", constraint (("min", int (pos 30)) ∷ ("max", int (pos 30)) ∷ []))
        ∷ []))
      none

module _ {W : Type 0} (net : Network W) (constants : Constants) where
  -- `authorize(request, …).require_success()`
  abbrev success : Dict Value → Options → Action (Lab W) AuthorizationResult
  success request options =
      authorize net constants request options >>= λ page. lift (require_success net page)

  unfoldable pub best_effort_value_constraint_reports_actual_property : Action (Lab W) Unit
  unfolding properties_of
  best_effort_value_constraint_reports_actual_property = do
    result ←
        success
          (claims
            (method "pwd"
              (some (
                ("pwd_derivation_algorithm", object (("value", str "not-the-lab-algorithm") ∷ []))
                ∷ []))
              none)
            true true true)
          defaults
    id_token ← id_token_of net result
    details ← lift (details_in id_token)
    properties ← lift (properties_of "pwd" details)
    require (is_other "not-the-lab-algorithm" (Dict.lookup "pwd_derivation_algorithm" properties))
        "The best-effort password constraint was copied into the event."

  -- `properties.get(name) == value`
  abbrev has_value : (Value → Value → Bool) → Value → String → Dict Value → Bool
  has_value equal_numbers expected name properties = elim (Dict.lookup name properties) [
    | none ↦ false
    | some v ↦ same_value equal_numbers v expected
  ]

  unfoldable pub identifier_values_and_numeric_property_bounds :
      (Value → Value → Bool) → Action (Lab W) Unit
  unfolding properties_of
  identifier_values_and_numeric_property_bounds equal_numbers = do
    identifier_result ← success identifier_values defaults
    identifier_token ← id_token_of net identifier_result
    identifier_details ← lift (details_in identifier_token)
    require (same_forms (map (λ (k, d). k) identifier_details) ("pwd" ∷ []))
        "An identifier values constraint did not select the realm-priority password path."
    bounded_result ← success (claims bounded true true true) defaults
    bounded_token ← id_token_of net bounded_result
    details ← lift (details_in bounded_token)
    properties ← lift (properties_of "otp" details)
    require (is_exactly "TOTP" (Dict.lookup "otp_algorithm" properties))
        "OTP values constraint did not match the verified algorithm."
    require (has_value equal_numbers (int (pos 6)) "otp_length" properties)
        "OTP minimum/maximum length constraints were not evaluated."
    require (has_value equal_numbers (int (pos 30)) "otp_time_to_live" properties)
        "OTP numeric lifetime constraints were not evaluated."

  -- The check at one location on the execution by email.
  unfoldable pub is_by_code : Dict (Dict Value) → String → Action (Lab W) Unit
  unfolding properties_of
  is_by_code details label = do
    properties ← lift (properties_of "email" details)
    require (is_exactly "code" (Dict.lookup "email_verification_method" properties))
        (label <> " did not preserve the email verification-method property.")

  unfoldable pub email_authenticator_sends_and_verifies_code : Action (Lab W) Unit
  unfolding is_by_code
  email_authenticator_sends_and_verifies_code = do
    result ←
        success
          (claims
            (method "email"
              (some (
                (
                  "email_verification_method",
                  object (("value", str "code") ∷ ("essential", bool true) ∷ []),
                )
                ∷ []))
              none)
            true true true)
          (record defaults { use_email_code = true })
    require (same_forms result.forms ("kc-otp-login-form" ∷ []))
        "Email authentication did not use the standard verification-code form."
    id_token ← id_token_of net result
    userinfo ← userinfo_of net result
    details ← lift (complete_event id_token userinfo ("email" ∷ []))
    is_by_code details.0 "ID Token"
    is_by_code details.1 "UserInfo"

  unfoldable pub repeated_method_executions_preserve_each_timestamp :
      (Value → Value → Bool) → Action (Lab W) Unit
  repeated_method_executions_preserve_each_timestamp equal_numbers = do
    result ←
        success
          (claims (combined "all_of" (method "pwd" none none ∷ method "pwd" none none ∷ [])) true
            true true)
          defaults
    require (same_forms result.forms ("kc-form-login" ∷ "kc-form-login" ∷ []))
        "Repeated password execution did not run twice."
    id_token ← id_token_of net result
    id_details ← lift (details_list id_token)
    userinfo ← userinfo_of net result
    userinfo_details ← lift (details_list userinfo)
    identifiers ← lift (traverse identifier_of id_details)
    require (same_value equal_numbers (array identifiers) (array (str "pwd" ∷ str "pwd" ∷ [])))
        "The complete event omitted one repeated password execution."
    times ← lift (traverse time_of id_details)
    delivered ← lift (traverse time_of userinfo_details)
    require (same_value equal_numbers (array times) (array delivered))
        "ID Token and UserInfo did not preserve repeated execution timestamps."

  -- `"amr_properties" in details[identifier]`
  abbrev has_properties : String → Dict (Dict Value) → Action (Lab W) Bool
  has_properties identifier details =
      lift (execution_of identifier details) >>= λ detail. pure (Dict.mem "amr_properties" detail)

  unfoldable pub independent_delivery_projections_preserve_the_complete_event : Action (Lab W) Unit
  unfolding request_of
  independent_delivery_projections_preserve_the_complete_event = do
    let password = method "pwd" (some (("pwd_derivation_algorithm", null) ∷ [])) none
    let one_time =
        method "otp"
          (some (
            ("otp_algorithm", object (("value", str "TOTP") ∷ ("essential", bool true) ∷ [])) ∷ []))
          none
    (result, id_token, userinfo) ←
        success_result net constants
          (("id_token", at_location (request_of password true))
            ∷ ("userinfo", at_location (request_of one_time true))
            ∷ [])
          ("kc-form-login" ∷ "kc-otp-login-form" ∷ [])
    details ← lift (complete_event id_token userinfo ("pwd" ∷ "otp" ∷ []))
    in_token ← lift (has_property "pwd" "pwd_derivation_algorithm" details.0)
    require in_token "ID Token omitted the password property it requested."
    leaked_otp ← has_properties "otp" details.0
    require (not leaked_otp) "ID Token disclosed an unrequested OTP property."
    in_userinfo ← lift (has_property "otp" "otp_algorithm" details.1)
    require in_userinfo "UserInfo omitted the OTP property it requested."
    leaked_password ← has_properties "pwd" details.1
    require (not leaked_password) "UserInfo disclosed an unrequested password property."
