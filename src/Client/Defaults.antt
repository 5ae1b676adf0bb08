-- ===== src/Client/Defaults.antt =====
-- `DEFAULT_CLAIMS` of test-client/app.py, the request that the workbench offers first.
use keycloak_oidc4ac_lab.Prelude.{true, [], ◌∷◌}
use keycloak_oidc4ac_lab.Prelude.Dict.{Dict}
use keycloak_oidc4ac_lab.Json.{Value, null, bool, str, object}

abbrev password_details : Value
password_details = object (
    ("essential", bool true)
    ∷ ("amr_identifier", object (("value", str "pwd") ∷ []))
    ∷ ("amr_metadata", object (("time", object (("essential", bool true) ∷ [])) ∷ []))
    ∷ ("amr_properties", object (("pwd_derivation_algorithm", null) ∷ []))
    ∷ [])

abbrev pub default_claims : Dict Value
default_claims =
    ("id_token", object (("amr_details", password_details) ∷ []))
    ∷ ("userinfo", object (("amr_details", password_details) ∷ []))
    ∷ []
