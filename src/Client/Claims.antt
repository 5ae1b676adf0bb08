-- ===== src/Client/Claims.antt =====
-- `parse_claims` of test-client/app.py: a Claim Request Object written by a user.
pub mod Accepted
use keycloak_oidc4ac_lab.Prelude.{
  ℕ, String, Bool, Option, none, some, if◌then◌else◌, ltb, codes, is_blank, utf8_length, ◌≡◌, refl,
  ◌⊎◌, inl, inr, Error,
}
use keycloak_oidc4ac_lab.Prelude.Dict.{Dict}
use keycloak_oidc4ac_lab.Json.{Value, as_dict, Decoded, value, decode_error, raised, JsonText}

-- The messages of `ClaimsValidationError`; `invalid_json` has the line and the column.
pub data ClaimsError : Type 0 where
  missing too_long not_an_object : ClaimsError
  invalid_json : ℕ → ℕ → ClaimsError

pub data Parsed : Type 0 where
  claims : Dict Value → Parsed
  rejected : ClaimsError → Parsed
  -- an exception of `json.loads` that is no `JSONDecodeError`, which `parse_claims` lets through
  escaped : Error → Parsed

abbrev pub size_limit : ℕ
size_limit = 64000

-- `if not isinstance(claims, dict): raise …`
abbrev require_object : Value → Parsed
require_object v = elim (as_dict v) [ none ↦ rejected not_an_object | some d ↦ claims d ]

abbrev pub checked : Decoded → Parsed
checked (value v) = require_object v
checked (decode_error line column) = rejected (invalid_json line column)
checked (raised error) = escaped error

unfoldable pub parse_claims : JsonText → Option String → Parsed
parse_claims json none = rejected missing
parse_claims json (some raw) =
    if is_blank (codes raw)
    then rejected missing
    else if ltb size_limit (utf8_length (codes raw))
    then rejected too_long
    else checked (json.loads (codes raw))

pub Parsed-cases :
    (p : Parsed)
    → ((d : Dict Value) × (p ≡ claims d))
      ⊎ (((e : ClaimsError) × (p ≡ rejected e)) ⊎ ((e : Error) × (p ≡ escaped e)))
Parsed-cases (claims d) = inl (d, refl)
Parsed-cases (rejected e) = inr (inl (e, refl))
Parsed-cases (escaped e) = inr (inr (e, refl))
