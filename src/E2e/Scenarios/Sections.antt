-- ===== src/E2e/Scenarios/Sections.antt =====
-- What the scenarios of e2e/http/run.py read of a section of the result page.
use keycloak_oidc4ac_lab.Prelude.{
  String, Bool, true, false, Option, none, some, List, [], ◌∷◌, ◌==◌, contains, map, Result, ok,
  err, type_error, attribute_error, key_error, ◌>>=◌, if◌then◌else◌,
}
use keycloak_oidc4ac_lab.Prelude.Dict
use keycloak_oidc4ac_lab.Prelude.Dict.{Dict}
use keycloak_oidc4ac_lab.Prelude.Action.{Action, lift}
use keycloak_oidc4ac_lab.Json.{Value, str, arr, obj, items, entries, object, array, as_dict}
use keycloak_oidc4ac_lab.E2e.Lab.{Network, Lab}
use keycloak_oidc4ac_lab.E2e.Pages.{AuthorizationResult, json_section}
use keycloak_oidc4ac_lab.E2e.Details.{detail_list, detail_map, assert_complete_event}

abbrev is_item : String → List Value → Bool
is_item name [] = false
is_item name (str s ∷ vs) = if s == name then true else is_item name vs
is_item name (_ ∷ vs) = is_item name vs

-- `name in value`
unfoldable pub has_key : String → Value → Result Bool
has_key name (obj fs) = ok (Dict.mem name (entries fs))
has_key name (arr vs) = ok (is_item name (items vs))
has_key name (str s) = ok (contains name s)
has_key name _ = err type_error

-- `name in first and name in second`, of two sections that are both read before.
unfoldable pub in_both : String → Result Value → Result Value → Result Bool
unfolding has_key
in_both name first second = first >>= λ v.
    second >>= λ w. has_key name v >>= λ found. if found then has_key name w else ok false

-- A value that is used as a dict.
abbrev pub needs_dict : Value → Result (Dict Value)
needs_dict v = elim (as_dict v) [ none ↦ err attribute_error | some d ↦ ok d ]

-- `detail_map(section)`
abbrev pub details_in : Value → Result (Dict (Dict Value))
details_in v = needs_dict v >>= detail_map

-- `assert_complete_event(id_token, userinfo, expected)`
abbrev pub complete_event :
    Value → Value → List String → Result (Dict (Dict Value) × Dict (Dict Value))
complete_event id_token userinfo expected =
    needs_dict id_token >>= λ d. needs_dict userinfo >>= λ e. assert_complete_event d e expected

-- `details[identifier]`
abbrev pub execution_of : String → Dict (Dict Value) → Result (Dict Value)
execution_of identifier details = elim (Dict.lookup identifier details) [
  | none ↦ err (key_error identifier)
  | some detail ↦ ok detail
]

-- `value[name]`
abbrev pub indexed : String → Value → Result Value
indexed name v = elim (as_dict v) [
  | none ↦ err type_error
  | some d ↦ elim (Dict.lookup name d) [ none ↦ err (key_error name) | some w ↦ ok w ]
]

-- `details[identifier].get("amr_properties", {})`
unfoldable pub properties_of : String → Dict (Dict Value) → Result (Dict Value)
properties_of identifier details = execution_of identifier details >>= λ detail.
    elim (Dict.lookup "amr_properties" detail) [ none ↦ ok [] | some v ↦ needs_dict v ]

-- `detail_list(section)`
abbrev pub details_list : Value → Result (List Value)
details_list section = needs_dict section >>= detail_list

-- `details[identifier].get("amr_properties", {})` has the name
abbrev pub has_property : String → String → Dict (Dict Value) → Result Bool
has_property identifier name details = execution_of identifier details >>= λ detail.
    elim (Dict.lookup "amr_properties" detail) [ none ↦ ok false | some v ↦ has_key name v ]

-- `[detail["amr_identifier"] for detail in details]`
abbrev pub identifier_of : Value → Result Value
identifier_of detail = indexed "amr_identifier" detail

-- `… == text`
abbrev pub is_exactly : String → Option Value → Bool
is_exactly text (some (str s)) = s == text
is_exactly text _ = false

-- `{operator: [expression, …]}`
abbrev pub combined : String → List (Dict Value) → Dict Value
combined operator expressions = (operator, array (map object expressions)) ∷ []

module _ {W : Type 0} (net : Network W) where
  abbrev pub id_token_of : AuthorizationResult → Action (Lab W) Value
  id_token_of result = lift (json_section net result "Verified ID Token")

  abbrev pub userinfo_of : AuthorizationResult → Action (Lab W) Value
  userinfo_of result = lift (json_section net result "Access-token-bound UserInfo")

  abbrev pub access_token_of : AuthorizationResult → Action (Lab W) Value
  access_token_of result = lift (json_section net result "Verified Access Token (claims only)")
