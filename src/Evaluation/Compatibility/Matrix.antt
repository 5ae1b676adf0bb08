-- ===== src/Evaluation/Compatibility/Matrix.antt =====
-- `main` and `use_flow_without_planner` of evaluation/compatibility/oidc4ac-compatibility-matrix.py.
use keycloak_oidc4ac_lab.Prelude.{
  String, Bool, false, not, none, some, [], ◌∷◌, Result, ok, err, type_error, index_error,
  key_error, ◌==◌, ◌&&◌, if◌then◌else◌, is_empty, rsplit_head, ◌>>=◌,
}
use keycloak_oidc4ac_lab.Prelude.Dict
use keycloak_oidc4ac_lab.Prelude.Dict.{Dict}
use keycloak_oidc4ac_lab.Json.{Value, bool, str, arr, obj, nil, cons, entries, object, as_dict}
use keycloak_oidc4ac_lab.E2e.Scenarios.Sections.{has_key, needs_dict, details_in}

-- `value[name]`, of a dict
unfoldable pub item_at : String → Value → Result Value
item_at name (obj fs) = elim (Dict.lookup name (entries fs)) [
  | none ↦ err (key_error name)
  | some v ↦ ok v
]
item_at name _ = err type_error

-- `value[0]`, where the item is itself looked into: a text's first character has no items.
unfoldable pub first_item : Value → Result Value
first_item (arr nil) = err index_error
first_item (arr (cons v vs)) = ok v
first_item (obj fs) = err (key_error "0")
first_item (str s) = if is_empty s then err index_error else err type_error
first_item _ = err type_error

-- `section["amr_details"][0]["amr_identifier"] == identifier`
unfoldable pub reports : String → Value → Result Bool
unfolding item_at first_item
reports identifier section = item_at "amr_details" section >>= λ details.
    first_item details >>= λ detail.
    item_at "amr_identifier" detail >>= λ v. ok (elim v [ str s ↦ s == identifier | _ ↦ false ])

-- `name in metadata.get("claims_supported", [])`
unfoldable pub advertises : String → Value → Result Bool
unfolding has_key
advertises name metadata = needs_dict metadata >>= λ d. elim (Dict.lookup "claims_supported" d) [
  | none ↦ ok false
  | some v ↦ has_key name v
]

-- `metadata.get("amr_details_request_supported") is False`
unfoldable pub declines_requests : Value → Result Bool
declines_requests metadata = needs_dict metadata >>= λ d.
    ok (elim (Dict.lookup "amr_details_request_supported" d) [
      | none ↦ false
      | some v ↦ elim v [ bool b ↦ not b | _ ↦ false ]
    ])

-- `a and b`, where `b` is looked at only if `a` holds.
abbrev pub both : Result Bool → Result Bool → Result Bool
both first second = first >>= λ b. if b then second else ok false

-- `realm["browserFlow"] = "browser"`
unfoldable pub with_builtin_flow : Value → Result Value
with_builtin_flow realm = elim (as_dict realm) [
  | none ↦ err type_error
  | some d ↦ ok (object (Dict.insert "browserFlow" (str "browser") d))
]

-- The executions of an ID Token show a password and no proof of possession.
unfoldable pub executed_as_built_in : Value → Result Bool
executed_as_built_in id_token = details_in id_token >>= λ executed.
    ok (Dict.mem "pwd" executed && not (Dict.mem "pop" executed))

abbrev pub admin_password_grant : Dict String
admin_password_grant =
    ("grant_type", "password")
    ∷ ("client_id", "admin-cli")
    ∷ ("username", "admin")
    ∷ ("password", "admin")
    ∷ []

abbrev pub base_of : String → String
base_of issuer = rsplit_head "/realms/" issuer
