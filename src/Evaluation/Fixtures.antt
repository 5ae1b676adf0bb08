-- ===== src/Evaluation/Fixtures.antt =====
-- The benchmark realm fixtures: evaluation/benchmark/make-fixtures.py.
pub mod Ids
use text.Mathlib.Text.{starts_with}
use keycloak_oidc4ac_lab.Prelude.{
  ℕ, String, Bool, true, false, not, Option, none, some, List, [], ◌∷◌, ◌++◌, map, ◌==◌, select,
  is_empty, Result, ok, err, type_error, attribute_error, key_error, ◌>>=◌, traverse, if◌then◌else◌,
}
use keycloak_oidc4ac_lab.Prelude.Dict
use keycloak_oidc4ac_lab.Prelude.Dict.{Dict}
use keycloak_oidc4ac_lab.Json.{
  Value, Items, Fields, null, bool, int, float, pos, str, arr, obj, nil, cons, end, field, array,
  object, as_dict, as_list,
}

abbrev pub benchmark_redirects : List Value
benchmark_redirects =
    str "http://localhost:5005/*"
    ∷ str "http://localhost:5006/*"
    ∷ str "http://localhost:5007/*"
    ∷ []

abbrev text_or_null : Option String → Value
text_or_null none = null
text_or_null (some s) = str s

-- `flow is not None` and the truth of `flow` differ at the empty text.
abbrev given : Option String → Bool
given none = false
given (some s) = true

abbrev truthy : Option String → Bool
truthy none = false
truthy (some s) = not (is_empty s)

unfoldable pub execution : ℕ → Option String → Option String → String → Dict Value
execution priority authenticator flow requirement =
    let step : Dict Value =
      ("authenticatorFlow", bool (given flow))
      ∷ ("requirement", str requirement)
      ∷ ("priority", int (pos priority))
      ∷ ("userSetupAllowed", bool false)
      ∷ [] in
    if truthy flow
    then Dict.insert "flowAlias" (text_or_null flow) step
    else Dict.insert "authenticator" (text_or_null authenticator) step

abbrev flow_of : String → String → Bool → List (Dict Value) → Value
flow_of alias description top_level executions = object (
    ("alias", str alias)
    ∷ ("description", str description)
    ∷ ("providerId", str "basic-flow")
    ∷ ("topLevel", bool top_level)
    ∷ ("builtIn", bool false)
    ∷ ("authenticationExecutions", array (map object executions))
    ∷ [])

unfoldable pub browser_flows : List Value
unfolding execution
browser_flows =
    flow_of "benchmark browser" "Laboratory browser flow without the OIDC4AC planner." true (
      execution 10 (some "auth-cookie") none "ALTERNATIVE"
      ∷ execution 20 none (some "benchmark browser forms") "ALTERNATIVE"
      ∷ [])
    ∷ flow_of "benchmark browser forms" "Username form followed by a password form." false (
        execution 10 (some "auth-username-form") none "REQUIRED"
        ∷ execution 20 (some "auth-password-form") none "REQUIRED"
        ∷ [])
    ∷ []

abbrev is_kept : String × Value → Bool
is_kept (key, value) = not (starts_with key "oidc4ac.")

abbrev pub dict_at : String → Dict Value → Result (Dict Value)
dict_at name d = elim (Dict.lookup name d) [
  | none ↦ ok []
  | some v ↦ elim (as_dict v) [ none ↦ err attribute_error | some e ↦ ok e ]
]

abbrev pub list_at : String → Dict Value → Result (List Value)
list_at name d = elim (Dict.lookup name d) [
  | none ↦ ok []
  | some v ↦ elim (as_list v) [ none ↦ err type_error | some vs ↦ ok vs ]
]

abbrev is_text : String → Value → Bool
is_text s (str t) = t == s
is_text s _ = false

-- The loop's body: the redirect URIs of the laboratory's own client are extended.
unfoldable pub plain_client : Value → Result Value
plain_client v = elim (as_dict v) [
  | none ↦ err type_error
  | some client ↦ elim (Dict.lookup "clientId" client) [
    | none ↦ err (key_error "clientId")
    | some id ↦
        if is_text "oidc4ac-test-client" id
        then (list_at "redirectUris" client >>= λ uris.
            ok (object (Dict.insert "redirectUris" (array (uris ++ benchmark_redirects)) client)))
        else ok (object client)
  ]
]

-- The clients are changed in place; the copy is deep, so the argument stays as it is.
abbrev with_clients : List Value → Dict Value → Dict Value
with_clients clients d = elim (Dict.lookup "clients" d) [
  | none ↦ d
  | some v ↦ Dict.insert "clients" (array clients) d
]

unfoldable pub plain : Dict Value → Result (Dict Value)
unfolding plain_client browser_flows
plain realm = do
  let popped = Dict.remove "authenticatorConfig" realm
  let flows = Dict.insert "authenticationFlows" (array browser_flows) popped
  let bound = Dict.insert "browserFlow" (str "benchmark browser") flows
  attributes ← dict_at "attributes" bound
  let kept = Dict.insert "attributes" (object (select is_kept attributes)) bound
  clients ← list_at "clients" kept
  changed ← traverse plain_client clients
  ok (with_clients changed kept)

unfoldable mutual
  pub without_ids : Value → Value
  without_ids (arr vs) = arr (without_ids_items vs)
  without_ids (obj fs) = obj (without_ids_fields fs)
  without_ids null = null
  without_ids (bool b) = bool b
  without_ids (int n) = int n
  without_ids (float s) = float s
  without_ids (str s) = str s

  pub without_ids_items : Items → Items
  without_ids_items nil = nil
  without_ids_items (cons v vs) = cons (without_ids v) (without_ids_items vs)

  pub without_ids_fields : Fields → Fields
  without_ids_fields end = end
  without_ids_fields (field k v fs) =
      let rest = without_ids_fields fs in
      let item = without_ids v in if k == "id" then rest else field k item rest

-- The two fixtures that `main` writes.
unfoldable pub disabled : Dict Value → Result (Dict Value)
disabled d = elim (Dict.lookup "attributes" d) [
  | none ↦ err (key_error "attributes")
  | some v ↦ elim (as_dict v) [
    | none ↦ err type_error
    | some attributes ↦ ok (
        Dict.insert "attributes" (object (Dict.insert "oidc4ac.enabled" (str "false") attributes))
          d)
  ]
]

abbrev as_fields : Value → Dict Value
as_fields v = elim (as_dict v) [ none ↦ [] | some d ↦ d ]

unfoldable pub fixtures : Dict Value → Result (Dict Value × Dict Value)
unfolding plain without_ids disabled
fixtures realm = do
  plain_realm ← plain realm
  let renamed =
      Dict.insert "realm" (str "oidc4ac-off") (as_fields (without_ids (object plain_realm)))
  realm_disabled ← disabled renamed
  ok (plain_realm, realm_disabled)
