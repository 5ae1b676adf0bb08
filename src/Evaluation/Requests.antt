-- ===== src/Evaluation/Requests.antt =====
-- The requests of the benchmarks, from the discovery document: evaluation/benchmark/browser_flow.py.
use keycloak_oidc4ac_lab.Prelude.{
  ℕ, String, true, none, some, List, [], ◌∷◌, map, ◌<>◌, codes, utf8_length, Result, ok, err,
  type_error, key_error, ◌>>=◌, traverse,
}
use keycloak_oidc4ac_lab.Prelude.Dict
use keycloak_oidc4ac_lab.Prelude.Dict.{Dict}
use keycloak_oidc4ac_lab.Json.{
  Value, null, bool, int, pos, array, object, as_list, as_str, JsonText,
}
use keycloak_oidc4ac_lab.E2e.Requests.{exactly, request_of, at_location}

abbrev pub max_age : ℕ
max_age = 3600

unfoldable pub compact_bytes : JsonText → Value → ℕ
compact_bytes json v = utf8_length (codes (json.dumps v))

unfoldable pub located : Dict Value → Dict Value
unfolding request_of
located expression =
    let request = request_of expression true in
    ("id_token", at_location request) ∷ ("userinfo", at_location request) ∷ []

-- The texts of `discovery.get(name, [])`. A value that is no list, or a member that cannot be a
-- key of a JSON object, raises.
abbrev text_of : Value → Result String
text_of v = elim (as_str v) [ none ↦ err type_error | some s ↦ ok s ]

unfoldable pub names_at : String → Dict Value → Result (List String)
names_at name discovery = elim (Dict.lookup name discovery) [
  | none ↦ ok []
  | some v ↦ elim (as_list v) [ none ↦ err type_error | some vs ↦ traverse text_of vs ]
]

-- `{name: None for name in names}`
unfoldable pub nulls : List String → Dict Value
nulls names = Dict.update [] (map (λ name. (name, null)) names)

abbrev add_properties : List String → Dict Value → Dict Value
add_properties [] d = d
add_properties (p ∷ ps) d = Dict.insert "amr_properties" (object (nulls (p ∷ ps))) d

unfoldable pub detailed_method : Dict Value → String → Result (Dict Value)
unfolding nulls
detailed_method discovery identifier = do
  metadata_names ← names_at (identifier <> "_metadata_supported") discovery
  let time = object (("essential", bool true) ∷ ("max_age", int (pos max_age)) ∷ [])
  let metadata = Dict.update (("time", time) ∷ []) (nulls metadata_names)
  properties ← names_at (identifier <> "_properties_supported") discovery
  ok (
      add_properties properties
        (("amr_identifier", exactly identifier) ∷ ("amr_metadata", object metadata) ∷ []))

unfoldable pub best_case : Dict Value → Result (Dict Value)
unfolding detailed_method located
best_case discovery = detailed_method discovery "pwd" >>= λ m. ok (located m)

-- `discovery["amr_identifiers_supported"]`
unfoldable pub identifiers_at : Dict Value → Result (List String)
identifiers_at discovery = elim (Dict.lookup "amr_identifiers_supported" discovery) [
  | none ↦ err (key_error "amr_identifiers_supported")
  | some v ↦ elim (as_list v) [ none ↦ err type_error | some vs ↦ traverse text_of vs ]
]

unfoldable pub worst_case : Dict Value → Result (Dict Value)
unfolding identifiers_at detailed_method located
worst_case discovery = do
  identifiers ← identifiers_at discovery
  methods ← traverse (detailed_method discovery) identifiers
  ok (located (("all_of", array (map object methods)) ∷ []))
