-- ===== src/Client/Discovery.antt =====
-- The discovery document of the issuer, as test-client/app.py reads and normalises it.
pub mod Methods
use text.Mathlib.Text.{starts_with}
use keycloak_oidc4ac_lab.Prelude.{
  String, Bool, true, false, Option, none, some, List, [], ◌∷◌, map, ◌==◌, ◌||◌, ◌<>◌,
  if◌then◌else◌, select, Result, ok, err, attribute_error, request_exception, ◌>>=◌,
}
use keycloak_oidc4ac_lab.Prelude.Dict
use keycloak_oidc4ac_lab.Prelude.Dict.{Dict}
use keycloak_oidc4ac_lab.Prelude.Sorting
use keycloak_oidc4ac_lab.Json.{Value, str, arr, items, as_dict, as_list, array, object, as_str}

-- `document = issuer_discovery_document()` is used as a dict: another JSON value has no `get` or
-- `items`.
abbrev pub document_of : Result Value → Result (Dict Value)
document_of response =
    response >>= λ v. elim (as_dict v) [ none ↦ err attribute_error | some d ↦ ok d ]

abbrev is_disclosed : String → Bool
is_disclosed name =
    name == "claims_supported"
    || starts_with name "amr_"
    || starts_with name "pwd_"
    || starts_with name "otp_"
    || starts_with name "pop_"

unfoldable pub discovery_metadata : Result Value → Result (Dict Value)
discovery_metadata response =
    document_of response >>= λ document. ok (select (λ item. is_disclosed item.0) document)

-- `document.get(name, [])`, replaced by `[]` where it is no list
unfoldable pub list_member : Dict Value → String → List Value
list_member document name = elim (Dict.lookup name document) [
  | none ↦ []
  | some v ↦ elim (as_list v) [ none ↦ [] | some vs ↦ vs ]
]

abbrev pub Suggestions : Type 0
Suggestions = Dict (List Value)

-- One of the two inner loops: a dict from each text among the names to its advertised values.
unfoldable pub suggestions : Dict Value → Suggestions → List Value → Suggestions
suggestions document acc [] = acc
suggestions document acc (str name ∷ names) =
    suggestions document (Dict.insert name (list_member document (name <> "_values_supported")) acc)
      names
suggestions document acc (_ ∷ names) = suggestions document acc names

pub record Method : Type 0 where
  pub metadata : Suggestions
  pub properties : Suggestions

unfoldable pub method_of : Dict Value → String → Method
method_of document identifier = record {
  metadata = suggestions document [] (list_member document (identifier <> "_metadata_supported"));
  properties =
      suggestions document [] (list_member document (identifier <> "_properties_supported"));
}

-- The outer loop over `amr_identifiers_supported`.
unfoldable pub methods_from : Dict Value → Dict Method → List Value → Dict Method
methods_from document acc [] = acc
methods_from document acc (str identifier ∷ identifiers) =
    methods_from document (Dict.insert identifier (method_of document identifier) acc) identifiers
methods_from document acc (_ ∷ identifiers) = methods_from document acc identifiers

pub record Builder : Type 0 where
  pub identifiers : List String
  pub methods : Dict Method

unfoldable pub builder_of : Dict Value → Builder
builder_of document =
    let methods = methods_from document [] (list_member document "amr_identifiers_supported") in
    record { identifiers = Sorting.sorted Sorting.le_text (Dict.keys methods); methods = methods }

unfoldable pub builder_discovery_metadata : Result Value → Result Builder
builder_discovery_metadata response = document_of response >>= λ document. ok (builder_of document)

-- `requests.RequestException` is caught: the page is then HTTP 502.
abbrev answered : Result Builder → Result (Option Builder)
answered (ok builder) = ok (some builder)
answered (err request_exception) = ok none
answered (err e) = err e

-- The handler of /discovery.
unfoldable pub discovery : Result Value → Result (Option Builder)
unfolding builder_discovery_metadata
discovery response = answered (builder_discovery_metadata response)
