-- ===== src/E2e/Forms.antt =====
-- The parser of Keycloak's login pages, `Form` and `Forms` of e2e/http/run.py.
pub mod Rendered
use keycloak_oidc4ac_lab.Prelude.{
  String, Bool, true, false, Option, none, some, List, [], ◌∷◌, ◌==◌, ◌||◌, is_empty, if◌then◌else◌,
}
use keycloak_oidc4ac_lab.Prelude.Dict
use keycloak_oidc4ac_lab.Prelude.Dict.{Dict}

-- An attribute without a value has the value None.
abbrev pub Attributes : Type 0
Attributes = Dict (Option String)

-- What `html.parser.HTMLParser` reports, in the order of the page.
pub data Tag : Type 0 where
  start_tag : String → List (String × Option String) → Tag
  end_tag : String → Tag

pub record Form : Type 0 where
  pub action : Option String
  pub values : Dict (Option String)

pub record Forms : Type 0 where
  pub forms : Dict Form
  pub current_id : Option String
  pub current_action : Option String
  pub current_values : Dict (Option String)

abbrev pub init : Forms
init = record { forms = []; current_id = none; current_action = some ""; current_values = [] }

-- `attributes.get(name)`
abbrev pub attribute : String → Attributes → Option String
attribute name attributes = elim (Dict.lookup name attributes) [ none ↦ none | some v ↦ v ]

-- `attributes.get(name, "")`
abbrev pub attribute_or_empty : String → Attributes → Option String
attribute_or_empty name attributes = elim (Dict.lookup name attributes) [
  | none ↦ some ""
  | some v ↦ v
]

-- A text that is there and is not empty.
abbrev pub named : Option String → Option String
named none = none
named (some s) = if is_empty s then none else some s

-- A control of the form that is open, if it has a name.
unfoldable pub add_control : Attributes → Forms → Forms
add_control attributes p = elim (named (attribute "name" attributes)) [
  | none ↦ p
  | some name ↦ record p {
    current_values = Dict.insert name (attribute_or_empty "value" attributes) p.current_values;
  }
]

abbrev is_control : String → Bool
is_control tag = tag == "input" || tag == "button"

unfoldable pub handle_starttag : String → List (String × Option String) → Forms → Forms
unfolding add_control
handle_starttag tag attrs p =
    let attributes = Dict.update [] attrs in
    if tag == "form"
    then record p {
      current_id = attribute "id" attributes;
      current_action = attribute_or_empty "action" attributes;
      current_values = [];
    }
    else if is_control tag
    then elim (named p.current_id) [ none ↦ p | some id ↦ add_control attributes p ]
    else p

-- The form that was open is recorded under its id.
abbrev close_form : String → Forms → Forms
close_form id p = record {
  forms = Dict.insert id (record { action = p.current_action; values = p.current_values }) p.forms;
  current_id = none;
  current_action = some "";
  current_values = [];
}

unfoldable pub handle_endtag : String → Forms → Forms
handle_endtag tag p =
    if tag == "form" then elim (named p.current_id) [ none ↦ p | some id ↦ close_form id p ] else p

unfoldable pub feed : Forms → List Tag → Forms
unfolding handle_starttag handle_endtag
feed p [] = p
feed p (start_tag tag attrs ∷ tags) = feed (handle_starttag tag attrs p) tags
feed p (end_tag tag ∷ tags) = feed (handle_endtag tag p) tags

unfoldable pub parse_forms : List Tag → Dict Form
unfolding feed
parse_forms tags = (feed init tags).forms
