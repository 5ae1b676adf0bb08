-- ===== src/E2e/Forms/Rendered.antt =====
-- `parse_forms` on a page of forms, between other tags.
use keycloak_oidc4ac_lab.Prelude.{
  String, ◌≡◌, Bool, false, Option, none, some, List, [], ◌∷◌, ◌++◌, All, is_empty, if◌then◌else◌,
  ◌==◌,
}
use keycloak_oidc4ac_lab.Prelude.Dict
use keycloak_oidc4ac_lab.Prelude.Dict.{Dict}
use keycloak_oidc4ac_lab.E2e.Forms.{Tag, start_tag, end_tag, Form, Forms}

-- What is between the tags of a form: a control, an input or a button, or another tag.
pub data Inner : Type 0 where
  control : (is_button : Bool) (name : String) (value : Option String) → Inner
  started : (tag : String) → List (String × Option String) → Inner
  ended : (tag : String) → Inner

-- The parts of a page: a form, or a tag outside of the forms.
pub data Part : Type 0 where
  shown : (id action : String) → List Inner → Part
  stray : Tag → Part

-- The tag's name is not that of a form, nor of a control.
abbrev pub IsOther : String → Type 0
IsOther tag = ((tag == "form") ≡ false) × ((tag == "input") ≡ false) × ((tag == "button") ≡ false)

abbrev pub IsInner : Inner → Type 0
IsInner (Inner.control is_button name value) = is_empty name ≡ false
IsInner (Inner.started tag attributes) = IsOther tag
IsInner (Inner.ended tag) = (tag == "form") ≡ false

-- A stray tag starts no form; a form has an id.
abbrev pub IsPart : Part → Type 0
IsPart (Part.shown id action inner) = (is_empty id ≡ false) × All IsInner inner
IsPart (Part.stray (start_tag tag attributes)) = (tag == "form") ≡ false
IsPart (Part.stray (end_tag tag)) = Unit

abbrev pub inner_tag : Inner → Tag
inner_tag (Inner.control is_button name value) =
    start_tag (if is_button then "button" else "input")
      (("type", some "hidden") ∷ ("name", some name) ∷ ("value", value) ∷ [])
inner_tag (Inner.started tag attributes) = start_tag tag attributes
inner_tag (Inner.ended tag) = end_tag tag

abbrev pub inner_tags : List Inner → List Tag
inner_tags [] = []
inner_tags (x ∷ xs) = inner_tag x ∷ inner_tags xs

abbrev pub page_tags : List Part → List Tag
page_tags [] = []
page_tags (Part.shown id action inner ∷ parts) =
    start_tag "form" (("id", some id) ∷ ("method", some "post") ∷ ("action", some action) ∷ [])
    ∷ (inner_tags inner ++ (end_tag "form" ∷ page_tags parts))
page_tags (Part.stray tag ∷ parts) = tag ∷ page_tags parts

-- The controls of a form, a later one of a name in place of an earlier one.
abbrev pub values_of : Dict (Option String) → List Inner → Dict (Option String)
values_of values [] = values
values_of values (Inner.control is_button name value ∷ inner) =
    values_of (Dict.insert name value values) inner
values_of values (_ ∷ inner) = values_of values inner

-- The forms of a page by their ids, a later one of an id in place of an earlier one.
abbrev pub forms_on : Dict Form → List Part → Dict Form
forms_on forms [] = forms
forms_on forms (Part.shown id action inner ∷ parts) =
    forms_on (Dict.insert id (record { action = some action; values = values_of [] inner }) forms)
      parts
forms_on forms (Part.stray tag ∷ parts) = forms_on forms parts

abbrev with_values : Dict (Option String) → Forms → Forms
with_values values p = record p { current_values = values }

module _ (id action : String) (inner : List Inner) (p : Forms) where
  -- The parser within the form, and after it.
  abbrev within : Forms
  within = record {
    forms = p.forms;
    current_id = some id;
    current_action = some action;
    current_values = [];
  }

  abbrev beyond : Forms
  beyond = record {
    forms = Dict.insert id (record { action = some action; values = values_of [] inner }) p.forms;
    current_id = none;
    current_action = some "";
    current_values = [];
  }
