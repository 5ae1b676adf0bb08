-- ===== src/Json/Defs.antt =====
-- JSON values as the program handles them, with the tests and accesses of the source.
use keycloak_oidc4ac_lab.Prelude.{
  ℕ, String, Bool, Option, none, some, List, [], ◌∷◌, ◌≡◌, refl, Result, ok, err, attribute_error,
}
use keycloak_oidc4ac_lab.Prelude.Dict
use keycloak_oidc4ac_lab.Prelude.Dict.{Dict}

pub data ℤ : Type 0 where
  pos : ℕ → ℤ
  negsuc : ℕ → ℤ

-- A float is kept as the text that `repr` gives: the program never computes with one that it reads.
mutual
  pub data Value : Type 0 where
    null : Value
    bool : Bool → Value
    int : ℤ → Value
    float : String → Value
    str : String → Value
    arr : Items → Value
    obj : Fields → Value

  pub data Fields : Type 0 where
    field : String → Value → Fields → Fields
    end : Fields

  pub data Items : Type 0 where
    cons : Value → Items → Items
    nil : Items

abbrev pub items : Items → List Value
items nil = []
items (cons v vs) = v ∷ items vs

abbrev pub of_items : List Value → Items
of_items [] = nil
of_items (v ∷ vs) = cons v (of_items vs)

abbrev pub entries : Fields → Dict Value
entries end = []
entries (field k v fs) = (k, v) ∷ entries fs

abbrev pub of_entries : Dict Value → Fields
of_entries [] = end
of_entries ((k, v) ∷ d) = field k v (of_entries d)

pub entries-of_entries : (d : Dict Value) → entries (of_entries d) ≡ d
entries-of_entries [] = refl
entries-of_entries ((k, v) ∷ d) = λ i. (k, v) ∷ entries-of_entries d i

pub items-of_items : (vs : List Value) → items (of_items vs) ≡ vs
items-of_items [] = refl
items-of_items (v ∷ vs) = λ i. v ∷ items-of_items vs i

-- A list and a dict written out.
abbrev pub array : List Value → Value
array vs = arr (of_items vs)

abbrev pub object : Dict Value → Value
object d = obj (of_entries d)

-- `isinstance(v, dict)`, with the dict
abbrev pub as_dict : Value → Option (Dict Value)
as_dict (obj fs) = some (entries fs)
as_dict _ = none

-- `isinstance(v, list)`, with the list
abbrev pub as_list : Value → Option (List Value)
as_list (arr vs) = some (items vs)
as_list _ = none

-- `isinstance(v, str)`, with the text
abbrev pub as_str : Value → Option String
as_str (str s) = some s
as_str _ = none

-- `v.get(k)`, which raises where `v` is no dict; `none` is a missing key.
abbrev pub get : String → Value → Result (Option Value)
get k v = elim (as_dict v) [ none ↦ err attribute_error | some d ↦ ok (Dict.lookup k d) ]

pub of_entries-entries : (fs : Fields) → of_entries (entries fs) ≡ fs
of_entries-entries end = refl
of_entries-entries (field k v fs) = λ i. field k v (of_entries-entries fs i)
