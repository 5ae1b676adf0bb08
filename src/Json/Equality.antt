-- ===== src/Json/Equality.antt =====
-- Python's `==` on JSON values. The comparison of two numbers, one of which may be a bool or a float,
-- is given.
use mathlib.Core.Bool.{Bool, true, false, ◌&&◌}
use mathlib.Core.Option.{none, some}
use keycloak_oidc4ac_lab.Prelude.{length, nat_eq, ◌==◌}
use keycloak_oidc4ac_lab.Prelude.Dict
use keycloak_oidc4ac_lab.Prelude.Dict.{Dict}
use keycloak_oidc4ac_lab.Json.Defs.{
  Value, null, bool, int, float, str, arr, obj, Items, nil, cons, Fields, end, field, entries,
}

abbrev is_number : Value → Bool
is_number (bool b) = true
is_number (int n) = true
is_number (float text) = true
is_number _ = false

module _ (equal_numbers : Value → Value → Bool) where
  unfoldable mutual
    -- Two dicts are equal whatever the order of their items.
    pub same_value : Value → Value → Bool
    same_value null w = elim w [ null ↦ true | _ ↦ false ]
    same_value (str s) w = elim w [ str t ↦ s == t | _ ↦ false ]
    same_value (arr vs) w = elim w [ arr ws ↦ same_items vs ws | _ ↦ false ]
    same_value (obj fs) w = elim w [
      | obj gs ↦ nat_eq (length (entries fs)) (length (entries gs)) && same_fields fs (entries gs)
      | _ ↦ false
    ]
    same_value v w = is_number w && equal_numbers v w

    pub same_items : Items → Items → Bool
    same_items nil ws = elim ws [ nil ↦ true | _ ↦ false ]
    same_items (cons v vs) ws = elim ws [
      | nil ↦ false
      | cons w others ↦ same_value v w && same_items vs others
    ]

    pub same_fields : Fields → Dict Value → Bool
    same_fields end d = true
    same_fields (field k v fs) d = elim (Dict.lookup k d) [
      | none ↦ false
      | some w ↦ same_value v w && same_fields fs d
    ]
