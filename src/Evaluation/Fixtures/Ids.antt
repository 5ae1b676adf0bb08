-- ===== src/Evaluation/Fixtures/Ids.antt =====
-- What `without_ids` of evaluation/benchmark/make-fixtures.py leaves of a realm.
use keycloak_oidc4ac_lab.Prelude.{◌≡◌, refl, false, ap, ◌==◌, Bool-cases, inl, inr}
use keycloak_oidc4ac_lab.Json.{
  Value, Items, Fields, null, bool, int, float, str, arr, obj, nil, cons, end, field,
}
use keycloak_oidc4ac_lab.Evaluation.Fixtures.{without_ids, without_ids_items, without_ids_fields}

-- No object inside the value, at any depth, has the key "id".
abbrev mutual
  pub HasNoIds : Value → Type 0
  HasNoIds (arr vs) = ItemsHaveNoIds vs
  HasNoIds (obj fs) = FieldsHaveNoIds fs
  HasNoIds null = Unit
  HasNoIds (bool b) = Unit
  HasNoIds (int n) = Unit
  HasNoIds (float s) = Unit
  HasNoIds (str s) = Unit

  ItemsHaveNoIds : Items → Type 0
  ItemsHaveNoIds nil = Unit
  ItemsHaveNoIds (cons v vs) = HasNoIds v × ItemsHaveNoIds vs

  FieldsHaveNoIds : Fields → Type 0
  FieldsHaveNoIds end = Unit
  FieldsHaveNoIds (field k v fs) = ((k == "id") ≡ false) × HasNoIds v × FieldsHaveNoIds fs

mutual
  unfolding without_ids without_ids_items without_ids_fields

  without_ids-HasNoIds : (v : Value) → HasNoIds (without_ids v)
  without_ids-HasNoIds (arr vs) = items_free vs
  without_ids-HasNoIds (obj fs) = fields_free fs
  without_ids-HasNoIds null = tt
  without_ids-HasNoIds (bool b) = tt
  without_ids-HasNoIds (int n) = tt
  without_ids-HasNoIds (float s) = tt
  without_ids-HasNoIds (str s) = tt

  items_free : (vs : Items) → ItemsHaveNoIds (without_ids_items vs)
  items_free nil = tt
  items_free (cons v vs) = (without_ids-HasNoIds v, items_free vs)

  fields_free : (fs : Fields) → FieldsHaveNoIds (without_ids_fields fs)
  fields_free end = tt
  fields_free (field k v fs) = elim (Bool-cases (k == "id")) [
    | inl e ↦ rw (e, without_ids_fields) (fields_free fs)
    | inr e ↦ rw (e, without_ids_fields) (e, without_ids-HasNoIds v, fields_free fs)
  ]

mutual
  unfolding without_ids without_ids_items without_ids_fields

  without_ids_keeps : (v : Value) → HasNoIds v → without_ids v ≡ v
  without_ids_keeps (arr vs) h = ap arr (items_kept vs h)
  without_ids_keeps (obj fs) h = ap obj (fields_kept fs h)
  without_ids_keeps null h = refl
  without_ids_keeps (bool b) h = refl
  without_ids_keeps (int n) h = refl
  without_ids_keeps (float s) h = refl
  without_ids_keeps (str s) h = refl

  items_kept : (vs : Items) → ItemsHaveNoIds vs → without_ids_items vs ≡ vs
  items_kept nil h = refl
  items_kept (cons v vs) h = let a = without_ids_keeps v h.0 in let b = items_kept vs h.1 in cc

  fields_kept : (fs : Fields) → FieldsHaveNoIds fs → without_ids_fields fs ≡ fs
  fields_kept end h = refl
  fields_kept (field k v fs) h =
      rw (h.0, without_ids_fields)
        (let a = without_ids_keeps v h.1 in let b = fields_kept fs h.2 in cc)

-- `without_ids` leaves no object with the key "id", at any depth, and a value that has none as it
-- is.
pub without_ids_lem : (v : Value) → HasNoIds (without_ids v) × (HasNoIds v → without_ids v ≡ v)
without_ids_lem v = (without_ids-HasNoIds v, without_ids_keeps v)
