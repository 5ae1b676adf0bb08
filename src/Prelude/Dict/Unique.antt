-- ===== src/Prelude/Dict/Unique.antt =====
-- Dictionaries that hold each key once, as Python's do, and what their operations do to them.
use keycloak_oidc4ac_lab.Prelude.Tests.{if◌then◌else◌, Bool-cases}
use Prim.Native.String.{String}
use mathlib.Core.Logic.{◌⊎◌, inl, inr}
use mathlib.Core.Bool.{true, false, ◌||◌}
use mathlib.Core.Option.{none, some}
use mathlib.Core.List.{[], ◌∷◌}
use mathlib.Core.Path.{◌≡◌, refl}
use native.Mathlib.Omega.{arith}
use text.Mathlib.Text.{◌==◌}
use text.Mathlib.TextEquality.{eq_iff}
use keycloak_oidc4ac_lab.Prelude.Dict.{
  Dict, lookup, mem, insert, remove, keys, is_member, lookup-insert,
}

module _ {ℓ} {V : Type ℓ} where
  abbrev pub IsUnique : Dict V → Type 0
  IsUnique [] = Unit
  IsUnique ((k, v) ∷ d) = (mem k d ≡ false) × IsUnique d

  pub mem-insert :
      (k j : String) (v : V) (d : Dict V) → mem j (insert k v d) ≡ ((k == j) || mem j d)
  unfolding mem insert
  mem-insert k j v [] = ground arith
  mem-insert k j v ((i, w) ∷ d) =
      ground (arith, eq_iff k j, eq_iff i k, eq_iff i j, mem-insert k j v d)

  pub mem-remove :
      (k j : String) (d : Dict V) → mem j (remove k d) ≡ (if k == j then false else mem j d)
  unfolding mem remove
  mem-remove k j [] = ground arith
  mem-remove k j ((i, w) ∷ d) = ground (arith, eq_iff k j, eq_iff i k, eq_iff i j, mem-remove k j d)

  pub lookup_of_not_mem : (k : String) (d : Dict V) → mem k d ≡ false → lookup k d ≡ none
  unfolding mem lookup
  lookup_of_not_mem k [] h = refl
  lookup_of_not_mem k ((j, v) ∷ d) h = ground (arith, lookup_of_not_mem k d)

  pub insert-IsUnique : (k : String) (v : V) (d : Dict V) → IsUnique d → IsUnique (insert k v d)
  unfolding insert mem
  insert-IsUnique k v [] h = (refl, tt)
  insert-IsUnique k v ((j, w) ∷ d) h =
      ground (arith, insert-IsUnique k v d h.1, mem-insert k j v d, eq_iff k j, eq_iff j k)

  pub remove-IsUnique : (k : String) (d : Dict V) → IsUnique d → IsUnique (remove k d)
  unfolding remove
  remove-IsUnique k [] h = tt
  remove-IsUnique k ((j, w) ∷ d) h = ground (arith, remove-IsUnique k d h.1, mem-remove k j d)

  pub is_member-keys : (k : String) (d : Dict V) → is_member k (keys d) ≡ mem k d
  unfolding keys mem
  is_member-keys k [] = refl
  is_member-keys k ((j, v) ∷ d) = ground (arith, is_member-keys k d)

  pub mem_of_lookup : (k : String) (v : V) (d : Dict V) → lookup k d ≡ some v → mem k d ≡ true
  unfolding mem lookup
  mem_of_lookup k v [] h = ground arith
  mem_of_lookup k v ((j, w) ∷ d) h = ground (arith, mem_of_lookup k v d)

-- What is found after a write is what was written, or was there before.
pub entry_of_insert {ℓ} :
    {V : Type ℓ} (k j : String) (v w : V) (d : Dict V)
    → lookup j (insert k v d) ≡ some w
    → (v ≡ w) ⊎ (lookup j d ≡ some w)
entry_of_insert k j v w d h = elim (Bool-cases (k == j)) [
  | inl same ↦ inl (ground (arith, lookup-insert k j v d))
  | inr other ↦ inr (ground (arith, lookup-insert k j v d))
]
