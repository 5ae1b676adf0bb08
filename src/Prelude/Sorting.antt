-- ===== src/Prelude/Sorting.antt =====
-- `sorted`, with a test for the order; of texts, by code points.
pub mod Laws
use Prim.Native.Nat.{ℕ}
use Prim.Native.String.{String}
use mathlib.Core.Bool.{Bool, true, false}
use mathlib.Core.List.{List, [], ◌∷◌}
use mathlib.Core.Path.{◌≡◌, refl}
use text.Mathlib.Text.{◌==◌}
use keycloak_oidc4ac_lab.Prelude.Tests.{leb, ltb, nat_eq, if◌then◌else◌}
use keycloak_oidc4ac_lab.Prelude.Text.{codes}

-- `s <= t` on code points
abbrev pub le_codes : List ℕ → List ℕ → Bool
le_codes [] t = true
le_codes (a ∷ s) [] = false
le_codes (a ∷ s) (b ∷ t) = let rest = le_codes s t in if nat_eq a b then rest else ltb a b

module _ {ℓ} {A : Type ℓ} (le : A → A → Bool) where
  unfoldable pub insert : A → List A → List A
  insert x [] = x ∷ []
  insert x (y ∷ ys) = if le x y then x ∷ y ∷ ys else y ∷ insert x ys

  unfoldable pub sorted : List A → List A
  unfolding insert
  sorted [] = []
  sorted (x ∷ xs) = insert x (sorted xs)

abbrev pub le_text : String → String → Bool
le_text s t = le_codes (codes s) (codes t)
