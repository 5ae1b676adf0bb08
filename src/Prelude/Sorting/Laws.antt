-- ===== src/Prelude/Sorting/Laws.antt =====
-- `sorted` returns the same elements in ascending order.
use Prim.Native.Nat.{ℕ, ◌+◌}
use Prim.Native.String.{String}
use mathlib.Core.Bool.{Bool, true, false}
use mathlib.Core.List.{List, [], ◌∷◌}
use mathlib.Core.Path.{◌≡◌, refl}
use native.Mathlib.Omega.{arith}
use keycloak_oidc4ac_lab.Prelude.Text.{codes}
use keycloak_oidc4ac_lab.Prelude.Lists.{length, count_of}
use keycloak_oidc4ac_lab.Prelude.Dict.{is_member}
use keycloak_oidc4ac_lab.Prelude.Sorting.{le_codes, le_text, insert, sorted}

-- Each element is at most the next one.
abbrev pub IsAscending {ℓ} : {A : Type ℓ} → (A → A → Bool) → List A → Type 0
IsAscending le [] = Unit
IsAscending le (x ∷ []) = Unit
IsAscending le (x ∷ y ∷ ys) = (le x y ≡ true) × IsAscending le (y ∷ ys)

module _ {ℓ} {A : Type ℓ} (le : A → A → Bool)
    (total : (x y : A) → le x y ≡ false → le y x ≡ true) where
  insert-IsAscending : (x : A) (ys : List A) → IsAscending le ys → IsAscending le (insert le x ys)
  unfolding insert
  insert-IsAscending x [] h = tt
  insert-IsAscending x (y ∷ []) h = ground (arith, total x y)
  insert-IsAscending x (y ∷ z ∷ zs) h =
      ground (arith, total x y, total x z, insert-IsAscending x (z ∷ zs) h.1)

  pub sorted-IsAscending : (xs : List A) → IsAscending le (sorted le xs)
  unfolding sorted
  sorted-IsAscending [] = tt
  sorted-IsAscending (x ∷ xs) = insert-IsAscending x (sorted le xs) (sorted-IsAscending xs)

module _ {ℓ} {A : Type ℓ} (le : A → A → Bool) where
  length-insert : (x : A) (ys : List A) → length (insert le x ys) ≡ length ys + 1
  unfolding insert
  length-insert x [] = omega arith
  length-insert x (y ∷ ys) = ground (arith, length-insert x ys)

  pub length-sorted : (xs : List A) → length (sorted le xs) ≡ length xs
  unfolding sorted
  length-sorted [] = refl
  length-sorted (x ∷ xs) = omega (arith, length-insert x (sorted le xs), length-sorted xs)

  count_of-insert :
      (test : A → Bool) (x : A) (ys : List A)
      → count_of test (insert le x ys) ≡ count_of test (x ∷ ys)
  unfolding insert
  count_of-insert test x [] = refl
  count_of-insert test x (y ∷ ys) = ground (arith, count_of-insert test x ys)

  -- Sorting keeps how often each kind of element occurs.
  pub count_of-sorted :
      (test : A → Bool) (xs : List A) → count_of test (sorted le xs) ≡ count_of test xs
  unfolding sorted
  count_of-sorted test [] = refl
  count_of-sorted test (x ∷ xs) =
      ground (arith, count_of-insert test x (sorted le xs), count_of-sorted test xs)

module _ (le : String → String → Bool) where
  is_member-insert :
      (a x : String) (ys : List String) → is_member a (insert le x ys) ≡ is_member a (x ∷ ys)
  unfolding insert
  is_member-insert a x [] = refl
  is_member-insert a x (y ∷ ys) = ground (arith, is_member-insert a x ys)

  pub is_member-sorted :
      (a : String) (xs : List String) → is_member a (sorted le xs) ≡ is_member a xs
  unfolding sorted
  is_member-sorted a [] = refl
  is_member-sorted a (x ∷ xs) =
      ground (arith, is_member-insert a x (sorted le xs), is_member-sorted a xs)

le_codes_total : (s t : List ℕ) → le_codes s t ≡ false → le_codes t s ≡ true
le_codes_total [] t h = ground arith
le_codes_total (a ∷ s) [] h = refl
le_codes_total (a ∷ s) (b ∷ t) h = ground (arith, le_codes_total s t)

pub le_text_total : (s t : String) → le_text s t ≡ false → le_text t s ≡ true
le_text_total s t h = le_codes_total (codes s) (codes t) h
