-- ===== src/Prelude/Any.antt =====
-- `any` over a list, and over the elements that are selected from it.
use mathlib.Core.Bool.{Bool, true, false, ◌||◌}
use mathlib.Core.Logic.{inl, inr}
use mathlib.Core.List.{List, [], ◌∷◌}
use mathlib.Core.Path.{◌≡◌, refl, sym, ap, ◌∙◌}
use native.Mathlib.Omega.{arith}
use keycloak_oidc4ac_lab.Prelude.Tests.{Bool-cases}
use keycloak_oidc4ac_lab.Prelude.Lists.{any, select}

module _ {A : Type 0} (f test : A → Bool) (x : A) (xs : List A) where
  pub select_here : test x ≡ true → f x ≡ true → any f (select test (x ∷ xs)) ≡ true
  select_here t h = ground arith

  pub select_later : any f (select test xs) ≡ true → any f (select test (x ∷ xs)) ≡ true
  select_later h = elim (Bool-cases (test x)) [ inl e ↦ ground arith | inr e ↦ ground arith ]

pub any_later :
    {A : Type 0} (test : A → Bool) (x : A) (xs : List A)
    → test x ≡ false
    → any test (x ∷ xs) ≡ true
    → any test xs ≡ true
any_later test x xs e h = sym (ap (λ b. b || any test xs) e) ∙ h

pub any_weaker :
    {A : Type 0} (f g : A → Bool) (xs : List A)
    → ((x : A) → f x ≡ true → g x ≡ true)
    → any f xs ≡ true
    → any g xs ≡ true
any_weaker f g [] h e = e
any_weaker f g (x ∷ xs) h e = elim (Bool-cases (f x)) [
  | inl here ↦ rw (h x here) refl
  | inr elsewhere ↦
      let rest = any_weaker f g xs h (any_later f x xs elsewhere e) in
      elim (Bool-cases (g x)) [ inl yes_x ↦ rw yes_x refl | inr no_x ↦ rw no_x rest ]
]
