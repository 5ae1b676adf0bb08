-- ===== src/Evaluation/Slots/Groups.antt =====
-- The groups of `balanced_slots` in evaluation/benchmark/timing-benchmark.py: one for each server, and as
-- many slots from each.
use keycloak_oidc4ac_lab.Prelude.{
  ℕ, zero, suc, ◌+◌, String, Bool, true, false, some, List, [], ◌∷◌, ◌++◌, map, length, All, ◌≡◌,
  refl, ◌∙◌, ◌==◌, eq_iff, arith, if◌then◌else◌, ◌&&◌, ◌||◌, length-append, All-append, Bool-cases,
  Option-cases, inl, inr, ◌<◌,
}
use mathlib.Core.Path.{subst}
use keycloak_oidc4ac_lab.Prelude.Dict
use keycloak_oidc4ac_lab.Prelude.Dict.{Dict}
use keycloak_oidc4ac_lab.Prelude.Dict.Unique.{IsUnique, insert-IsUnique, mem-insert}
use keycloak_oidc4ac_lab.Evaluation.Slots.{Condition, Kind, add_to_instance, cycled, Slot, slots_of}

abbrev pub same_kind : Kind → Kind → Bool
same_kind Kind.sso Kind.sso = true
same_kind Kind.refresh Kind.refresh = true
same_kind Kind.login Kind.login = true
same_kind _ _ = false

-- How many slots of a kind a server has.
unfoldable pub served : Kind → String → List Slot → ℕ
served kind server [] = 0
served kind server ((k, c) ∷ slots) =
    (if same_kind k kind && c.metrics == server then 1 else 0) + served kind server slots

pub served-append :
    (kind : Kind) (server : String) (xs ys : List Slot)
    → served kind server (xs ++ ys) ≡ served kind server xs + served kind server ys
unfolding served
served-append kind server [] ys = omega arith
served-append kind server ((k, c) ∷ xs) ys = omega (arith, served-append kind server xs ys)

-- A group is not empty, and all of its conditions are of one server.
abbrev IsGroup : String → List Condition → Type 0
IsGroup server group = (0 < length group) × All (λ c. c.metrics ≡ server) group

abbrev pub AreGroups : Dict (List Condition) → Type 0
AreGroups [] = Unit {0}
AreGroups ((k, group) ∷ groups) = IsGroup k group × AreGroups groups

-- The items that are taken in turn are of the group's server, and as many as are asked for.
served-cycled :
    (kind want : Kind) (server k : String) (group left : List Condition) (n : ℕ)
    → IsGroup k group
    → All (λ c. c.metrics ≡ k) left
    → served want server (map (λ c. (kind, c)) (cycled group left n))
      ≡ (if same_kind kind want && k == server then n else 0)
unfolding served cycled
served-cycled kind want server k group left zero g l = ground arith
served-cycled kind want server k group (x ∷ left) (suc n) g l =
    let rest = served-cycled kind want server k group left n g l.1 in rw (l.0, rest) (ground arith)
served-cycled kind want server k (x ∷ group) [] (suc n) g l =
    let rest = served-cycled kind want server k (x ∷ group) group n g g.1.1 in
    rw (g.1.0, rest) (ground arith)
served-cycled kind want server k [] [] (suc n) g l = absurd (omega (arith, g.0))

pub served-slots_of :
    (kind want : Kind) (server : String) (target : ℕ) (groups : Dict (List Condition))
    → AreGroups groups
    → IsUnique groups
    → served want server (slots_of kind target groups)
      ≡ (if same_kind kind want && Dict.mem server groups then target else 0)
unfolding slots_of served Dict.mem
served-slots_of kind want server target [] g u = ground arith
served-slots_of kind want server target ((k, group) ∷ groups) g u =
    let turn : List Slot = map (λ c. (kind, c)) (cycled group group target) in
    let rest = served-slots_of kind want server target groups g.1 u.1 in
    let here = served-cycled kind want server k group group target g.0 g.0.1 in
    let both = served-append want server turn (slots_of kind target groups) in
    elim (Bool-cases (k == server)) [
      | inl e ↦
          let same : k ≡ server = ground (arith, eq_iff k server) in
          let gone : Dict.mem server groups ≡ false =
            subst (λ m. Dict.mem m groups ≡ false) same u.0 in
          both ∙ rw (here, rest, e, gone) (ground arith)
      | inr e ↦ both ∙ rw (here, rest, e) (ground arith)
    ]

insert-AreGroups :
    (k : String) (group : List Condition) (groups : Dict (List Condition))
    → IsGroup k group
    → AreGroups groups
    → AreGroups (Dict.insert k group groups)
unfolding Dict.insert
insert-AreGroups k group [] g h = (g, tt)
insert-AreGroups k group ((j, other) ∷ groups) g h = elim (Bool-cases (j == k)) [
  | inl e ↦
      let same : k ≡ j = ground (arith, eq_iff j k) in
      rw e (subst (λ k. IsGroup k group) same g, h.1)
  | inr e ↦ rw e (h.0, insert-AreGroups k group groups g h.1)
]

lookup-IsGroup :
    (k : String) (group : List Condition) (groups : Dict (List Condition))
    → AreGroups groups
    → Dict.lookup k groups ≡ some group
    → IsGroup k group
unfolding Dict.lookup
lookup-IsGroup k group [] h found = absurd (cc found)
lookup-IsGroup k group ((j, other) ∷ groups) h found = elim (Bool-cases (j == k)) [
  | inl e ↦
      let same : j ≡ k = ground (arith, eq_iff j k) in
      let here : other ≡ group = ground arith in
      subst (λ g. IsGroup k g) here (subst (λ k. IsGroup k other) same h.0)
  | inr e ↦ lookup-IsGroup k group groups h.1 (ground arith)
]

-- Adding a condition to the group of its server.
pub add-AreGroups :
    (c : Condition) (groups : Dict (List Condition))
    → AreGroups groups
    → AreGroups (add_to_instance c groups)
unfolding add_to_instance
add-AreGroups c groups h = elim (Option-cases (Dict.lookup c.metrics groups)) [
  | inl new ↦
      rw (new, add_to_instance)
        (insert-AreGroups c.metrics (c ∷ []) groups (omega arith, (refl, tt)) h)
  | inr (group, found) ↦
      let old = lookup-IsGroup c.metrics group groups h found in
      rw (found, add_to_instance)
        (insert-AreGroups c.metrics (group ++ c ∷ []) groups
          (
            omega (arith, length-append group (c ∷ []), old.0),
            All-append (λ d. d.metrics ≡ c.metrics) group (c ∷ []) old.1 (refl, tt),
          )
          h)
]

pub add-IsUnique :
    (c : Condition) (groups : Dict (List Condition))
    → IsUnique groups
    → IsUnique (add_to_instance c groups)
unfolding add_to_instance
add-IsUnique c groups h = elim (Option-cases (Dict.lookup c.metrics groups)) [
  | inl new ↦ rw (new, add_to_instance) (insert-IsUnique c.metrics (c ∷ []) groups h)
  | inr (group, found) ↦
      rw (found, add_to_instance) (insert-IsUnique c.metrics (group ++ c ∷ []) groups h)
]

pub mem-add :
    (c : Condition) (server : String) (groups : Dict (List Condition))
    → Dict.mem server (add_to_instance c groups) ≡ (c.metrics == server || Dict.mem server groups)
unfolding add_to_instance
mem-add c server groups = elim (Option-cases (Dict.lookup c.metrics groups)) [
  | inl new ↦ rw (new, add_to_instance) (mem-insert c.metrics server (c ∷ []) groups)
  | inr (group, found) ↦
      rw (found, add_to_instance) (mem-insert c.metrics server (group ++ c ∷ []) groups)
]
