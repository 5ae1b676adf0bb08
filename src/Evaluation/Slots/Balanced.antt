-- ===== src/Evaluation/Slots/Balanced.antt =====
-- `balanced_slots` of evaluation/benchmark/timing-benchmark.py: every instance serves the same number
-- of cycles of a kind.
use keycloak_oidc4ac_lab.Prelude.{
  ℕ, ◌+◌, String, Bool, true, List, [], ◌∷◌, ◌++◌, select, ok, err, ◌≡◌, refl, sym, ap, ◌∙◌, ◌==◌,
  eq_iff, arith, if◌then◌else◌, ◌&&◌, ◌||◌, any, Bool-cases, inl, inr, ok_inj, value_error,
  >>=-eq-ok, ◌<◌,
}
use keycloak_oidc4ac_lab.Prelude.Any.{select_here, select_later, any_later, any_weaker}
use keycloak_oidc4ac_lab.Prelude.Dict
use keycloak_oidc4ac_lab.Prelude.Dict.{Dict}
use keycloak_oidc4ac_lab.Prelude.Dict.Unique.{IsUnique}
use keycloak_oidc4ac_lab.Evaluation.Slots.{
  Condition, Kind, is_included, add_to_instance, by_instance, longest, Slot, slots_of, kind_slots,
  slots_for, balanced_slots,
}
use keycloak_oidc4ac_lab.Evaluation.Slots.Groups.{
  same_kind, served, served-append, AreGroups, served-slots_of, add-AreGroups, add-IsUnique,
  mem-add,
}

-- The conditions that give a server its slots of a kind.
abbrev pub has_condition : Kind → String → List Condition → Bool
has_condition kind server conditions =
    any (λ c. c.metrics == server) (select (is_included kind) conditions)

module _ (groups : Dict (List Condition)) (conditions : List Condition) where
  -- The groups of the servers, each once, of the groups before and of the conditions.
  abbrev Grouped : Dict (List Condition) → Type 0
  Grouped grouped =
      AreGroups grouped
      × IsUnique grouped
      × ((m : String)
          → Dict.mem m grouped ≡ (Dict.mem m groups || any (λ c. c.metrics == m) conditions))

by_instance-Grouped :
    (groups : Dict (List Condition)) (conditions : List Condition)
    → AreGroups groups
    → IsUnique groups
    → Grouped groups conditions (by_instance groups conditions)
unfolding by_instance
by_instance-Grouped groups [] g u = (g, u, λ m. ground arith)
by_instance-Grouped groups (c ∷ conditions) g u =
    let rest =
      by_instance-Grouped (add_to_instance c groups) conditions (add-AreGroups c groups g)
        (add-IsUnique c groups u) in
    (rest.0, rest.1, λ m. ground (arith, rest.2 m, mem-add c m groups))

-- How many slots of each kind each server has, when they are those of one kind.
abbrev AreServed : Kind → List Condition → List Slot → Type 0
AreServed kind conditions slots =
    (target : ℕ) × (0 < target)
    × ((want : Kind) (server : String)
        → served want server slots
          ≡ (if same_kind kind want && has_condition kind server conditions then target else 0))

mem_none : (m : String) (b : Bool) → (Dict.mem {V = List Condition} m [] || b) ≡ b
unfolding Dict.mem
mem_none m b = refl

no_member : (m : String) → Dict.mem {V = List Condition} m [] ≡ true → ⊥
unfolding Dict.mem
no_member m e = cc

kind_slots-AreServed :
    (conditions : List Condition) (kind : Kind) (slots : List Slot)
    → kind_slots conditions kind ≡ ok slots
    → AreServed kind conditions slots
unfolding kind_slots
kind_slots-AreServed conditions kind slots h =
    let included = select (is_included kind) conditions in
    served_by (by_instance [] included) (by_instance-Grouped [] included tt tt) h
  where
    served_by :
        (groups : Dict (List Condition))
        → Grouped [] (select (is_included kind) conditions) groups
        → (elim groups [
          | [] ↦ err value_error
          | group ∷ rest ↦ ok (slots_of kind (longest (group ∷ rest)) (group ∷ rest))
        ])
          ≡ ok slots
        → AreServed kind conditions slots
    served_by [] g e = absurd (cc e)
    served_by ((k, group) ∷ rest) g e = (
      longest ((k, group) ∷ rest),
      omega (arith, g.0.0.0),
      λ want server.
          let target = longest ((k, group) ∷ rest) in
          let grouped : Dict (List Condition) = (k, group) ∷ rest in
          ap (served want server) (sym (ok_inj e))
          ∙ served-slots_of kind want server target grouped g.0 g.1
          ∙ ap (λ b. if same_kind kind want && b then target else 0)
              (g.2 server ∙ mem_none server _),
    )

-- The slots of the first of several kinds, and those of the others.
slots_for-cons :
    (conditions : List Condition) (kind : Kind) (rest : List Kind) (slots : List Slot)
    → slots_for conditions (kind ∷ rest) ≡ ok slots
    → (first : List Slot) × (more : List Slot) × AreServed kind conditions first
      × (slots_for conditions rest ≡ ok more)
      × (slots ≡ first ++ more)
unfolding slots_for
slots_for-cons conditions kind rest slots h =
    let first = >>=-eq-ok (kind_slots conditions kind) _ h in
    let more = >>=-eq-ok (slots_for conditions rest) (λ more. ok (first.0 ++ more)) first.2 in
    (
      first.0,
      more.0,
      kind_slots-AreServed conditions kind first.0 first.1,
      more.1,
      sym (ok_inj more.2),
    )

served_none : (kind : Kind) (server : String) → served kind server [] ≡ 0
unfolding served
served_none kind server = refl

abbrev pub IsBalanced : Kind → List Condition → List Slot → Type 0
IsBalanced kind conditions slots =
    (target : ℕ) × (0 < target)
    × ((server : String)
        → served kind server slots ≡ (if has_condition kind server conditions then target else 0))

-- The slots of the other two kinds do not count.
one_kind :
    (conditions : List Condition) (slots x y z : List Slot) (kind : Kind)
    → AreServed Kind.sso conditions x
    → AreServed Kind.refresh conditions y
    → AreServed Kind.login conditions z
    → ((server : String)
        → served kind server slots
          ≡ served kind server x + (served kind server y + served kind server z))
    → IsBalanced kind conditions slots
one_kind conditions slots x y z Kind.sso a b c total = (
  a.0,
  a.1,
  λ server.
      total server
      ∙ rw (a.2 Kind.sso server, b.2 Kind.sso server, c.2 Kind.sso server) (omega arith),
)
one_kind conditions slots x y z Kind.refresh a b c total = (
  b.0,
  b.1,
  λ server.
      total server
      ∙ rw (a.2 Kind.refresh server, b.2 Kind.refresh server, c.2 Kind.refresh server)
          (omega arith),
)
one_kind conditions slots x y z Kind.login a b c total = (
  c.0,
  c.1,
  λ server.
      total server
      ∙ rw (a.2 Kind.login server, b.2 Kind.login server, c.2 Kind.login server) (omega arith),
)

slots-IsBalanced :
    (conditions : List Condition) (slots : List Slot) (kind : Kind)
    → balanced_slots conditions ≡ ok slots
    → IsBalanced kind conditions slots
unfolding balanced_slots slots_for
slots-IsBalanced conditions slots kind h =
    let a = slots_for-cons conditions Kind.sso (Kind.refresh ∷ Kind.login ∷ []) slots h in
    let b = slots_for-cons conditions Kind.refresh (Kind.login ∷ []) a.1 a.3 in
    let c = slots_for-cons conditions Kind.login [] b.1 b.3 in
    let total : (server : String)
        → served kind server slots
          ≡ served kind server a.0 + (served kind server b.0 + served kind server c.0) =
      λ server.
        let first = ap (served kind server) a.4 ∙ served-append kind server a.0 a.1 in
        let second = ap (served kind server) b.4 ∙ served-append kind server b.0 b.1 in
        let third = ap (served kind server) c.4 ∙ served-append kind server c.0 c.1 in
        let end = ap (served kind server) (sym (ok_inj c.3)) ∙ served_none kind server in
        omega (arith, first, second, third, end) in
    one_kind conditions slots a.0 b.0 c.0 kind a.2 b.2 c.2 total

-- A condition that is included gives its server a group.
included_server :
    (kind : Kind) (conditions : List Condition)
    → any (is_included kind) conditions ≡ true
    → (server : String) × (has_condition kind server conditions ≡ true)
included_server kind [] h = absurd (cc h)
included_server kind (c ∷ conditions) h = elim (Bool-cases (is_included kind c)) [
  | inl e ↦ (
    c.metrics,
    select_here (λ d. d.metrics == c.metrics) (is_included kind) c conditions e
        (ground (arith, eq_iff c.metrics c.metrics)),
  )
  | inr e ↦
      let later = included_server kind conditions (any_later (is_included kind) c conditions e h) in
      (later.0, select_later (λ d. d.metrics == later.0) (is_included kind) c conditions later.1)
]

kind_slots_returns :
    (conditions : List Condition) (kind : Kind)
    → any (is_included kind) conditions ≡ true
    → (slots : List Slot) × (kind_slots conditions kind ≡ ok slots)
unfolding kind_slots
kind_slots_returns conditions kind h =
    let included = select (is_included kind) conditions in
    let given = included_server kind conditions h in
    let grouped = by_instance-Grouped [] included tt tt in
    nonempty (by_instance [] included) (grouped.2 given.0 ∙ mem_none given.0 _ ∙ given.1)
  where
    nonempty :
        (groups : Dict (List Condition))
        → Dict.mem (included_server kind conditions h).0 groups ≡ true
        → (slots : List Slot) × ((elim groups [
          | [] ↦ err value_error
          | group ∷ rest ↦ ok (slots_of kind (longest (group ∷ rest)) (group ∷ rest))
        ])
            ≡ ok slots)
    nonempty [] e = absurd (no_member _ e)
    nonempty (group ∷ rest) e = (slots_of kind (longest (group ∷ rest)) (group ∷ rest), refl)

-- When some condition has logins, `balanced_slots` returns slots; and for each kind, every server that has
-- a condition for it serves one and the same positive number of slots of that kind, and every other
-- server none.
pub balanced_slots-IsBalanced :
    (conditions : List Condition)
    → any (λ c. c.login) conditions ≡ true
    → (slots : List Slot) × (balanced_slots conditions ≡ ok slots)
      × ((kind : Kind) → IsBalanced kind conditions slots)
balanced_slots-IsBalanced conditions h =
    let every : any (λ c. true) conditions ≡ true =
      any_weaker (λ c. c.login) (λ c. true) conditions (λ c e. refl) h in
    let a = kind_slots_returns conditions Kind.sso every in
    let b = kind_slots_returns conditions Kind.refresh every in
    let c = kind_slots_returns conditions Kind.login h in
    let slots = a.0 ++ (b.0 ++ (c.0 ++ [])) in
    let returned : balanced_slots conditions ≡ ok slots =
      unfold balanced_slots slots_for in rw (a.1, b.1, c.1) refl in
    (slots, returned, λ kind. slots-IsBalanced conditions slots kind returned)
