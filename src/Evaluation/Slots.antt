-- ===== src/Evaluation/Slots.antt =====
-- The schedule of evaluation/benchmark/timing-benchmark.py: `Condition`, `balanced_slots`, and the
-- validation of its parameters.
pub mod Groups
pub mod Balanced
use keycloak_oidc4ac_lab.Prelude.{
  ℕ, zero, suc, String, Bool, true, none, some, List, [], ◌∷◌, ◌++◌, map, select, length, Result,
  ok, err, value_error, ◌>>=◌,
}
use Prim.Native.Nat.{max}
use keycloak_oidc4ac_lab.Prelude.Dict
use keycloak_oidc4ac_lab.Prelude.Dict.{Dict}
use keycloak_oidc4ac_lab.Json.{Value}

pub record Condition : Type 0 where
  pub name : String
  pub client : String
  pub issuer : String
  pub metrics : String
  pub request_claims : Dict Value
  pub omit_claims : Bool
  pub expects_details : Bool
  pub login : Bool

pub data Kind : Type 0 where
  sso refresh login : Kind

abbrev pub kinds : List Kind
kinds = sso ∷ refresh ∷ login ∷ []

-- `kind != "login" or condition.login`
abbrev pub is_included : Kind → Condition → Bool
is_included login c = c.login
is_included _ c = true

-- `by_instance.setdefault(condition.metrics, []).append(condition)`
unfoldable pub add_to_instance : Condition → Dict (List Condition) → Dict (List Condition)
add_to_instance c by_instance = elim (Dict.lookup c.metrics by_instance) [
  | none ↦ Dict.insert c.metrics (c ∷ []) by_instance
  | some group ↦ Dict.insert c.metrics (group ++ c ∷ []) by_instance
]

unfoldable pub by_instance : Dict (List Condition) → List Condition → Dict (List Condition)
unfolding add_to_instance
by_instance groups [] = groups
by_instance groups (c ∷ cs) = by_instance (add_to_instance c groups) cs

-- `source = itertools.cycle(group)`, of which `n` items are taken; `left` is the rest of the turn.
unfoldable pub cycled {ℓ} : {A : Type ℓ} → List A → List A → ℕ → List A
cycled group left zero = []
cycled group (x ∷ left) (suc n) = x ∷ cycled group left n
cycled [] [] (suc n) = []
cycled (x ∷ group) [] (suc n) = x ∷ cycled (x ∷ group) group n

abbrev pub longest : Dict (List Condition) → ℕ
longest [] = 0
longest ((k, group) ∷ groups) = max (length group) (longest groups)

abbrev pub Slot : Type 0
Slot = Kind × Condition

unfoldable pub slots_of : Kind → ℕ → Dict (List Condition) → List Slot
unfolding cycled
slots_of kind target [] = []
slots_of kind target ((k, group) ∷ groups) =
    map (λ c. (kind, c)) (cycled group group target) ++ slots_of kind target groups

-- One round of the outer loop. `max` of no group raises `ValueError`.
unfoldable pub kind_slots : List Condition → Kind → Result (List Slot)
unfolding by_instance slots_of
kind_slots conditions kind =
    let groups = by_instance [] (select (is_included kind) conditions) in
    elim groups [
      | [] ↦ err value_error
      | group ∷ rest ↦ ok (slots_of kind (longest (group ∷ rest)) (group ∷ rest))
    ]

unfoldable pub slots_for : List Condition → List Kind → Result (List Slot)
unfolding kind_slots
slots_for conditions [] = ok []
slots_for conditions (kind ∷ rest) =
    kind_slots conditions kind >>= λ slots. slots_for conditions rest >>= λ more. ok (slots ++ more)

unfoldable pub balanced_slots : List Condition → Result (List Slot)
unfolding slots_for
balanced_slots conditions = slots_for conditions kinds
