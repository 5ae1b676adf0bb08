-- ===== src/Client/Threads/Phases.antt =====
-- What a step says of the phase of one thread.
use keycloak_oidc4ac_lab.Prelude.{ℕ, ◌≡◌, sym, inl, inr, nat_eq, arith, Bool-cases}
use mathlib.Core.Path.{subst}
use keycloak_oidc4ac_lab.Json.{JsonText}
use keycloak_oidc4ac_lab.Client.Pages.{Config}
use keycloak_oidc4ac_lab.Client.Server.{Event}
use keycloak_oidc4ac_lab.Client.Threads.{Phase, set_phase, World, step, advance}
use keycloak_oidc4ac_lab.Client.Threads.Steps.{advance-Move}
use keycloak_oidc4ac_lab.Client.Threads.Moves.{Fits, Move, Move-Fits}

-- A property of a thread's phase after a step: that thread made the step, or kept its phase.
pub set_phase_elim :
    (P : Phase → Type 0) (thread other : ℕ) (later : Phase) (phases : ℕ → Phase)
    → (thread ≡ other → P later)
    → P (phases thread)
    → P (set_phase other later phases thread)
set_phase_elim P thread other later phases own kept = elim (Bool-cases (nat_eq thread other)) [
  | inl e ↦ rw e (own (ground arith))
  | inr e ↦ rw e kept
]

pub set_phase_own :
    (thread : ℕ) (later : Phase) (phases : ℕ → Phase) → set_phase thread later phases thread ≡ later
set_phase_own thread later phases = ground arith

module _ (config : Config) (json : JsonText) (requests : ℕ → Event) where
  -- Every thread is in a phase of its handler.
  abbrev pub AllFit : World → Type 0
  AllFit world = (t : ℕ) → Fits (requests t).route (world.phases t)

  abbrev pub later_phase : ℕ → World → Phase
  later_phase k world = (advance config json (requests k) (world.phases k) world.shared).phase

  -- The move that a step of a schedule makes.
  pub step-Move :
      (k : ℕ) (world : World)
      → AllFit world
      → Move json
          (requests k)
          world.shared
          (world.phases k)
          (step config json requests k world).shared
          (later_phase k world)
  step-Move k world fits =
      advance-Move config json (requests k) (world.phases k) world.shared (fits k)

  pub step-AllFit :
      (k : ℕ) (world : World) → AllFit world → AllFit (step config json requests k world)
  step-AllFit k world fits t =
      set_phase_elim (Fits (requests t).route) t k _ world.phases
        (λ same.
          subst (λ t. Fits (requests t).route (later_phase k world)) (sym same)
            (Move-Fits (step-Move k world fits) (fits k)))
        (fits t)
