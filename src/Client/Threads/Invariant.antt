-- ===== src/Client/Threads/Invariant.antt =====
-- What every interleaving keeps: distinct keys and objects, and claims that some login brought in.
use keycloak_oidc4ac_lab.Prelude.{ℕ}
use keycloak_oidc4ac_lab.Json.{JsonText}
use keycloak_oidc4ac_lab.Client.Pages.{Config}
use keycloak_oidc4ac_lab.Client.Shared.{Shared}
use keycloak_oidc4ac_lab.Client.Shared.WellFormed.{
  WellFormed, init-WellFormed, prune_shared-WellFormed, pop_context-WellFormed,
  add_authorization-WellFormed, add_grant-WellFormed, write-WellFormed,
}
use keycloak_oidc4ac_lab.Client.Server.{Event}
use keycloak_oidc4ac_lab.Client.Threads.{Phase, World, start, Reach}
use keycloak_oidc4ac_lab.Client.Threads.Moves.{Move}
use keycloak_oidc4ac_lab.Client.Threads.Phases.{AllFit, step-Move, step-AllFit}

Move-WellFormed :
    {json : JsonText} {e : Event} {before after : Shared} {phase later : Phase}
    → Move json e before phase after later
    → WellFormed before
    → WellFormed after
Move-WellFormed {e} {before} (Move.clear response) h =
    prune_shared-WellFormed e.inputs.pruned_at before h
Move-WellFormed {e} {before} (Move.compose form omit_claims d route ok) h =
    prune_shared-WellFormed e.inputs.pruned_at before h
Move-WellFormed {e} {before} (Move.clear_first form route) h =
    prune_shared-WellFormed e.inputs.pruned_at before h
Move-WellFormed {e} {before} (Move.issue omit_claims d response) h =
    add_authorization-WellFormed _ _ before h
Move-WellFormed {before} (Move.take args state context route given pending) h =
    pop_context-WellFormed state before h
Move-WellFormed {before} (Move.store state context token response) h =
    add_grant-WellFormed _ _ before h
Move-WellFormed {before} (Move.renew id address answer next) h = write-WellFormed _ before h
Move-WellFormed {before} (Move.stamp id address answer) h = write-WellFormed _ before h
Move-WellFormed m h = h

module _ (config : Config) (json : JsonText) (requests : ℕ → Event) where
  abbrev Kept : World → Type 0
  Kept world = AllFit config json requests world × WellFormed world.shared

  Reach-Kept :
      {before after : World} → Reach config json requests before after → Kept before → Kept after
  Reach-Kept Reach.at_start h = h
  Reach-Kept (Reach.stepped k earlier) h =
      let kept = Reach-Kept earlier h in
      (
        step-AllFit config json requests k _ kept.0,
        Move-WellFormed (step-Move config json requests k _ kept.0) kept.1,
      )

  -- In every world that a schedule reaches from the start of the process, both caches hold each key
  -- once, and the entries of the token cache are distinct objects.
  pub Reach-WellFormed :
      (world : World) → Reach config json requests start world → WellFormed world.shared
  Reach-WellFormed world reached = (Reach-Kept reached ((λ t. tt), init-WellFormed)).1
