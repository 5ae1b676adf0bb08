-- ===== src/Client/Threads/Single.antt =====
-- A pending authorization has one use, whatever the interleaving: the callback that takes it out of
-- AUTHORIZATION_CACHE is the only one that ever does.
use keycloak_oidc4ac_lab.Prelude.{
  ℕ, String, true, none, ◌≡◌, refl, sym, ◌∙◌, ◌==◌, inl, inr, Bool-cases,
}
use mathlib.Core.Path.{subst}
use keycloak_oidc4ac_lab.Prelude.Dict
use keycloak_oidc4ac_lab.Prelude.Dict.{Dict, lookup-remove, lookup-insert}
use keycloak_oidc4ac_lab.Json.{JsonText}
use keycloak_oidc4ac_lab.Client.Pages.{Config}
use keycloak_oidc4ac_lab.Client.Server.{Event}
use keycloak_oidc4ac_lab.Client.Threads.{World, start, step, Reach}
use keycloak_oidc4ac_lab.Client.Threads.Moves.{IsLogin, Move}
use keycloak_oidc4ac_lab.Client.Threads.Phases.{
  set_phase_elim, set_phase_own, AllFit, later_phase, step-Move, step-AllFit,
}
use keycloak_oidc4ac_lab.Client.Threads.Taking.{
  is_taken, IsOpen, IsComposed, same_state, other_state, none_stays, taken_now, move-IsOpen,
  composed_closes, composed_untaken, IsComposed-cases, IsComposed-IsLogin, IsComposed-IsOpen,
}

-- `secrets.token_urlsafe` gives no two logins the same state.
abbrev pub DistinctStates : (ℕ → Event) → Type 0
DistinctStates requests =
    (j k : ℕ)
    → IsLogin (requests j).route
    → IsLogin (requests k).route
    → (requests j).inputs.fresh_id ≡ (requests k).inputs.fresh_id
    → j ≡ k

module _ (requests : ℕ → Event) (state : String) where
  -- No login will store an authorization for the state any more.
  abbrev NoMore : World → Type 0
  NoMore world =
      (k : ℕ)
      → IsLogin (requests k).route
      → (requests k).inputs.fresh_id ≡ state
      → IsOpen (world.phases k)
      → ⊥

  abbrev Untaken : World → Type 0
  Untaken world = (k : ℕ) → is_taken state (world.phases k) ≡ true → ⊥

  abbrev Absent : World → Type 0
  Absent world = Dict.lookup state world.shared.authorizations ≡ none

  -- The authorization of the state: not issued, pending or not issued for long, or taken by a thread.
  abbrev Spent : ℕ → World → Type 0
  Spent i world =
      NoMore world × Absent world × ((k : ℕ) → is_taken state (world.phases k) ≡ true → k ≡ i)

  data Life (world : World) : Type 0 where
    unissued : Untaken world → Absent world → Life world
    pending : Untaken world → NoMore world → Life world
    spent : (i : ℕ) → Spent i world → Life world

  module _ (config : Config) (json : JsonText) (k : ℕ) (world : World)
      (fits : AllFit config json requests world) where
    abbrev later : World
    later = step config json requests k world

    move :
        Move json
          (requests k)
          world.shared
          (world.phases k)
          later.shared
          (later_phase config json requests k world)
    move = step-Move config json requests k world fits

    step-NoMore : NoMore world → NoMore later
    step-NoMore n t login drawn =
        set_phase_elim (λ p. IsOpen p → ⊥) t k _ world.phases
          (λ same o.
            n t login drawn (subst (λ t. IsOpen (world.phases t)) (sym same) (move-IsOpen move o)))
          (n t login drawn)

    -- When no login is left to store an authorization for the state.
    step-Absent : NoMore world → Absent world → Absent later
    step-Absent n absent = none_stays state move absent (λ c drawn.
        n k (IsComposed-IsLogin (requests k).route (world.phases k) (fits k) c) drawn
          (IsComposed-IsOpen (world.phases k) c))

    step-Untaken : Untaken world → Absent world → Untaken later
    step-Untaken u absent t =
        set_phase_elim (λ p. is_taken state p ≡ true → ⊥) t k _ world.phases
          (λ same h. (taken_now state move h).0 absent) (u t)

    step-Spent : (i : ℕ) → Spent i world → Spent i later
    step-Spent i (n, absent, only) = (
      step-NoMore n,
      step-Absent n absent,
      λ t.
          set_phase_elim (λ p. is_taken state p ≡ true → t ≡ i) t k _ world.phases
            (λ same h. absurd ((taken_now state move h).0 absent)) (only t),
    )

    -- A login that stores an authorization for the state is the only one that draws it.
    step-issue :
        DistinctStates requests
        → IsComposed (world.phases k)
        → (requests k).inputs.fresh_id ≡ state
        → Untaken world
        → Life later
    step-issue distinct c drawn untaken =
        Life.pending
          (λ t.
            set_phase_elim (λ p. is_taken state p ≡ true → ⊥) t k _ world.phases
              (λ same. composed_untaken state move c) (untaken t))
          (λ t login also o. composed_closes move c (
            subst IsOpen (set_phase_own k _ world.phases) (
              subst (λ t. IsOpen (later.phases t))
                (distinct t k login
                  (IsComposed-IsLogin (requests k).route (world.phases k) (fits k) c)
                  (also ∙ sym drawn))
                o)))

    step-take :
        Untaken world
        → NoMore world
        → is_taken state (later_phase config json requests k world) ≡ true
        → Spent k later
    step-take untaken n taking = (
      step-NoMore n,
      (taken_now state move taking).1,
      λ t.
          set_phase_elim (λ p. is_taken state p ≡ true → t ≡ k) t k _ world.phases (λ same h. same)
            (λ h. absurd (untaken t h)),
    )

    step-Life : DistinctStates requests → Life world → Life later
    step-Life distinct (Life.unissued untaken absent) = elim (IsComposed-cases (world.phases k)) [
      | inl c ↦ elim (Bool-cases ((requests k).inputs.fresh_id == state)) [
        | inl drawn ↦ step-issue distinct c (same_state drawn) untaken
        | inr differ ↦
            Life.unissued (step-Untaken untaken absent)
              (none_stays state move absent (λ c drawn. other_state differ drawn))
      ]
      | inr n ↦
          Life.unissued (step-Untaken untaken absent)
            (none_stays state move absent (λ c drawn. n c))
    ]
    step-Life distinct (Life.pending untaken n) =
        elim (Bool-cases (is_taken state (later_phase config json requests k world))) [
          | inl taking ↦ Life.spent k (step-take untaken n taking)
          | inr not_taking ↦
              Life.pending
                (λ t.
                  set_phase_elim (λ p. is_taken state p ≡ true → ⊥) t k _ world.phases
                    (λ same h. absurd (cc (h, not_taking))) (untaken t))
                (step-NoMore n)
        ]
    step-Life distinct (Life.spent i s) = Life.spent i (step-Spent i s)

module _ (config : Config) (json : JsonText) (requests : ℕ → Event)
    (distinct : DistinctStates requests) (state : String) where
  -- What a schedule keeps, from the start of the process on.
  abbrev Kept : World → Type 0
  Kept world = AllFit config json requests world × Life requests state world

  start-Kept : Kept start
  start-Kept = (
    λ t. tt,
    Life.unissued (λ k h. absurd (unfold is_taken in cc h)) (unfold Dict.lookup in refl),
  )

  Reach-Kept :
      {before after : World} → Reach config json requests before after → Kept before → Kept after
  Reach-Kept Reach.at_start h = h
  Reach-Kept (Reach.stepped k earlier) h =
      let kept = Reach-Kept earlier h in
      (
        step-AllFit config json requests k _ kept.0,
        step-Life requests state config json k _ kept.0 distinct kept.1,
      )

  Reach-Spent :
      {before after : World} (i : ℕ)
      → Reach config json requests before after
      → AllFit config json requests before
      → Spent requests state i before
      → AllFit config json requests after × Spent requests state i after
  Reach-Spent i Reach.at_start f s = (f, s)
  Reach-Spent i (Reach.stepped k earlier) f s =
      let kept = Reach-Spent i earlier f s in
      (
        step-AllFit config json requests k _ kept.0,
        step-Spent requests state config json k _ kept.0 i kept.1,
      )

  taken-Spent :
      (world : World) (i : ℕ)
      → Kept world
      → is_taken state (world.phases i) ≡ true
      → Spent requests state i world
  taken-Spent world i (fits, Life.unissued untaken absent) h = absurd (untaken i h)
  taken-Spent world i (fits, Life.pending untaken n) h = absurd (untaken i h)
  taken-Spent world i (fits, Life.spent j s) h =
      subst (λ t. Spent requests state t world) (sym (s.2 i h)) s

  -- When no two logins draw one state: if a callback has taken the authorization of a state in a
  -- world that some schedule reaches from the start of the process, no other request takes it in any
  -- world reached from there.
  pub taken_once :
      (world after : World) (i j : ℕ)
      → Reach config json requests start world
      → is_taken state (world.phases i) ≡ true
      → Reach config json requests world after
      → is_taken state (after.phases j) ≡ true
      → j ≡ i
  taken_once world after i j reached took later also =
      let kept = Reach-Kept reached start-Kept in
      (Reach-Spent i later kept.0 (taken-Spent world i kept took)).1.2 j also
