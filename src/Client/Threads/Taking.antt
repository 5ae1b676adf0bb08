-- ===== src/Client/Threads/Taking.antt =====
-- What a move of a thread does to the pending authorization of one state.
use keycloak_oidc4ac_lab.Prelude.{
  ℕ, ◌-◌, String, Bool, true, false, none, List, [], ◌∷◌, ◌≡◌, ◌∙◌, ◌==◌, eq_iff, arith, ◌⊎◌, inl,
  inr, Bool-cases,
}
use keycloak_oidc4ac_lab.Prelude.Dict
use keycloak_oidc4ac_lab.Prelude.Dict.{Dict, lookup-remove, lookup-insert}
use keycloak_oidc4ac_lab.Json.{JsonText}
use keycloak_oidc4ac_lab.Client.Caches.{pop_all, expired, cache_ttl}
use keycloak_oidc4ac_lab.Client.Shared.{Shared, prune_shared}
use keycloak_oidc4ac_lab.Client.Server.{Event, Route}
use keycloak_oidc4ac_lab.Client.Threads.{Phase}
use keycloak_oidc4ac_lab.Client.Threads.Moves.{Fits, IsLogin, Move}

-- The request of the phase has taken the authorization of the state, and has not answered yet.
unfoldable pub is_taken : String → Phase → Bool
is_taken state (Phase.taken other context) = other == state
is_taken state _ = false

-- A login that has not stored its authorization yet.
abbrev pub IsOpen : Phase → Type 0
IsOpen Phase.begin = Unit {0}
IsOpen (Phase.composed omit_claims d) = Unit {0}
IsOpen _ = ⊥

abbrev pub IsComposed : Phase → Type 0
IsComposed (Phase.composed omit_claims d) = Unit {0}
IsComposed _ = ⊥

pub same_state : {a b : String} → (a == b) ≡ true → a ≡ b
same_state {a} {b} h = ground (arith, eq_iff a b)

pub other_state : {a b : String} → (a == b) ≡ false → a ≡ b → ⊥
other_state {a} {b} h same = ground (arith, eq_iff a b)

pop_all-none :
    {V : Type 0} (state : String) (ks : List String) (cache : Dict V)
    → Dict.lookup state cache ≡ none
    → Dict.lookup state (pop_all ks cache) ≡ none
pop_all-none state [] cache h = h
pop_all-none state (k ∷ ks) cache h =
    pop_all-none state ks (Dict.remove k cache) (ground (arith, lookup-remove k state cache))

prune_shared-none :
    (state : String) (now : ℕ) (shared : Shared)
    → Dict.lookup state shared.authorizations ≡ none
    → Dict.lookup state (prune_shared now shared).authorizations ≡ none
unfolding prune_shared
prune_shared-none state now shared h =
    pop_all-none state (expired (λ a. a.created_at) (now - cache_ttl) shared.authorizations)
      shared.authorizations h

-- What is in the cache after a move was there before, or was stored by it.
pub none_stays :
    {json : JsonText} {e : Event} {before after : Shared} {phase later : Phase} (state : String)
    → Move json e before phase after later
    → Dict.lookup state before.authorizations ≡ none
    → (IsComposed phase → e.inputs.fresh_id ≡ state → ⊥)
    → Dict.lookup state after.authorizations ≡ none
none_stays {e} {before} state (Move.clear response) h other =
    prune_shared-none state e.inputs.pruned_at before h
none_stays {e} {before} state (Move.compose form omit_claims d route ok) h other =
    prune_shared-none state e.inputs.pruned_at before h
none_stays {e} {before} state (Move.clear_first form route) h other =
    prune_shared-none state e.inputs.pruned_at before h
none_stays {e} {before} state (Move.issue omit_claims d response) h other =
    lookup-insert e.inputs.fresh_id state _ before.authorizations
    ∙ elim (Bool-cases (e.inputs.fresh_id == state)) [
      | inl same ↦ absurd (other tt (same_state same))
      | inr differ ↦ rw differ h
    ]
none_stays {e} {before} state (Move.take args taken context route given pending) h other =
    ground (arith, lookup-remove taken state before.authorizations)
none_stays state m h other = h

-- Only the step that takes an authorization out leads to a phase that has it.
pub taken_now :
    {json : JsonText} {e : Event} {before after : Shared} {phase later : Phase} (state : String)
    → Move json e before phase after later
    → is_taken state later ≡ true
    → (Dict.lookup state before.authorizations ≡ none → ⊥)
      × (Dict.lookup state after.authorizations ≡ none)
unfolding is_taken
taken_now {before} state (Move.take args other context route given pending) h =
    ground (arith, eq_iff other state, lookup-remove other state before.authorizations)
taken_now state m h = cc

pub move-IsOpen :
    {json : JsonText} {e : Event} {before after : Shared} {phase later : Phase}
    → Move json e before phase after later
    → IsOpen later
    → IsOpen phase
move-IsOpen (Move.compose form omit_claims d route ok) h = tt
move-IsOpen m h = absurd h

pub composed_closes :
    {json : JsonText} {e : Event} {before after : Shared} {phase later : Phase}
    → Move json e before phase after later
    → IsComposed phase
    → IsOpen later
    → ⊥
composed_closes (Move.issue omit_claims d response) h o = o
composed_closes m h o = absurd h

pub composed_untaken :
    {json : JsonText} {e : Event} {before after : Shared} {phase later : Phase} (state : String)
    → Move json e before phase after later
    → IsComposed phase
    → is_taken state later ≡ true
    → ⊥
unfolding is_taken
composed_untaken state (Move.issue omit_claims d response) c h = absurd (cc h)
composed_untaken state m c h = absurd c

pub IsComposed-cases : (phase : Phase) → IsComposed phase ⊎ (IsComposed phase → ⊥)
IsComposed-cases (Phase.composed omit_claims d) = inl tt
IsComposed-cases phase = inr (λ c. c)

pub IsComposed-IsLogin :
    (route : Route) (phase : Phase) → Fits route phase → IsComposed phase → IsLogin route
IsComposed-IsLogin route (Phase.composed omit_claims d) h c = h
IsComposed-IsLogin route phase h c = absurd c

pub IsComposed-IsOpen : (phase : Phase) → IsComposed phase → IsOpen phase
IsComposed-IsOpen (Phase.composed omit_claims d) c = tt
IsComposed-IsOpen phase c = absurd c
