-- ===== src/Client/Threads/Brought.antt =====
-- Whose claims the caches hold, whatever the interleaving.
use keycloak_oidc4ac_lab.Prelude.{
  ℕ, ◌-◌, String, some, List, [], ◌∷◌, ◌≡◌, refl, sym, ap, ◌∙◌, inl, inr, nat_eq, arith, Bool-cases,
  Option-cases, some_inj,
}
use mathlib.Core.Path.{subst}
use keycloak_oidc4ac_lab.Prelude.Dict
use keycloak_oidc4ac_lab.Prelude.Dict.{Dict, lookup-remove}
use keycloak_oidc4ac_lab.Prelude.Dict.Unique.{entry_of_insert}
use keycloak_oidc4ac_lab.Json.{Value, JsonText}
use keycloak_oidc4ac_lab.Client.Caches.{Authorization, Grant, cache_ttl, pop_all, expired}
use keycloak_oidc4ac_lab.Client.Pages.{Config}
use keycloak_oidc4ac_lab.Client.Shared.{Shared, caches_of, write, prune_shared}
use keycloak_oidc4ac_lab.Client.Shared.Objects.{lookup-resolve, value_at}
use keycloak_oidc4ac_lab.Client.Server.{Event}
use keycloak_oidc4ac_lab.Client.Server.Invariant.{Holds, Brings}
use keycloak_oidc4ac_lab.Client.Threads.{Phase, World, start, Reach}
use keycloak_oidc4ac_lab.Client.Threads.Moves.{Move}
use keycloak_oidc4ac_lab.Client.Threads.Phases.{
  AllFit, step-Move, step-AllFit, set_phase_elim, later_phase,
}

pop_all_found :
    {V : Type 0} (k : String) (v : V) (ks : List String) (cache : Dict V)
    → Dict.lookup k (pop_all ks cache) ≡ some v
    → Dict.lookup k cache ≡ some v
pop_all_found k v [] cache h = h
pop_all_found k v (j ∷ ks) cache h =
    let earlier = pop_all_found k v ks (Dict.remove j cache) h in
    ground (arith, lookup-remove j k cache)

module _ (P : Dict Value → Type 0) where
  -- The claims of every pending authorization and of every stored object.
  record Sound (shared : Shared) : Type 0 where
    pending :
        (state : String) (a : Authorization)
        → Dict.lookup state shared.authorizations ≡ some a
        → P a.claims
    granted :
        (id : String) (address : ℕ)
        → Dict.lookup id shared.tokens ≡ some address
        → P (shared.grants address).claims

  -- The claims that a thread holds itself.
  abbrev Carries : Phase → Type 0
  Carries (Phase.composed omit_claims d) = P d
  Carries (Phase.taken state context) = P context.claims
  Carries _ = Unit {0}

  pruned-Sound : (now : ℕ) (shared : Shared) → Sound shared → Sound (prune_shared now shared)
  unfolding prune_shared
  pruned-Sound now shared h = record {
    pending = λ state a e. h.pending state a (
        pop_all_found state a (expired (λ a. a.created_at) (now - cache_ttl) shared.authorizations)
          shared.authorizations e);
    granted = λ id address e. h.granted id address (
        pop_all_found id address
          (expired (λ a. (shared.grants a).created_at) (now - cache_ttl) shared.tokens)
          shared.tokens e);
  }

  -- An object is written with the claims that it had.
  rewritten-Sound :
      (address : ℕ) (grant : Grant) (shared : Shared)
      → grant.claims ≡ (shared.grants address).claims
      → Sound shared
      → Sound (record shared { grants = write address grant shared.grants })
  rewritten-Sound address grant shared same h = record {
    pending = h.pending;
    granted = λ id other e. elim (Bool-cases (nat_eq other address)) [
      | inl here ↦
          let at : other ≡ address = ground arith in
          rw (here, same) (subst (λ a. P (shared.grants a).claims) at (h.granted id other e))
      | inr elsewhere ↦ rw elsewhere (h.granted id other e)
    ];
  }

  new-Sound :
      (id : String) (grant : Grant) (shared : Shared)
      → P grant.claims
      → Sound shared
      → (j : String) (other : ℕ)
      → Dict.lookup j (Dict.insert id shared.next shared.tokens) ≡ some other
      → P (write shared.next grant shared.grants other).claims
  new-Sound id grant shared p h j other e = elim (Bool-cases (nat_eq other shared.next)) [
    | inl new ↦ rw new p
    | inr old ↦ rw old (elim (entry_of_insert id j shared.next other shared.tokens e) [
      | inl written ↦ absurd (ground arith)
      | inr before ↦ h.granted j other before
    ])
  ]

  Move-Sound :
      {json : JsonText} {e : Event} {before after : Shared} {phase later : Phase}
      → Move json e before phase after later
      → Brings json P e
      → Carries phase
      → Sound before
      → Sound after × Carries later
  Move-Sound {e} {before} (Move.clear response) b c h =
      (pruned-Sound e.inputs.pruned_at before h, tt)
  Move-Sound {e} {before} (Move.compose form omit_claims d route ok) b c h =
      (pruned-Sound e.inputs.pruned_at before h, b form d route ok)
  Move-Sound {e} {before} (Move.clear_first form route) b c h =
      (pruned-Sound e.inputs.pruned_at before h, tt)
  Move-Sound {before} (Move.issue omit_claims d response) b c h = (
    record {
      pending = λ state a e. elim (entry_of_insert _ state _ a before.authorizations e) [
        | inl written ↦ subst (λ a. P a.claims) written c
        | inr old ↦ h.pending state a old
      ];
      granted = h.granted;
    },
    tt,
  )
  Move-Sound {before} (Move.take args state context route given pending) b c h = (
    record {
      pending =
          λ j a e. h.pending j a (ground (arith, lookup-remove state j before.authorizations));
      granted = h.granted;
    },
    h.pending state context pending,
  )
  Move-Sound {before} (Move.store state context token response) b c h =
      (record { pending = h.pending; granted = new-Sound _ _ before c h }, tt)
  Move-Sound {before} (Move.renew id address answer next) b c h =
      (rewritten-Sound address _ before refl h, tt)
  Move-Sound {before} (Move.stamp id address answer) b c h =
      (rewritten-Sound address _ before refl h, tt)
  Move-Sound (Move.refuse state context response) b c h = (h, tt)
  Move-Sound m b c h = (h, c)

  Sound-Holds : (shared : Shared) → Sound shared → Holds P (caches_of shared)
  Sound-Holds shared h = record {
    pending = h.pending;
    granted = λ id g e.
        let seen : value_at shared.grants (Dict.lookup id shared.tokens) ≡ some g =
          sym (lookup-resolve shared.grants id shared.tokens) ∙ e in
        elim (Option-cases (Dict.lookup id shared.tokens)) [
          | inl gone ↦ absurd (cc (seen, gone))
          | inr (address, found) ↦
              subst (λ g. P g.claims) (some_inj (sym (ap (value_at shared.grants) found) ∙ seen))
                (h.granted id address found)
        ];
  }

module _ (config : Config) (json : JsonText) (requests : ℕ → Event) (P : Dict Value → Type 0)
    (brings : (k : ℕ) → Brings json P (requests k)) where
  abbrev Kept : World → Type 0
  Kept world =
      AllFit config json requests world
      × Sound P world.shared
      × ((k : ℕ) → Carries P (world.phases k))

  start-Kept : Kept start
  unfolding Dict.lookup
  start-Kept = (
    λ k. tt,
    record { pending = λ state a e. absurd (cc e); granted = λ id a e. absurd (cc e) },
    λ k. tt,
  )

  Reach-Kept :
      {before after : World} → Reach config json requests before after → Kept before → Kept after
  Reach-Kept Reach.at_start h = h
  Reach-Kept (Reach.stepped {between} k earlier) h =
      let kept = Reach-Kept earlier h in
      let moved =
        Move-Sound P (step-Move config json requests k between kept.0) (brings k) (kept.2 k)
          kept.1 in
      (
        step-AllFit config json requests k between kept.0,
        moved.0,
        λ t.
            set_phase_elim (Carries P) t k (later_phase config json requests k between)
              between.phases (λ same. moved.1) (kept.2 t),
      )

  -- If the claims of every accepted login have a property, so have those of every pending
  -- authorization and of every stored grant, in every world that a schedule reaches from the start of
  -- the process.
  pub Reach-Holds :
      (world : World) → Reach config json requests start world → Holds P (caches_of world.shared)
  Reach-Holds world reached = Sound-Holds P world.shared (Reach-Kept reached start-Kept).1
