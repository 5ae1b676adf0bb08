-- ===== src/Client/Server/Invariant.antt =====
-- Invariants of the caches over any sequence of requests.
use keycloak_oidc4ac_lab.Prelude.{
  ℕ, String, ◌≡◌, some, List, [], ◌∷◌, arith, inl, inr, All, sym, ◌∙◌,
}
use mathlib.Core.Path.{subst}
use keycloak_oidc4ac_lab.Prelude.Dict
use keycloak_oidc4ac_lab.Prelude.Dict.{Dict, lookup-insert, lookup-remove}
use keycloak_oidc4ac_lab.Prelude.Dict.Unique.{insert-IsUnique, remove-IsUnique, entry_of_insert}
use keycloak_oidc4ac_lab.Json.{Value, JsonText}
use keycloak_oidc4ac_lab.Client.Caches.{Authorization, Grant, Caches, prune_caches}
use keycloak_oidc4ac_lab.Client.Caches.Prune.{
  prune_caches-IsUnique, lookup-prune_caches, entry_of_alive,
}
use keycloak_oidc4ac_lab.Client.Pages.{Config}
use keycloak_oidc4ac_lab.Client.Server.{Event, Route, handle, run}
use keycloak_oidc4ac_lab.Client.Server.Effects.{Change, handle-Change, issue, take, store, accepted}
use keycloak_oidc4ac_lab.Client.Caches.Prune.{IsValid}

-- No transition puts a key twice into a cache.
pub Change-IsValid :
    {json : JsonText} {e : Event} {before after : Caches}
    → Change json e before after
    → IsValid before
    → IsValid after
Change-IsValid Change.kept h = h
Change-IsValid {e} {before} Change.pruned h = prune_caches-IsUnique e.inputs.pruned_at before h
Change-IsValid {e} {before} (Change.issued form d route ok) h =
    let p = prune_caches-IsUnique e.inputs.pruned_at before h in
    record { authorizations = insert-IsUnique _ _ _ p.authorizations; tokens = p.tokens }
Change-IsValid (Change.consumed args state route given) h = record {
  authorizations = remove-IsUnique state _ h.authorizations;
  tokens = h.tokens;
}
Change-IsValid (Change.granted args state a token route given pending) h = record {
  authorizations = remove-IsUnique state _ h.authorizations;
  tokens = insert-IsUnique _ _ _ h.tokens;
}
Change-IsValid {e} {before} (Change.refreshed form id g token route found) h =
    let p = prune_caches-IsUnique e.inputs.pruned_at before h in
    record { authorizations = p.authorizations; tokens = insert-IsUnique _ _ _ p.tokens }

module _ (config : Config) (json : JsonText) where
  pub handle-IsValid :
      (e : Event) (caches : Caches)
      → IsValid caches
      → IsValid (handle config json e caches).site.caches
  handle-IsValid e caches h = Change-IsValid (handle-Change config json e caches) h

  -- After any requests, from caches that hold each key once, both caches hold each key once.
  pub run-IsValid :
      (events : List Event) (caches : Caches)
      → IsValid caches
      → IsValid (run config json events caches)
  unfolding run
  run-IsValid [] caches h = h
  run-IsValid (e ∷ events) caches h =
      run-IsValid events (handle config json e caches).site.caches (handle-IsValid e caches h)

-- Every claims object in the caches satisfies `P`.
pub record Holds (P : Dict Value → Type 0) (caches : Caches) : Type 0 where
  pub pending :
      (state : String) (a : Authorization)
      → Dict.lookup state caches.authorizations ≡ some a
      → P a.claims
  pub granted : (id : String) (g : Grant) → Dict.lookup id caches.tokens ≡ some g → P g.claims

-- The claims that a request brings in, if it is a login whose form is accepted, satisfy `P`.
abbrev pub Brings : JsonText → (Dict Value → Type 0) → Event → Type 0
Brings json P e =
    (form : Dict String) (d : Dict Value)
    → e.route ≡ Route.login form
    → accepted json form ≡ some d
    → P d

module _ {P : Dict Value → Type 0} where
  pruned-Holds :
      (now : ℕ) (caches : Caches)
      → IsValid caches
      → Holds P caches
      → Holds P (prune_caches now caches)
  pruned-Holds now caches v h = record {
    pending = λ state a e. h.pending state a (
        entry_of_alive _ now (Dict.lookup state caches.authorizations) a
          (sym (lookup-prune_caches now caches state v).0 ∙ e));
    granted = λ id g e. h.granted id g (
        entry_of_alive _ now (Dict.lookup id caches.tokens) g
          (sym (lookup-prune_caches now caches id v).1 ∙ e));
  }

  issue-Holds :
      (state : String) (a : Authorization) (caches : Caches)
      → P a.claims
      → Holds P caches
      → Holds P (issue state a caches)
  issue-Holds state a caches p h = record {
    pending = λ j b e. elim (entry_of_insert state j a b caches.authorizations e) [
      | inl written ↦ subst (λ c. P c.claims) written p
      | inr old ↦ h.pending j b old
    ];
    granted = h.granted;
  }

  take-Holds : (state : String) (caches : Caches) → Holds P caches → Holds P (take state caches)
  take-Holds state caches h = record {
    pending = λ j b e. h.pending j b (ground (arith, lookup-remove state j caches.authorizations));
    granted = h.granted;
  }

  store-Holds :
      (id : String) (g : Grant) (caches : Caches)
      → P g.claims
      → Holds P caches
      → Holds P (store id g caches)
  store-Holds id g caches p h = record {
    pending = h.pending;
    granted = λ j b e. elim (entry_of_insert id j g b caches.tokens e) [
      | inl written ↦ subst (λ c. P c.claims) written p
      | inr old ↦ h.granted j b old
    ];
  }

  Change-Holds :
      {json : JsonText} {e : Event} {before after : Caches}
      → Change json e before after
      → Brings json P e
      → IsValid before
      → Holds P before
      → Holds P after
  Change-Holds Change.kept b v h = h
  Change-Holds {e} {before} Change.pruned b v h = pruned-Holds e.inputs.pruned_at before v h
  Change-Holds {e} {before} (Change.issued form d route ok) b v h =
      issue-Holds _ _ _ (b form d route ok) (pruned-Holds e.inputs.pruned_at before v h)
  Change-Holds {before} (Change.consumed args state route given) b v h = take-Holds state before h
  Change-Holds {before} (Change.granted args state a token route given pending) b v h =
      store-Holds _ _ _ (h.pending state a pending) (take-Holds state before h)
  Change-Holds {e} {before} (Change.refreshed form id g token route found) b v h =
      let p = pruned-Holds e.inputs.pruned_at before v h in
      store-Holds _ _ _ (p.granted id g found) p

module _ (config : Config) (json : JsonText) (P : Dict Value → Type 0) where
  -- If the claims of every accepted login have a property, so have those of every pending
  -- authorization and of every stored grant, after any requests from caches where they have it.
  pub run-Holds :
      (events : List Event) (caches : Caches)
      → All (Brings json P) events
      → IsValid caches
      → Holds P caches
      → Holds P (run config json events caches)
  unfolding run
  run-Holds [] caches b v h = h
  run-Holds (e ∷ events) caches b v h =
      run-Holds events (handle config json e caches).site.caches b.1
        (handle-IsValid config json e caches v)
        (Change-Holds (handle-Change config json e caches) b.0 v h)
