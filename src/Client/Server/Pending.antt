-- ===== src/Client/Server/Pending.antt =====
-- A pending authorization: what other requests do to it, and that it is used once.
use keycloak_oidc4ac_lab.Prelude.{
  ℕ, ◌+◌, ◌≤◌, String, ◌≡◌, ◌≢◌, refl, Option, none, some, List, [], ◌∷◌, arith, eq_iff, All, ◌∙◌,
  ap,
}
use keycloak_oidc4ac_lab.Prelude.Dict
use keycloak_oidc4ac_lab.Prelude.Dict.{Dict, lookup-insert, lookup-remove}
use keycloak_oidc4ac_lab.Json.{JsonText}
use keycloak_oidc4ac_lab.Client.Caches.{Authorization, Caches, prune_caches, cache_ttl}
use keycloak_oidc4ac_lab.Client.Caches.Prune.{IsValid, lookup-prune_caches}
use keycloak_oidc4ac_lab.Client.Pages.{Config}
use keycloak_oidc4ac_lab.Client.Server.{Event, Route, handle, run}
use keycloak_oidc4ac_lab.Client.Server.Effects.{Change, handle-Change}
use keycloak_oidc4ac_lab.Client.Server.Invariant.{handle-IsValid}

-- The request is not the callback of this authorization, draws another id, and prunes at a time
-- when the authorization has not outlived its fifteen minutes.
pub record Spares (state : String) (a : Authorization) (e : Event) : Type 0 where
  pub in_time : e.inputs.pruned_at ≤ a.created_at + cache_ttl
  pub other_id : e.inputs.fresh_id ≢ state
  pub other_callback :
      (args : Dict String) → e.route ≡ Route.callback args → Dict.lookup "state" args ≢ some state

pruned_spares :
    (state : String) (a : Authorization) (now : ℕ) (caches : Caches)
    → IsValid caches
    → now ≤ a.created_at + cache_ttl
    → Dict.lookup state caches.authorizations ≡ some a
    → Dict.lookup state (prune_caches now caches).authorizations ≡ some a
pruned_spares state a now caches v t h =
    (lookup-prune_caches now caches state v).0 ∙ rw h (ground arith)

insert_spares :
    {V : Type 0} (k j : String) (v : V) (d : Dict V) (o : Option V)
    → k ≢ j
    → Dict.lookup j d ≡ o
    → Dict.lookup j (Dict.insert k v d) ≡ o
insert_spares k j v d o ne h = ground (arith, lookup-insert k j v d, eq_iff k j)

remove_spares :
    {V : Type 0} (k j : String) (d : Dict V) (o : Option V)
    → k ≢ j
    → Dict.lookup j d ≡ o
    → Dict.lookup j (Dict.remove k d) ≡ o
remove_spares k j d o ne h = ground (arith, lookup-remove k j d, eq_iff k j)

Change-Spares :
    {json : JsonText} {e : Event} {before after : Caches} (state : String) (a : Authorization)
    → Change json e before after
    → Spares state a e
    → IsValid before
    → Dict.lookup state before.authorizations ≡ some a
    → Dict.lookup state after.authorizations ≡ some a
Change-Spares state a Change.kept s v h = h
Change-Spares {e} {before} state a Change.pruned s v h =
    pruned_spares state a _ before v s.in_time h
Change-Spares {e} {before} state a (Change.issued form d route given) s v h =
    insert_spares _ state _ _ (some a) s.other_id (pruned_spares state a _ before v s.in_time h)
Change-Spares state a (Change.consumed args j route given) s v h =
    remove_spares j state _ (some a) (λ same. s.other_callback args route (given ∙ ap some same)) h
Change-Spares state a (Change.granted args j b token route given pending) s v h =
    remove_spares j state _ (some a) (λ same. s.other_callback args route (given ∙ ap some same)) h
Change-Spares {e} {before} state a (Change.refreshed form id g token route found) s v h =
    pruned_spares state a _ before v s.in_time h

-- The request draws another id than this one.
abbrev pub DrawsOther : String → Event → Type 0
DrawsOther state e = e.inputs.fresh_id ≢ state

pruned_absent :
    (state : String) (now : ℕ) (caches : Caches)
    → IsValid caches
    → Dict.lookup state caches.authorizations ≡ none
    → Dict.lookup state (prune_caches now caches).authorizations ≡ none
pruned_absent state now caches v h = (lookup-prune_caches now caches state v).0 ∙ rw h refl

remove_absent :
    {V : Type 0} (k j : String) (d : Dict V)
    → Dict.lookup j d ≡ none
    → Dict.lookup j (Dict.remove k d) ≡ none
remove_absent k j d h = ground (arith, lookup-remove k j d)

Change-absent :
    {json : JsonText} {e : Event} {before after : Caches} (state : String)
    → Change json e before after
    → DrawsOther state e
    → IsValid before
    → Dict.lookup state before.authorizations ≡ none
    → Dict.lookup state after.authorizations ≡ none
Change-absent state Change.kept s v h = h
Change-absent {e} {before} state Change.pruned s v h = pruned_absent state _ before v h
Change-absent {e} {before} state (Change.issued form d route given) s v h =
    insert_spares _ state _ _ none s (pruned_absent state _ before v h)
Change-absent state (Change.consumed args j route given) s v h = remove_absent j state _ h
Change-absent state (Change.granted args j b token route given pending) s v h =
    remove_absent j state _ h
Change-absent {e} {before} state (Change.refreshed form id g token route found) s v h =
    pruned_absent state _ before v h

module _ (config : Config) (json : JsonText) where
  pub run-Spares :
      (state : String) (a : Authorization) (events : List Event) (caches : Caches)
      → All (Spares state a) events
      → IsValid caches
      → Dict.lookup state caches.authorizations ≡ some a
      → Dict.lookup state (run config json events caches).authorizations ≡ some a
  unfolding run
  run-Spares state a [] caches s v h = h
  run-Spares state a (e ∷ events) caches s v h =
      run-Spares state a events (handle config json e caches).site.caches s.1
        (handle-IsValid config json e caches v)
        (Change-Spares state a (handle-Change config json e caches) s.0 v h)

  pub run-absent :
      (state : String) (events : List Event) (caches : Caches)
      → All (DrawsOther state) events
      → IsValid caches
      → Dict.lookup state caches.authorizations ≡ none
      → Dict.lookup state (run config json events caches).authorizations ≡ none
  unfolding run
  run-absent state [] caches s v h = h
  run-absent state (e ∷ events) caches s v h =
      run-absent state events (handle config json e caches).site.caches s.1
        (handle-IsValid config json e caches v)
        (Change-absent state (handle-Change config json e caches) s.0 v h)
