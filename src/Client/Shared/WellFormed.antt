-- ===== src/Client/Shared/WellFormed.antt =====
-- The invariant of the shared state of test-client/app.py: each key once, and a distinct object under
-- each id of TOKEN_CACHE.
use keycloak_oidc4ac_lab.Prelude.{
  ℕ, ◌+◌, ◌-◌, String, false, List, [], ◌∷◌, ◌≡◌, ◌==◌, nat_eq, arith, inl, inr, Bool-cases,
}
use keycloak_oidc4ac_lab.Prelude.Dict
use keycloak_oidc4ac_lab.Prelude.Dict.{Dict}
use keycloak_oidc4ac_lab.Prelude.Dict.Unique.{IsUnique, insert-IsUnique, remove-IsUnique}
use keycloak_oidc4ac_lab.Client.Caches.{Authorization, Grant, expired, pop_all, cache_ttl}
use keycloak_oidc4ac_lab.Client.Caches.Prune.{prune-IsUnique}
use keycloak_oidc4ac_lab.Client.Shared.{
  Shared, init, prune_shared, pop_context, add_authorization, add_grant,
}
use keycloak_oidc4ac_lab.Client.Shared.Objects.{Misses, AreDistinct, Below}

-- The entries of a token cache are distinct objects, allocated so far.
abbrev pub AreOwn : ℕ → Dict ℕ → Type 0
AreOwn next tokens = AreDistinct tokens × Below next tokens

pub record WellFormed (shared : Shared) : Type 0 where
  pub authorizations : IsUnique shared.authorizations
  pub tokens : IsUnique shared.tokens
  pub objects : AreOwn shared.next shared.tokens

pub Below-Misses : (next : ℕ) (tokens : Dict ℕ) → Below next tokens → Misses next tokens
Below-Misses next [] h = tt
Below-Misses next ((id, a) ∷ tokens) h = (ground arith, Below-Misses next tokens h.1)

remove-Misses :
    (a : ℕ) (id : String) (tokens : Dict ℕ) → Misses a tokens → Misses a (Dict.remove id tokens)
unfolding Dict.remove
remove-Misses a id [] h = tt
remove-Misses a id ((j, b) ∷ tokens) h = elim (Bool-cases (j == id)) [
  | inl e ↦ rw e (remove-Misses a id tokens h.1)
  | inr e ↦ rw e (h.0, remove-Misses a id tokens h.1)
]

remove-AreOwn :
    (next : ℕ) (id : String) (tokens : Dict ℕ)
    → AreOwn next tokens
    → AreOwn next (Dict.remove id tokens)
unfolding Dict.remove
remove-AreOwn next id [] h = h
remove-AreOwn next id ((j, b) ∷ tokens) (d, below) =
    let rest = remove-AreOwn next id tokens (d.1, below.1) in
    elim (Bool-cases (j == id)) [
      | inl e ↦ rw e rest
      | inr e ↦ rw e ((remove-Misses b id tokens d.0, rest.0), (below.0, rest.1))
    ]

pop_all-AreOwn :
    (next : ℕ) (ids : List String) (tokens : Dict ℕ)
    → AreOwn next tokens
    → AreOwn next (pop_all ids tokens)
pop_all-AreOwn next [] tokens h = h
pop_all-AreOwn next (id ∷ ids) tokens h =
    pop_all-AreOwn next ids (Dict.remove id tokens) (remove-AreOwn next id tokens h)

Below-suc : (next : ℕ) (tokens : Dict ℕ) → Below next tokens → Below (next + 1) tokens
Below-suc next [] h = tt
Below-suc next ((id, a) ∷ tokens) h = (omega arith, Below-suc next tokens h.1)

insert-Misses :
    (a b : ℕ) (id : String) (tokens : Dict ℕ)
    → nat_eq b a ≡ false
    → Misses a tokens
    → Misses a (Dict.insert id b tokens)
unfolding Dict.insert
insert-Misses a b id [] n h = (n, tt)
insert-Misses a b id ((j, c) ∷ tokens) n h = elim (Bool-cases (j == id)) [
  | inl e ↦ rw e (n, h.1)
  | inr e ↦ rw e (h.0, insert-Misses a b id tokens n h.1)
]

insert-AreOwn :
    (next : ℕ) (id : String) (tokens : Dict ℕ)
    → AreOwn next tokens
    → AreOwn (next + 1) (Dict.insert id next tokens)
unfolding Dict.insert
insert-AreOwn next id [] h = ((tt, tt), (omega arith, tt))
insert-AreOwn next id ((j, b) ∷ tokens) (d, below) = elim (Bool-cases (j == id)) [
  | inl e ↦
      rw e ((Below-Misses next tokens below.1, d.1), (omega arith, Below-suc next tokens below.1))
  | inr e ↦
      let rest = insert-AreOwn next id tokens (d.1, below.1) in
      rw e ((insert-Misses b next id tokens (ground arith) d.0, rest.0), (omega arith, rest.1))
]

pub init-WellFormed : WellFormed init
init-WellFormed = record { authorizations = tt; tokens = tt; objects = (tt, tt) }

pub prune_shared-WellFormed :
    (now : ℕ) (shared : Shared) → WellFormed shared → WellFormed (prune_shared now shared)
unfolding prune_shared
prune_shared-WellFormed now shared h =
    let cutoff = now - cache_ttl in
    let age : ℕ → ℕ = λ a. (shared.grants a).created_at in
    record {
      authorizations =
          prune-IsUnique (λ a. a.created_at) cutoff shared.authorizations h.authorizations;
      tokens = prune-IsUnique age cutoff shared.tokens h.tokens;
      objects =
          pop_all-AreOwn shared.next (expired age cutoff shared.tokens) shared.tokens h.objects;
    }

pub pop_context-WellFormed :
    (state : String) (shared : Shared) → WellFormed shared → WellFormed (pop_context state shared)
pop_context-WellFormed state shared h = record {
  authorizations = remove-IsUnique state shared.authorizations h.authorizations;
  tokens = h.tokens;
  objects = h.objects;
}

pub add_authorization-WellFormed :
    (state : String) (a : Authorization) (shared : Shared)
    → WellFormed shared
    → WellFormed (add_authorization state a shared)
add_authorization-WellFormed state a shared h = record {
  authorizations = insert-IsUnique state a shared.authorizations h.authorizations;
  tokens = h.tokens;
  objects = h.objects;
}

pub add_grant-WellFormed :
    (id : String) (grant : Grant) (shared : Shared)
    → WellFormed shared
    → WellFormed (add_grant id grant shared)
add_grant-WellFormed id grant shared h = record {
  authorizations = h.authorizations;
  tokens = insert-IsUnique id shared.next shared.tokens h.tokens;
  objects = insert-AreOwn shared.next id shared.tokens h.objects;
}

pub write-WellFormed :
    (grants : ℕ → Grant) (shared : Shared)
    → WellFormed shared
    → WellFormed (record shared { grants = grants })
write-WellFormed grants shared h = record {
  authorizations = h.authorizations;
  tokens = h.tokens;
  objects = h.objects;
}
