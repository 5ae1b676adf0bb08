-- ===== src/Client/Caches/Prune.antt =====
-- What `prune_caches` leaves: exactly the entries that have not outlived their time.
use keycloak_oidc4ac_lab.Prelude.{
  ℕ, ◌+◌, ◌-◌, String, ◌≡◌, refl, false, Option, none, some, List, [], ◌∷◌, arith, ltb, eq_iff,
  if◌then◌else◌, leb, ◌∙◌,
}
use keycloak_oidc4ac_lab.Prelude.Dict
use keycloak_oidc4ac_lab.Prelude.Dict.{Dict, lookup-remove, is_member}
use keycloak_oidc4ac_lab.Prelude.Dict.Unique.{IsUnique, remove-IsUnique, lookup_of_not_mem}
use keycloak_oidc4ac_lab.Client.Caches.{Caches, cache_ttl, expired, pop_all, prune, prune_caches}

module _ {V : Type 0} where
  pub pop_all-IsUnique : (ks : List String) (d : Dict V) → IsUnique d → IsUnique (pop_all ks d)
  pop_all-IsUnique [] d h = h
  pop_all-IsUnique (k ∷ ks) d h = pop_all-IsUnique ks (Dict.remove k d) (remove-IsUnique k d h)

  lookup-pop_all :
      (j : String) (ks : List String) (d : Dict V)
      → Dict.lookup j (pop_all ks d) ≡ (if is_member j ks then none else Dict.lookup j d)
  lookup-pop_all j [] d = refl
  lookup-pop_all j (k ∷ ks) d =
      ground (arith, lookup-pop_all j ks (Dict.remove k d), lookup-remove k j d)

  -- An entry that is not older than the cutoff.
  abbrev pub fresh : (V → ℕ) → ℕ → Option V → Option V
  fresh created_at cutoff none = none
  fresh created_at cutoff (some v) = if ltb (created_at v) cutoff then none else some v

module _ {V : Type 0} (created_at : V → ℕ) (cutoff : ℕ) where
  not_expired :
      (j : String) (d : Dict V)
      → Dict.mem j d ≡ false
      → is_member j (expired created_at cutoff d) ≡ false
  unfolding Dict.mem expired
  not_expired j [] h = refl
  not_expired j ((k, v) ∷ d) h = ground (arith, not_expired j d)

  lookup-prune_core :
      (j : String) (d : Dict V)
      → IsUnique d
      → (if is_member j (expired created_at cutoff d) then none else Dict.lookup j d)
        ≡ fresh created_at cutoff (Dict.lookup j d)
  unfolding Dict.lookup expired
  lookup-prune_core j [] h = refl
  lookup-prune_core j ((k, v) ∷ d) h =
      ground (
        arith,
        lookup-prune_core j d h.1,
        eq_iff k j,
        not_expired k d h.0,
        lookup_of_not_mem k d h.0,
      )

  pub lookup-prune :
      (j : String) (d : Dict V)
      → IsUnique d
      → Dict.lookup j (prune created_at cutoff d) ≡ fresh created_at cutoff (Dict.lookup j d)
  lookup-prune j d h =
      ground (arith, lookup-pop_all j (expired created_at cutoff d) d, lookup-prune_core j d h)

  pub prune-IsUnique : (d : Dict V) → IsUnique d → IsUnique (prune created_at cutoff d)
  prune-IsUnique d h = pop_all-IsUnique (expired created_at cutoff d) d h

-- Both caches hold each key once.
pub record IsValid (caches : Caches) : Type 0 where
  pub authorizations : IsUnique caches.authorizations
  pub tokens : IsUnique caches.tokens

-- An entry, if it was made at most fifteen minutes before `now`.
abbrev pub alive : {V : Type 0} → (V → ℕ) → ℕ → Option V → Option V
alive created_at now none = none
alive created_at now (some v) = if leb now (created_at v + cache_ttl) then some v else none

fresh-eq-alive :
    {V : Type 0} (created_at : V → ℕ) (now : ℕ) (o : Option V)
    → fresh created_at (now - cache_ttl) o ≡ alive created_at now o
fresh-eq-alive created_at now none = refl
fresh-eq-alive created_at now (some v) = ground arith

pub prune_caches-IsUnique :
    (now : ℕ) (caches : Caches) → IsValid caches → IsValid (prune_caches now caches)
unfolding prune_caches
prune_caches-IsUnique now caches h = record {
  authorizations =
      prune-IsUnique (λ a. a.created_at) (now - cache_ttl) caches.authorizations h.authorizations;
  tokens = prune-IsUnique (λ g. g.created_at) (now - cache_ttl) caches.tokens h.tokens;
}

-- After `prune_caches`, on caches that hold each key once, both caches have, under each key, the entry that they had there if it was
-- made at most fifteen minutes ago, and nothing otherwise.
pub lookup-prune_caches :
    (now : ℕ) (caches : Caches) (k : String)
    → IsValid caches
    → (Dict.lookup k (prune_caches now caches).authorizations
        ≡ alive (λ a. a.created_at) now (Dict.lookup k caches.authorizations))
      × (Dict.lookup k (prune_caches now caches).tokens
          ≡ alive (λ g. g.created_at) now (Dict.lookup k caches.tokens))
unfolding prune_caches
lookup-prune_caches now caches k h = (
  lookup-prune (λ a. a.created_at) (now - cache_ttl) k caches.authorizations h.authorizations
      ∙ fresh-eq-alive (λ a. a.created_at) now (Dict.lookup k caches.authorizations),
  lookup-prune (λ g. g.created_at) (now - cache_ttl) k caches.tokens h.tokens
      ∙ fresh-eq-alive (λ g. g.created_at) now (Dict.lookup k caches.tokens),
)

-- An entry that is still alive was there before.
pub entry_of_alive :
    {V : Type 0} (created_at : V → ℕ) (now : ℕ) (o : Option V) (v : V)
    → alive created_at now o ≡ some v
    → o ≡ some v
entry_of_alive created_at now none v h = h
entry_of_alive created_at now (some w) v h = ground arith
