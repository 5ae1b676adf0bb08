-- ===== src/Client/Shared/Objects.antt =====
-- The objects of TOKEN_CACHE: while its entries are distinct objects, the operations on the shared
-- state act on the caches as a handler sees them.
use keycloak_oidc4ac_lab.Prelude.{
  ℕ, ◌-◌, ◌<◌, String, Option, true, false, none, some, List, [], ◌∷◌, ◌≡◌, refl, ap, ◌∙◌, ◌==◌,
  nat_eq, ltb, arith, Bool-cases, inl, inr,
}
use mathlib.Core.Path.{subst}
use keycloak_oidc4ac_lab.Prelude.Dict
use keycloak_oidc4ac_lab.Prelude.Dict.{Dict}
use keycloak_oidc4ac_lab.Client.Caches.{Grant, expired, pop_all, prune, cache_ttl, prune_caches}
use keycloak_oidc4ac_lab.Client.Shared.{Shared, resolve, caches_of, write, prune_shared}

abbrev pub value_at : (ℕ → Grant) → Option ℕ → Option Grant
value_at grants none = none
value_at grants (some address) = some (grants address)

-- No entry is the object of the address.
abbrev pub Misses : ℕ → Dict ℕ → Type 0
Misses address [] = Unit {0}
Misses address ((id, other) ∷ tokens) = (nat_eq other address ≡ false) × Misses address tokens

-- The entries are distinct objects, allocated so far.
abbrev pub AreDistinct : Dict ℕ → Type 0
AreDistinct [] = Unit {0}
AreDistinct ((id, address) ∷ tokens) = Misses address tokens × AreDistinct tokens

abbrev pub Below : ℕ → Dict ℕ → Type 0
Below next [] = Unit {0}
Below next ((id, address) ∷ tokens) = (address < next) × Below next tokens

pub lookup-resolve :
    (grants : ℕ → Grant) (id : String) (tokens : Dict ℕ)
    → Dict.lookup id (resolve grants tokens) ≡ value_at grants (Dict.lookup id tokens)
unfolding resolve Dict.lookup
lookup-resolve grants id [] = refl
lookup-resolve grants id ((j, a) ∷ tokens) = elim (Bool-cases (j == id)) [
  | inl e ↦ rw e refl
  | inr e ↦ rw e (lookup-resolve grants id tokens)
]

remove-resolve :
    (grants : ℕ → Grant) (id : String) (tokens : Dict ℕ)
    → resolve grants (Dict.remove id tokens) ≡ Dict.remove id (resolve grants tokens)
unfolding resolve Dict.remove
remove-resolve grants id [] = refl
remove-resolve grants id ((j, a) ∷ tokens) = elim (Bool-cases (j == id)) [
  | inl e ↦ rw e (remove-resolve grants id tokens)
  | inr e ↦ rw e (ap (λ d. (j, grants a) ∷ d) (remove-resolve grants id tokens))
]

pop_all-resolve :
    (grants : ℕ → Grant) (ids : List String) (tokens : Dict ℕ)
    → resolve grants (pop_all ids tokens) ≡ pop_all ids (resolve grants tokens)
pop_all-resolve grants [] tokens = refl
pop_all-resolve grants (id ∷ ids) tokens =
    pop_all-resolve grants ids (Dict.remove id tokens)
    ∙ ap (pop_all ids) (remove-resolve grants id tokens)

expired-resolve :
    (grants : ℕ → Grant) (cutoff : ℕ) (tokens : Dict ℕ)
    → expired (λ a. (grants a).created_at) cutoff tokens
      ≡ expired (λ g. g.created_at) cutoff (resolve grants tokens)
unfolding resolve expired
expired-resolve grants cutoff [] = refl
expired-resolve grants cutoff ((j, a) ∷ tokens) =
    elim (Bool-cases (ltb (grants a).created_at cutoff)) [
      | inl e ↦ rw e (ap (λ ids. j ∷ ids) (expired-resolve grants cutoff tokens))
      | inr e ↦ rw e (expired-resolve grants cutoff tokens)
    ]

pub prune_shared-caches_of :
    (now : ℕ) (shared : Shared)
    → caches_of (prune_shared now shared) ≡ prune_caches now (caches_of shared)
unfolding prune_shared prune_caches
prune_shared-caches_of now shared =
    let grants = shared.grants in
    let cutoff = now - cache_ttl in
    ap
      (λ tokens. record {
        authorizations = prune (λ a. a.created_at) cutoff shared.authorizations;
        tokens = tokens;
      })
      (pop_all-resolve grants (expired (λ a. (grants a).created_at) cutoff shared.tokens)
          shared.tokens
        ∙ ap (λ ids. pop_all ids (resolve grants shared.tokens))
            (expired-resolve grants cutoff shared.tokens))

-- Writing an object that no entry is.
resolve-write_other :
    (address : ℕ) (grant : Grant) (grants : ℕ → Grant) (tokens : Dict ℕ)
    → Misses address tokens
    → resolve (write address grant grants) tokens ≡ resolve grants tokens
unfolding resolve
resolve-write_other address grant grants [] h = refl
resolve-write_other address grant grants ((id, a) ∷ tokens) h =
    rw h.0 (ap (λ d. (id, grants a) ∷ d) (resolve-write_other address grant grants tokens h.1))

write_own :
    (address : ℕ) (grant : Grant) (grants : ℕ → Grant) → write address grant grants address ≡ grant
write_own address grant grants = ground arith

-- Adding a new object.
pub insert-resolve :
    (id : String) (address : ℕ) (grant : Grant) (grants : ℕ → Grant) (tokens : Dict ℕ)
    → Misses address tokens
    → resolve (write address grant grants) (Dict.insert id address tokens)
      ≡ Dict.insert id grant (resolve grants tokens)
unfolding resolve Dict.insert
insert-resolve id address grant grants [] h =
    ap (λ g. (id, g) ∷ []) (write_own address grant grants)
insert-resolve id address grant grants ((j, a) ∷ tokens) h = elim (Bool-cases (j == id)) [
  | inl e ↦
      rw (e, write_own address grant grants)
        (ap (λ d. (j, grant) ∷ d) (resolve-write_other address grant grants tokens h.1))
  | inr e ↦
      rw (e, h.0) (ap (λ d. (j, grants a) ∷ d) (insert-resolve id address grant grants tokens h.1))
]

other_object :
    (id : String) (address other : ℕ) (tokens : Dict ℕ)
    → Dict.lookup id tokens ≡ some address
    → Misses other tokens
    → nat_eq other address ≡ false
unfolding Dict.lookup
other_object id address other [] h m = absurd (cc h)
other_object id address other ((j, a) ∷ tokens) h m =
    ground (arith, other_object id address other tokens)

-- Writing the object of an entry.
pub resolve-write :
    (id : String) (address : ℕ) (grant : Grant) (grants : ℕ → Grant) (tokens : Dict ℕ)
    → Dict.lookup id tokens ≡ some address
    → AreDistinct tokens
    → resolve (write address grant grants) tokens ≡ Dict.insert id grant (resolve grants tokens)
unfolding resolve Dict.insert Dict.lookup
resolve-write id address grant grants [] h d = absurd (cc h)
resolve-write id address grant grants ((j, a) ∷ tokens) h d = elim (Bool-cases (j == id)) [
  | inl e ↦
      let same : nat_eq a address ≡ true = ground arith in
      let misses : Misses address tokens = subst (λ b. Misses b tokens) (ground arith) d.0 in
      rw (e, same)
        (ap (λ d. (j, grant) ∷ d) (resolve-write_other address grant grants tokens misses))
  | inr e ↦
      let later : Dict.lookup id tokens ≡ some address = ground arith in
      rw (e, other_object id address a tokens later d.0)
        (ap (λ d. (j, grants a) ∷ d) (resolve-write id address grant grants tokens later d.1))
]

-- Writing an object twice.
pub resolve-write-write :
    (address : ℕ) (first second : Grant) (grants : ℕ → Grant) (tokens : Dict ℕ)
    → resolve (write address second (write address first grants)) tokens
      ≡ resolve (write address second grants) tokens
unfolding resolve
resolve-write-write address first second grants [] = refl
resolve-write-write address first second grants ((id, a) ∷ tokens) =
    let rest = resolve-write-write address first second grants tokens in
    elim (Bool-cases (nat_eq a address)) [
      | inl e ↦ rw e (ap (λ d. (id, second) ∷ d) rest)
      | inr e ↦ rw e (ap (λ d. (id, grants a) ∷ d) rest)
    ]

pub nat_eq_refl : (n : ℕ) → nat_eq n n ≡ true
nat_eq_refl n = ground arith
