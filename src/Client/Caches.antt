-- ===== src/Client/Caches.antt =====
-- The process-wide caches of test-client/app.py, and `prune_caches`.
pub mod Prune
use keycloak_oidc4ac_lab.Prelude.{
  ℕ, ◌-◌, ◌*◌, String, Bool, Option, List, [], ◌∷◌, ltb, if◌then◌else◌,
}
use keycloak_oidc4ac_lab.Prelude.Dict
use keycloak_oidc4ac_lab.Prelude.Dict.{Dict}
use keycloak_oidc4ac_lab.Json.{Value}

-- Times are whole microseconds since the epoch.
abbrev pub microseconds : ℕ
microseconds = 1000000

abbrev pub cache_ttl : ℕ
cache_ttl = 15 * 60 * microseconds

-- An entry of AUTHORIZATION_CACHE: a pending authorization, under its `state`.
pub record Authorization : Type 0 where
  pub claims : Dict Value
  pub nonce : String
  pub created_at : ℕ

-- An entry of TOKEN_CACHE: `refresh_token` is what `token.get("refresh_token")` returned.
pub record Grant : Type 0 where
  pub refresh_token : Value
  pub claims : Dict Value
  pub created_at : ℕ

pub record Caches : Type 0 where
  pub authorizations : Dict Authorization
  pub tokens : Dict Grant

module _ {V : Type 0} (created_at : V → ℕ) (cutoff : ℕ) where
  -- `[key for key, value in cache.items() if value.get("created_at", 0) < cutoff]`
  unfoldable pub expired : Dict V → List String
  expired [] = []
  expired ((k, v) ∷ cache) =
      let rest = expired cache in if ltb (created_at v) cutoff then k ∷ rest else rest

abbrev pub pop_all : {V : Type 0} → List String → Dict V → Dict V
pop_all [] cache = cache
pop_all (k ∷ ks) cache = pop_all ks (Dict.remove k cache)

abbrev pub prune : {V : Type 0} → (V → ℕ) → ℕ → Dict V → Dict V
prune created_at cutoff cache = pop_all (expired created_at cutoff cache) cache

-- `now - CACHE_TTL_SECONDS` stops at 0 here, where no entry is older in either reading.
unfoldable pub prune_caches : ℕ → Caches → Caches
prune_caches now caches = record {
  authorizations = prune (λ a. a.created_at) (now - cache_ttl) caches.authorizations;
  tokens = prune (λ g. g.created_at) (now - cache_ttl) caches.tokens;
}
