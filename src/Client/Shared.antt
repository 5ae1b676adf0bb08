-- ===== src/Client/Shared.antt =====
-- The state of test-client/app.py that the threads of its process share: the two caches, where a
-- token entry is a `dict` object that a thread may hold and change outside CACHE_LOCK.
pub mod Objects
pub mod WellFormed
use keycloak_oidc4ac_lab.Prelude.{ℕ, ◌+◌, ◌-◌, String, List, [], ◌∷◌, nat_eq, if◌then◌else◌}
use keycloak_oidc4ac_lab.Prelude.Dict
use keycloak_oidc4ac_lab.Prelude.Dict.{Dict}
use keycloak_oidc4ac_lab.Json.{Value, null}
use keycloak_oidc4ac_lab.Client.Caches.{Authorization, Grant, Caches, prune, cache_ttl}

-- The state that the threads share. TOKEN_CACHE maps an id to the address of a `dict` object, which
-- a thread may hold after the cache has dropped it; `next` is the address of the next object.
pub record Shared : Type 0 where
  pub authorizations : Dict Authorization
  pub tokens : Dict ℕ
  pub grants : ℕ → Grant
  pub next : ℕ

abbrev pub init : Shared
init = record {
  authorizations = [];
  tokens = [];
  grants = λ address. record { refresh_token = null; claims = []; created_at = 0 };
  next = 0;
}

-- The entries with the objects that their addresses stand for.
unfoldable pub resolve : (ℕ → Grant) → Dict ℕ → Dict Grant
resolve grants [] = []
resolve grants ((id, address) ∷ tokens) = (id, grants address) ∷ resolve grants tokens

-- The caches as a handler sees them between two sections under the lock.
abbrev pub caches_of : Shared → Caches
caches_of shared = record {
  authorizations = shared.authorizations;
  tokens = resolve shared.grants shared.tokens;
}

abbrev pub write : ℕ → Grant → (ℕ → Grant) → ℕ → Grant
write address grant grants other = if nat_eq other address then grant else grants other

-- `cached["refresh_token"] = …` and `cached["created_at"] = …`
abbrev pub set_refresh_token : ℕ → Value → Shared → Shared
set_refresh_token address v shared = record shared {
  grants = write address (record (shared.grants address) { refresh_token = v }) shared.grants;
}

abbrev pub set_created_at : ℕ → ℕ → Shared → Shared
set_created_at address now shared = record shared {
  grants = write address (record (shared.grants address) { created_at = now }) shared.grants;
}

unfoldable pub prune_shared : ℕ → Shared → Shared
prune_shared now shared = record shared {
  authorizations = prune (λ a. a.created_at) (now - cache_ttl) shared.authorizations;
  tokens = prune (λ address. (shared.grants address).created_at) (now - cache_ttl) shared.tokens;
}

-- `AUTHORIZATION_CACHE.pop(context_id, None)`, the cache that is left
abbrev pub pop_context : String → Shared → Shared
pop_context state shared = record shared {
  authorizations = Dict.remove state shared.authorizations;
}

abbrev pub add_authorization : String → Authorization → Shared → Shared
add_authorization state a shared = record shared {
  authorizations = Dict.insert state a shared.authorizations;
}

-- `TOKEN_CACHE[result_id] = {…}`, with a new object
abbrev pub add_grant : String → Grant → Shared → Shared
add_grant id grant shared = record {
  authorizations = shared.authorizations;
  tokens = Dict.insert id shared.next shared.tokens;
  grants = write shared.next grant shared.grants;
  next = shared.next + 1;
}
