-- ===== src/Introspection/Cache.antt =====
-- introspection/cache.go: the cache of verdicts. Each method runs under the mutex, and the instant that
-- the cache's clock reads is an argument. A value of the model is not shared, so a stored entry is the
-- deep copy that `copyClaims` makes of it.
use mcp_auth_go.Prelude.{
  Str, eq_refl, Bool, Option, none, some, [], GoMap, lookup, insert, delete, lookup-insert, Time,
  Duration, ◌-ℤ◌, before, if◌then◌else◌, ◌≡◌, arith,
}
use mcp_auth_go.Core.Claims.{Claims}

-- The interface `Cache`, under a name of its own.
pub record IntrospectionCache : Type 1 where
  pub State : Type 0
  pub get : State → Time → Str → State × Option Claims
  pub set : State → Str → Claims → State

pub record MemoryCache : Type 0 where
  pub leeway : Duration
  pub items : GoMap Claims

unfoldable pub new_memory_cache : Duration → MemoryCache
new_memory_cache leeway = record { leeway = leeway; items = [] }

-- `c.now().Before(claims.ExpiresAt.Add(-c.leeway))`.
unfoldable pub is_fresh : MemoryCache → Time → Claims → Bool
is_fresh c now claims = before now (claims.expires_at -ℤ c.leeway)

unfoldable pub get : MemoryCache → Time → Str → MemoryCache × Option Claims
get c now key = elim (lookup key c.items) [
  | none ↦ (c, none)
  | some claims ↦
      if is_fresh c now claims
      then (c, some claims)
      else (record c { items = delete key c.items }, none)
]

unfoldable pub set : MemoryCache → Str → Claims → MemoryCache
set c key claims = record c { items = insert key claims c.items }

abbrev pub memory_cache : IntrospectionCache
memory_cache = record { State = MemoryCache; get = get; set = set }

-- What a lookup of a key that was just set finds: the entry, as long as it is fresh.
pub get-set :
    (c : MemoryCache) (key : Str) (claims : Claims) (now : Time)
    → get (set c key claims) now key ≡ (
        if is_fresh c now claims
        then (set c key claims, some claims)
        else (record c { items = delete key (insert key claims c.items) }, none))
unfolding get set is_fresh
get-set c key claims now = ground (arith, eq_refl key, lookup-insert key key claims c.items)
