-- ===== src/Exchange/Cache.antt =====
-- exchange/cache.go: the cache of exchanged tokens. Each method runs under the mutex, and the instant
-- that the cache's clock reads is an argument. `none` is the zero instant of `ExpiresAt`.
use mcp_auth_go.Prelude.{
  Str, eq_refl, Bool, false, Option, none, some, List, [], GoMap, lookup, insert, delete,
  lookup-insert, Time, Duration, ◌-ℤ◌, ◌+ℤ◌, ◌<ℤ◌, before, ltb_ℤ_iff, -ℤ_parts, +ℤ_parts,
  if◌then◌else◌, ◌≡◌, ◌↔◌, arith,
}

pub record Token : Type 0 where
  pub access_token : Str
  pub issued_token_type : Str
  pub token_type : Str
  pub expires_at : Option Time
  pub scopes : List Str

-- The interface `Cache`.
pub record ExchangeCache : Type 1 where
  pub State : Type 0
  pub get : State → Time → Str → State × Option Token
  pub set : State → Str → Token → State

pub record MemoryCache : Type 0 where
  pub leeway : Duration
  pub items : GoMap Token

unfoldable pub new_memory_cache : Duration → MemoryCache
new_memory_cache leeway = record { leeway = leeway; items = [] }

-- `c.now().Before(tok.ExpiresAt.Add(-c.leeway))`.
unfoldable pub is_fresh : MemoryCache → Time → Token → Bool
is_fresh c now tok = elim tok.expires_at [ none ↦ false | some exp ↦ before now (exp -ℤ c.leeway) ]

unfoldable pub get : MemoryCache → Time → Str → MemoryCache × Option Token
get c now key = elim (lookup key c.items) [
  | none ↦ (c, none)
  | some tok ↦
      if is_fresh c now tok then (c, some tok) else (record c { items = delete key c.items }, none)
]

unfoldable pub set : MemoryCache → Str → Token → MemoryCache
set c key tok = record c { items = insert key tok c.items }

abbrev pub memory_cache : ExchangeCache
memory_cache = record { State = MemoryCache; get = get; set = set }

-- A token that was just stored under a key is what a lookup of that key yields exactly while the
-- leeway before its expiry has not begun; and a lookup that finds it late removes it.
pub get-set :
    (c : MemoryCache) (key : Str) (tok : Token) (exp now : Time)
    → tok.expires_at ≡ some exp
    → ((get (set c key tok) now key).1 ≡ some tok) ↔ (now +ℤ c.leeway <ℤ exp)
unfolding get set is_fresh
get-set c key tok exp now e = (
  λ h. ground (
    arith,
    eq_refl key,
    lookup-insert key key tok c.items,
    ltb_ℤ_iff now (exp -ℤ c.leeway),
    -ℤ_parts exp c.leeway,
    +ℤ_parts now c.leeway,
  ),
  λ h. ground (
    arith,
    eq_refl key,
    lookup-insert key key tok c.items,
    ltb_ℤ_iff now (exp -ℤ c.leeway),
    -ℤ_parts exp c.leeway,
    +ℤ_parts now c.leeway,
  ),
)
