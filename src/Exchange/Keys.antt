-- ===== src/Exchange/Keys.antt =====
-- exchange/exchanger.go: which requests share a key of the cache.
use mathlib.Core.List.{Perm}
use mcp_auth_go.Prelude.{◌≡◌, refl}
use mcp_auth_go.Exchange.Strings.Order.{sort_strings-Perm}
use mcp_auth_go.Exchange.Forms.{Request}
use mcp_auth_go.Exchange.{cache_key}

-- Two requests that agree in subject, audience and both token types, and whose scopes are the same up to
-- their order, have the same key of the cache, whatever their other fields are.
pub cache_key-Perm :
    (req req' : Request)
    → req.subject ≡ req'.subject
    → req.audience ≡ req'.audience
    → req.subject_token_type ≡ req'.subject_token_type
    → req.requested_token_type ≡ req'.requested_token_type
    → Perm req.scope req'.scope
    → cache_key req ≡ cache_key req'
unfolding cache_key
cache_key-Perm req req' s a t r p = rw (s, a, t, r, sort_strings-Perm req.scope req'.scope p) refl
