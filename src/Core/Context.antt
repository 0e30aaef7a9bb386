-- ===== src/Core/Context.antt =====
-- context.go: the values that the library keeps in a `context.Context`.
-- `Ctx` holds the values that the program reads from a context: under the two keys of this package,
-- and the `TokenInfo` that the MCP SDK keeps under a key of its own.
use mcp_auth_go.Prelude.{Str, Time, GoMap, Option, none, some, List}
use mcp_auth_go.Core.Claims.{Claims}

-- The values that the program puts into `TokenInfo.Extra`, a `map[string]any`.
pub data Extra : Type 0 where
  claims : Claims → Extra
  text : Str → Extra

-- The SDK's `TokenInfo`.
pub record TokenInfo : Type 0 where
  pub scopes : List Str
  pub expiration : Time
  pub user_id : Str
  pub extra : GoMap Extra

pub record Ctx : Type 0 where
  pub claims : Option Claims
  pub raw_token : Option Str
  pub token_info : Option TokenInfo

-- `context.Background()`.
abbrev pub background : Ctx
background = record { claims = none; raw_token = none; token_info = none }

unfoldable pub with_claims : Ctx → Claims → Ctx
with_claims ctx c = record ctx { claims = some c }

unfoldable pub claims_from : Ctx → Option Claims
claims_from ctx = ctx.claims

unfoldable pub with_raw_token : Ctx → Str → Ctx
with_raw_token ctx raw = record ctx { raw_token = some raw }

unfoldable pub raw_token_from : Ctx → Option Str
raw_token_from ctx = ctx.raw_token
