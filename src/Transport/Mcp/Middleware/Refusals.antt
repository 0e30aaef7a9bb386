-- ===== src/Transport/Mcp/Middleware/Refusals.antt =====
-- transport/mcpauth/middleware.go: the response to a request whose proof is refused, whatever challenge
-- the SDK writes for it.
use mcp_auth_go.Prelude.{Str, str, Option, some, List, lookup, Time, ◌≢◌}
use mcp_auth_go.Core.Claims.{Claims}
use mcp_auth_go.Dpop.Verifier.{Verifier}
use mcp_auth_go.Transport.Wire.{HeaderValue, Response}
use mcp_auth_go.Transport.Mcp.Challenge.{ChallengeWriter}
use mcp_auth_go.Transport.Mcp.Middleware.{WriterCall, set_call, wrapped_calls}

-- The call sets a header.
abbrev pub Sets : WriterCall → Type 0
Sets (set_call name value) = Unit
Sets _ = ⊥

-- The call does not set the challenge.
abbrev pub Leaves : WriterCall → Type 0
Leaves (set_call name value) = name ≢ str "WWW-Authenticate"
Leaves _ = Unit

abbrev pub challenge_of : Response → Option HeaderValue
challenge_of w = lookup (str "WWW-Authenticate") w.headers

module _ (dv : Verifier) (url : Str) (code : Str) (now : Time) where
  abbrev pub run_calls : List WriterCall → ChallengeWriter → ChallengeWriter
  run_calls calls cw = wrapped_calls dv url (some code) now calls cw
