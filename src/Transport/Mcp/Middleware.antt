-- ===== src/Transport/Mcp/Middleware.antt =====
-- transport/mcpauth/middleware.go: the SDK's middleware with the verifier and the challenge writer.
-- `BearerSdk` stands for the SDK's `RequireBearerToken`: the token that it takes from a request, what it
-- writes where there is none, where the verifier fails, and where the token lacks a scope; in any other
-- case it calls the next handler with the token information in the context. A handler is what it writes.
pub mod Header
pub mod Refusals
mod Tests
use mcp_auth_go.Prelude.{ℕ, Str, false, Option, none, some, List, [], ◌∷◌, insert, Time}
use mcp_auth_go.Core.Errors.{GoError, Result, ok, fail}
use mcp_auth_go.Core.Context.{TokenInfo, Ctx}
use mcp_auth_go.Dpop.Replay.{ReplayCache}
use mcp_auth_go.Dpop.Verifier.{Jws, Verifier}
use mcp_auth_go.Transport.Wire.{Request, HeaderValue, Body, Response, write_header, write_body}
use mcp_auth_go.Transport.Http.{TokenValidator}
use mcp_auth_go.Transport.Mcp.Tokens.{verify_token}
use mcp_auth_go.Transport.Mcp.Challenge.{ChallengeWriter, write_status, write}

-- A call of a response writer: `Header().Set`, `WriteHeader` or `Write`.
pub data WriterCall : Type 0 where
  set_call : Str → HeaderValue → WriterCall
  status_call : ℕ → WriterCall
  body_call : Body → WriterCall

-- The server's own writer, whose `Write` begins with the status 200 where there is none.
unfoldable pub plain_call : WriterCall → Response → Response
plain_call (set_call name value) w = record w { headers = insert name value w.headers }
plain_call (status_call code) w = write_header code w
plain_call (body_call body) w = write_body body (write_header 200 w)

unfoldable pub plain_calls : List WriterCall → Response → Response
plain_calls [] w = w
plain_calls (c ∷ calls) w = plain_calls calls (plain_call c w)

module _ (dv : Verifier) (resource_metadata_url : Str) (st : Option Str) (now : Time) where
  -- The challenge writer, which embeds the server's.
  unfoldable pub wrapped_call : WriterCall → ChallengeWriter → ChallengeWriter
  wrapped_call (set_call name value) cw = record cw {
    response = plain_call (set_call name value) cw.response;
  }
  wrapped_call (status_call code) cw = write_status dv resource_metadata_url st now code cw
  wrapped_call (body_call body) cw = write dv resource_metadata_url st now body cw

  unfoldable pub wrapped_calls : List WriterCall → ChallengeWriter → ChallengeWriter
  wrapped_calls [] cw = cw
  wrapped_calls (c ∷ calls) cw = wrapped_calls calls (wrapped_call c cw)

pub record Options : Type 0 where
  pub resource_metadata_url : Str
  pub scopes : List Str
  pub dpop : Option Verifier
  pub base_url : Str

-- The SDK's `RequireBearerTokenOptions`.
pub record SdkOptions : Type 0 where
  pub resource_metadata_url : Str
  pub scopes : List Str

pub record BearerSdk : Type 0 where
  pub token_of : Request → Option Str
  pub missing : Option SdkOptions → List WriterCall
  pub refused : Option SdkOptions → GoError → List WriterCall
  pub shortfall : Option SdkOptions → TokenInfo → Option (List WriterCall)

abbrev pub Handler : Type 0
Handler = Ctx → Request → List WriterCall

-- The fields that `RequireBearerToken` takes from its options, if there are any.
unfoldable pub sdk_options : Option Options → Option SdkOptions
sdk_options none = none
sdk_options (some o) =
    some (record { resource_metadata_url = o.resource_metadata_url; scopes = o.scopes })

unfoldable pub dpop_of : Option Options → Option Verifier
dpop_of none = none
dpop_of (some o) = o.dpop

unfoldable pub base_url_of : Option Options → Str
base_url_of none = []
base_url_of (some o) = o.base_url

unfoldable pub metadata_url_of : Option Options → Str
metadata_url_of none = []
metadata_url_of (some o) = o.resource_metadata_url

-- `dpopChallengeMiddleware` around what is written, where there is a verifier of proofs.
unfoldable pub write_calls :
    Option Verifier → Str → Option Str → Time → List WriterCall → Response → Response
write_calls none url st now calls w = plain_calls calls w
write_calls (some v) url st now calls w =
    (wrapped_calls v url st now calls (record { response = w; wrote_header = false })).response

module _ (j : Jws) (r : ReplayCache) (sdk : BearerSdk) (sdk_message : Str) where
  -- What the SDK writes after the verifier has answered.
  unfoldable pub answer_calls :
      Option SdkOptions → Handler → Ctx → Request → Result TokenInfo → List WriterCall
  answer_calls so next ctx req (fail err) = sdk.refused so err
  answer_calls so next ctx req (ok ti) = elim (sdk.shortfall so ti) [
    | some calls ↦ calls
    | none ↦ next (record ctx { token_info = some ti }) req
  ]

  -- `RequireBearerToken`, on a request at an instant.
  unfoldable pub require_bearer_token :
      TokenValidator
      → Option Options
      → Handler
      → r.State
      → Response
      → Ctx
      → Request
      → Time
      → Time
      → r.State × Response
  require_bearer_token tv opts next rs w ctx req now clock = elim (sdk.token_of req) [
    | none ↦ (
      rs,
      write_calls (dpop_of opts) (metadata_url_of opts) none now (sdk.missing (sdk_options opts)) w,
    )
    | some token ↦
        let (rs', st, res) =
          verify_token j r sdk_message tv (dpop_of opts) (base_url_of opts) rs ctx token (some req)
            now clock in
        (
          rs',
          write_calls (dpop_of opts) (metadata_url_of opts) st now
              (answer_calls (sdk_options opts) next ctx req res) w,
        )
  ]
