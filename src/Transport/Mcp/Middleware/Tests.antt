-- ===== src/Transport/Mcp/Middleware/Tests.antt =====
-- transport/mcpauth/middleware.go: the theorem at an SDK that answers with its own challenge.
use mcp_auth_go.Prelude.{str, none, some, [], ◌∷◌, pos, true, false}
use mcp_auth_go.Core.Errors.{GoError, ok}
use mcp_auth_go.Core.Claims.{Claims}
use mcp_auth_go.Dpop.Verifier.{Jws, Verifier, require, bad_proof}
use mcp_auth_go.Transport.Wire.{Request, text, no_body}
use mcp_auth_go.Transport.Http.{TokenValidator}
use mcp_auth_go.Transport.Mcp.Middleware.{set_call, status_call, body_call, Options, BearerSdk}

abbrev ann : Claims
ann = record {
  subject = str "ann";
  email = [];
  issuer = [];
  audience = [];
  expires_at = pos 0;
  issued_at = pos 0;
  scopes = [];
  confirmation = str "jkt";
  raw = [];
}

abbrev no_jws : Jws
no_jws = record {
  Key = Unit {0};
  Message = Unit {0};
  parse = λ p. none;
  signatures = λ m. [];
  payload = λ m. [];
  is_private_key = λ k. none;
  verify = λ p alg k. false;
  thumbprint = λ k. none;
  unmarshal = λ p. none;
  sha256 = λ s. s;
  base64 = λ s. s;
  parse_url = λ s. none;
  url_string = λ u. u.base;
}

abbrev sdk : BearerSdk
sdk = record {
  token_of = λ req. some (str "t");
  missing = λ o. status_call 401 ∷ [];
  refused = λ o err.
      set_call (str "WWW-Authenticate") (text (str "Bearer"))
      ∷ status_call 401
      ∷ body_call no_body
      ∷ [];
  shortfall = λ o ti. none;
}

abbrev v : Verifier
v = record { mode = require; iat_leeway = pos 60000000000; alg_allow = []; nonce = none }

abbrev options : Options
options = record { resource_metadata_url = []; scopes = []; dpop = some v; base_url = [] }

abbrev get_x : Request
get_x = record { method = str "GET"; header = []; path = str "/x"; host = str "a"; tls = true }

abbrev accepting : TokenValidator
accepting = record { validate = λ ctx bearer. ok ann }

abbrev refusal : GoError
refusal = bad_proof "bound token presented without a dpop proof"
