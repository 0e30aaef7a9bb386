-- ===== src/Introspection/Tests/Requests.antt =====
-- introspection/introspection.go: `Validator` behind the middleware of transport/http, on a request.
use mcp_auth_go.Prelude.{str, true, false, none, some, [], ◌∷◌, pos, ◌≡◌, refl}
use mcp_auth_go.Core.Context.{Ctx, background, with_claims, with_raw_token, claims_from}
use mcp_auth_go.Dpop.Replay.{nop_replay_cache}
use mcp_auth_go.Dpop.Verifier.{Jws}
use mcp_auth_go.Transport.Wire.{
  Request, header_values, header_get, new_response, trim_space, trim_white, white, reversed,
}
use mcp_auth_go.Transport.Http.{
  TokenValidator, RateLimiter, MiddlewareConfig, fold, extract_bearer, rotate_nonce, called,
  allow_request, limit, prove, serve,
}
use mcp_auth_go.Introspection.Entries.{new_cache}
use mcp_auth_go.Introspection.Trust.{run}
use mcp_auth_go.Introspection.Middleware.{opaque_tokens, serve-opaque_tokens}
use mcp_auth_go.Introspection.Tests.{introspection_code, v, digest, call, claims}

requests_code : Unit {0}
unfolding introspection_code header_values header_get trim_space trim_white white reversed fold
    extract_bearer rotate_nonce allow_request limit prove serve with_claims with_raw_token
    claims_from
requests_code = tt

abbrev no_jws : Jws
no_jws = record {
  Key = Unit {0};
  Message = Unit {0};
  parse = λ p. none;
  signatures = λ m. [];
  payload = λ m. [];
  is_private_key = λ k. none;
  verify = λ p alg k. false;
  thumbprint = λ k. none;
  unmarshal = λ p. none;
  sha256 = λ s. s;
  base64 = λ s. s;
  parse_url = λ s. none;
  url_string = λ u. u.base;
}

abbrev no_limit : RateLimiter
no_limit = record { State = Unit {0}; allow = λ st key now. (st, true, pos 0) }

abbrev plain : TokenValidator → MiddlewareConfig
plain validator = record {
  validator = validator;
  limited = true;
  resource_metadata_url = [];
  scopes = [];
  dpop = none;
  base_url = [];
}

abbrev get_x : Request
get_x = record {
  method = str "GET";
  header = (str "Authorization", str "Bearer tok" ∷ []) ∷ [];
  path = str "/x";
  host = str "a";
  tls = true;
}

abbrev with_ann : Ctx
with_ann = with_raw_token (with_claims background claims) (str "tok")

reaches :
    serve no_jws nop_replay_cache no_limit
      (plain (
        opaque_tokens digest v
          (run digest v 0 (new_cache (some (pos 10))) (call ∷ [])).0
          (run digest v 0 (new_cache (some (pos 10))) (call ∷ [])).1
          (pos 1)
          (pos 1)))
      (tt, tt)
      new_response
      get_x
      background
      (pos 1)
      (pos 1)
    ≡ ((tt, tt), called new_response with_ann)
unfolding requests_code
reaches = refl

serve-opaque_tokens_example :
    claims_from with_ann
    ≡ some
        (serve-opaque_tokens digest no_jws nop_replay_cache no_limit v 0
          (some (pos 10))
          (call ∷ [])
          (plain (opaque_tokens digest v 1 none (pos 1) (pos 1)))
          (tt, tt)
          (tt, tt)
          new_response
          new_response
          get_x
          background
          with_ann
          (pos 1)
          (pos 1)
          reaches).0
serve-opaque_tokens_example =
    (serve-opaque_tokens digest no_jws nop_replay_cache no_limit v 0 (some (pos 10)) (call ∷ [])
      (plain (opaque_tokens digest v 1 none (pos 1) (pos 1))) (tt, tt) (tt, tt) new_response
      new_response get_x background with_ann (pos 1) (pos 1) reaches).2
