-- ===== src/Transport/Http/Tests.antt =====
-- transport/http: the theorems at a service with one token and no limits.
use mcp_auth_go.Prelude.{
  ◌≤◌, Str, str, ◌==◌, ne_of_test, none, [], ◌∷◌, lookup, insert, pos, ◌≡◌, refl, inl, inr, true,
  false, if◌then◌else◌, All, arith,
}
use mcp_auth_go.Core.Errors.{ok, fail, to_error, err_invalid_token}
use mcp_auth_go.Core.Claims.{Claims}
use mcp_auth_go.Core.Context.{background, with_claims, with_raw_token}
use mcp_auth_go.Dpop.Replay.{nop_replay_cache}
use mcp_auth_go.Dpop.Verifier.{Jws}
use mcp_auth_go.Transport.Wire.{
  Request, header_values, header_get, Response, new_response, is_quotable, sanitize_quoted,
  trim_space, trim_white, white, reversed,
}
use mcp_auth_go.Transport.Wire.Laws.{Quotable, sanitize_quoted_lem}
use mcp_auth_go.Transport.Http.{
  TokenValidator, RateLimiter, MiddlewareConfig, fold, extract_bearer, set_retry_after,
  rotate_nonce, called, allow_request, limit, prove, serve, write_auth_error, error_response,
}
use mcp_auth_go.Transport.Http.Bearer.{extract_bearer_iff, set_retry_after_lem}
use mcp_auth_go.Transport.Http.Rotation.{Issues}
use mcp_auth_go.Transport.Http.Outcomes.{serve_iff}
use mcp_auth_go.Transport.Http.Metadata.{MetadataAnswer, metadata_handler, metadata_handler_lem}

http_code : Unit {0}
unfolding header_values header_get sanitize_quoted is_quotable trim_space trim_white white reversed
    fold extract_bearer set_retry_after rotate_nonce allow_request limit prove serve
    write_auth_error error_response lookup insert ◌==◌ with_claims with_raw_token
http_code = tt

abbrev ann : Claims
ann = record {
  subject = str "ann";
  email = [];
  issuer = str "https://a";
  audience = [];
  expires_at = pos 60;
  issued_at = pos 0;
  scopes = [];
  confirmation = [];
  raw = [];
}

abbrev no_jws : Jws
no_jws = record {
  Key = Unit {0};
  Message = Unit {0};
  parse = λ p. none;
  signatures = λ m. [];
  payload = λ m. [];
  is_private_key = λ k. none;
  verify = λ p alg k. false;
  thumbprint = λ k. none;
  unmarshal = λ p. none;
  sha256 = λ s. s;
  base64 = λ s. s;
  parse_url = λ s. none;
  url_string = λ u. u.base;
}

abbrev no_limit : RateLimiter
no_limit = record { State = Unit {0}; allow = λ st key now. (st, true, pos 0) }

abbrev validator : TokenValidator
validator = record {
  validate = λ ctx bearer. if bearer == str "t1" then ok ann else fail (to_error err_invalid_token);
}

abbrev config : MiddlewareConfig
config = record {
  validator = validator;
  limited = true;
  resource_metadata_url = [];
  scopes = [];
  dpop = none;
  base_url = [];
}

abbrev request : Str → Request
request token = record {
  method = str "GET";
  header = (str "Authorization", token ∷ []) ∷ [];
  path = str "/x";
  host = str "a";
  tls = true;
}

extract_bearer_iff_example : extract_bearer (request (str "bEARER  t1 ")) ≡ ok (str "t1")
unfolding http_code
extract_bearer_iff_example =
    (extract_bearer_iff (request (str "bEARER  t1 ")) (str "t1")).1 (record {
      scheme = str "bEARER ";
      rest = str " t1 ";
      whole = refl;
      bearer = refl;
      trimmed = refl;
      present = ne_of_test _ _ refl;
    })

set_retry_after_lem_sample : 1 ≤ (set_retry_after_lem (pos 1500000000) new_response (omega arith)).0
set_retry_after_lem_sample = (set_retry_after_lem (pos 1500000000) new_response (omega arith)).2

sanitize_quoted_lem_example : All Quotable (sanitize_quoted (34 ∷ 65 ∷ 10 ∷ []))
sanitize_quoted_lem_example = (sanitize_quoted_lem (34 ∷ 65 ∷ 10 ∷ [])).0

idle : (nonce : Str) → ¬ Issues none (pos 1) nonce
idle nonce = λ (v, e, source, f, i, p). cc

serve_iff_example :
    serve no_jws nop_replay_cache no_limit config
      (tt, tt)
      new_response
      (request (str "Bearer t1"))
      background
      (pos 1)
      (pos 1)
    ≡ ((tt, tt), called new_response (with_raw_token (with_claims background ann) (str "t1")))
unfolding http_code
serve_iff_example =
    (serve_iff no_jws nop_replay_cache no_limit config tt tt tt tt new_response new_response
        (request (str "Bearer t1")) background
        (with_raw_token (with_claims background ann) (str "t1")) (pos 1) (pos 1)).1
      (
        str "t1",
        ann,
        (refl, refl),
        (inl (refl, refl), inr (refl, pos 0, refl), inr (idle, refl), refl),
      )

abbrev answer : Response
answer = write_auth_error config (to_error err_invalid_token) new_response

metadata_handler_lem_sample :
    MetadataAnswer (request []) (metadata_handler new_response (request []))
metadata_handler_lem_sample = metadata_handler_lem (request [])
