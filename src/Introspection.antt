-- ===== src/Introspection.antt =====
-- introspection: the validation of opaque tokens at the issuer's endpoint.
-- `HttpClient` stands for the HTTP client and the endpoint behind it, in a world `W`; `digest` for the base64 text of the SHA-256 sum.
pub mod Response
pub mod ClientAuth
pub mod Cache
pub mod Answers
pub mod Verdicts
pub mod Refusals
pub mod Entries
pub mod Trust
pub mod Caching
pub mod Construct
pub mod Setup
pub mod Middleware
mod Tests
use mcp_auth_go.Prelude.{
  ℕ, Str, str, ◌==◌, is_empty, ◌&&◌, not, Option, none, some, [], ◌∷◌, insert, Time, Duration, ◌+ℤ◌,
  positive, after, eqb, if◌then◌else◌,
}
use mcp_auth_go.Core.Errors.{
  GoError, AuthError, nil, reject, errorf, wrapf, int_arg, new_error, to_error, Result, ok, fail,
  ◌>>=◌, ◌>>◌, fail_if, err_missing_token, err_invalid_token, err_expired_token,
}
use mcp_auth_go.Core.Claims.{Claims}
use mcp_auth_go.Introspection.Response.{
  Body, IntrospectionResponse, response, audience_contains, claims_of, unix64,
}
use mcp_auth_go.Introspection.ClientAuth.{HttpRequest, ClientAuthenticator}
use mcp_auth_go.Exchange.Forms.{Form}
use mcp_auth_go.Introspection.Cache.{IntrospectionCache}

unfoldable pub err_introspection_unavailable : AuthError
err_introspection_unavailable = record {
  code = str "introspection_unavailable";
  message = str "The token could not be validated: the introspection endpoint was unavailable.";
  doc_url = [];
  http_status = 503;
  cause = nil;
}

unfoldable pub introspection_unavailable : GoError → GoError
introspection_unavailable c = reject err_introspection_unavailable c

-- What `Do` and the reading of the body come to: no response, a body that cannot be read, or a status
-- with the decoded body or the error of its decoding.
pub data Reply : Type 0 where
  unanswered unread : GoError → Reply
  answered : ℕ → Result Body → Reply

pub record HttpClient (W : Type 0) : Type 0 where
  -- The error of `http.NewRequestWithContext`.
  pub new_request : Str → Option GoError
  pub send : W → HttpRequest → W × Reply

pub record Validator (W : Type 0) : Type 0 where
  pub url : Str
  pub client_auth : ClientAuthenticator
  pub issuer : Str
  pub audience : Str
  pub hint : Str
  pub http_client : HttpClient W
  pub clock_skew : Duration

-- The form of `Validate`.
unfoldable pub token_form : Str → Str → Form
token_form bearer hint = insert (str "token_type_hint") hint ((str "token", bearer) ∷ [])

-- The response of a body, which the decoder decodes, with the body.
unfoldable pub decode : Result Body → Result (IntrospectionResponse × Body)
decode body = do b ← body; r ← response b; ok (r, b)

-- The end of `do`, from the reply on.
unfoldable pub read_reply : Reply → Result (IntrospectionResponse × Body)
read_reply (unanswered err) = fail (introspection_unavailable err)
read_reply (unread err) =
    fail (introspection_unavailable (wrapf (str "read introspection response: %w") [] err))
read_reply (answered status body) =
    if not (eqb status 200)
    then fail (
        introspection_unavailable
          (errorf (str "introspection endpoint returned %d") (int_arg status ∷ [])))
    else elim (decode body) [
      | fail err ↦
          fail (introspection_unavailable (wrapf (str "decode introspection response: %w") [] err))
      | ok rb ↦ ok rb
    ]

module _ {W : Type 0} where
  -- The request before its authentication.
  unfoldable pub blank_request : Validator W → Form → HttpRequest
  blank_request v form = record {
    url = v.url;
    header =
        insert (str "Accept") (str "application/json")
          (insert (str "Content-Type") (str "application/x-www-form-urlencoded") []);
    basic = none;
    form = form;
  }

  -- The part of `do` behind the authentication of the request.
  unfoldable pub post :
      Validator W → W → Result HttpRequest → W × Result (IntrospectionResponse × Body)
  post v w (fail err) = (w, fail (introspection_unavailable (wrapf (str "client auth: %w") [] err)))
  post v w (ok req) = let (w', reply) = v.http_client.send w req in (w', read_reply reply)

  -- `do`.
  unfoldable pub do_introspect : Validator W → W → Form → W × Result (IntrospectionResponse × Body)
  do_introspect v w form = elim (v.http_client.new_request v.url) [
    | some err ↦ (w, fail (introspection_unavailable err))
    | none ↦ post v w (v.client_auth (blank_request v form))
  ]

  -- The checks of `Validate` on a response.
  unfoldable pub verdict : Validator W → IntrospectionResponse → Time → Result (Unit {0})
  verdict v resp now = do
    fail_if (not resp.active) (reject err_invalid_token (new_error "token inactive"))
    fail_if (not (resp.iss == v.issuer)) (reject err_invalid_token (new_error "issuer mismatch"))
    fail_if (not (audience_contains resp.aud v.audience))
        (reject err_invalid_token (new_error "audience mismatch"))
    fail_if (positive resp.exp && after now (unix64 resp.exp +ℤ v.clock_skew))
        (reject err_expired_token (new_error "token expired"))
    ok tt

module _ (ch : IntrospectionCache) (digest : Str → Str) where
  -- `v.cache.Get(key)`, where there is a cache.
  unfoldable pub look : Option ch.State → Time → Str → Option ch.State × Option Claims
  look none clock bearer = (none, none)
  look (some st) clock bearer = let (st', hit) = ch.get st clock (digest bearer) in (some st', hit)

  -- `if v.cache != nil && resp.Exp > 0 { v.cache.Set(key, claims) }`.
  unfoldable pub keep_verdict :
      Option ch.State → Str → IntrospectionResponse → Claims → Option ch.State
  keep_verdict none bearer resp claims = none
  keep_verdict (some st) bearer resp claims =
      some (if positive resp.exp then ch.set st (digest bearer) claims else st)

  -- The part of `Validate` behind a response of the endpoint.
  unfoldable pub conclude :
      {W : Type 0}
      → Validator W
      → Option ch.State
      → Str
      → Result (IntrospectionResponse × Body)
      → Time
      → Option ch.State × Result Claims
  conclude v st bearer (fail err) now = (st, fail err)
  conclude v st bearer (ok (resp, body)) now = elim (verdict v resp now) [
    | fail err ↦ (st, fail err)
    | ok passed ↦
        let claims = claims_of resp body.members in (keep_verdict st bearer resp claims, ok claims)
  ]

  -- The part of `Validate` behind a miss.
  unfoldable pub ask :
      {W : Type 0}
      → Validator W
      → W
      → Option ch.State
      → Str
      → Time
      → W × Option ch.State × Result Claims
  ask v w st bearer now =
      let (w', res) = do_introspect v w (token_form bearer v.hint) in
      let (st', result) = conclude v st bearer res now in (w', st', result)

  -- `Validate`, at the instants that the validator's and the cache's clock read.
  unfoldable pub introspect :
      {W : Type 0}
      → Validator W
      → W
      → Option ch.State
      → Str
      → Time
      → Time
      → W × Option ch.State × Result Claims
  introspect v w st bearer now clock =
      if is_empty bearer
      then (w, st, fail (to_error err_missing_token))
      else let (st', hit) = look st clock bearer in
        elim hit [ some claims ↦ (w, st', ok claims) | none ↦ ask v w st' bearer now ]
