-- ===== src/Transport/Http.antt =====
-- transport/http/middleware.go: the middleware in front of an HTTP handler.
-- `TokenValidator` and `RateLimiter` are interfaces of the program; jwx is a parameter, as for the
-- verifier of proofs. The logger is left out.
pub mod Bearer
pub mod Challenges
pub mod Rotation
pub mod Outcomes
pub mod Retries
pub mod Answers
pub mod Rejections
pub mod Metadata
mod Tests
use mcp_auth_go.Prelude.{
  ℕ, ◌+◌, ◌/◌, Str, String, str, ◌==◌, is_empty, is_nil, Bool, true, ◌||◌, ◌&&◌, not, Option, none,
  some, List, [], ◌∷◌, ◌++◌, map, length, take, drop, leb, ltb, join, Time, Duration, pos, positive,
  pos_part, second, if◌then◌else◌,
}
use mcp_auth_go.Core.Errors.{
  GoError, AuthError, to_error, as_auth_error, is_error, Result, ok, fail, err_missing_token,
  err_rate_limit_exceeded, err_use_dpop_nonce, err_invalid_token, err_expired_token,
  err_insufficient_scope, err_invalid_dpop_proof,
}
use mcp_auth_go.Core.Claims.{Claims}
use mcp_auth_go.Core.Context.{Ctx, with_claims, with_raw_token}
use mcp_auth_go.Dpop.Replay.{ReplayCache}
use mcp_auth_go.Dpop.Verifier.{Jws, Verifier, Input, enforce, issue_nonce}
use mcp_auth_go.Transport.Wire.{
  Request, header_values, header_get, text, decimal, json, Response, set_header, write_header,
  write_body, http_error, sanitize_quoted, request_url, trim_space,
}

-- The interface `TokenValidator`, at the instant of a request.
pub record TokenValidator : Type 0 where
  pub validate : Ctx → Str → Result Claims

-- The interface `RateLimiter`, over its state.
pub record RateLimiter : Type 1 where
  pub State : Type 0
  pub allow : State → Str → Time → State × Bool × Duration

pub record MiddlewareConfig : Type 0 where
  pub validator : TokenValidator
  pub limited : Bool
  pub resource_metadata_url : Str
  pub scopes : List Str
  pub dpop : Option Verifier
  pub base_url : Str

-- A byte under `strings.EqualFold` against an ASCII text without `k` and `s`, which are the letters
-- that other runes fold to.
unfoldable pub fold : ℕ → ℕ
fold c = if leb 65 c && leb c 90 then c + 32 else c

abbrev pub prefix : Str
prefix = str "Bearer "

unfoldable pub extract_bearer : Request → Result Str
extract_bearer r =
    let h = header_get r (str "Authorization") in
    let token = trim_space (drop (length prefix) h) in
    if is_empty h
    then fail (to_error err_missing_token)
    else if leb (length h) (length prefix)
        || not (map fold (take (length prefix) h) == map fold prefix)
    then fail (to_error err_missing_token)
    else if is_empty token
    then fail (to_error err_missing_token)
    else ok token

-- `name="value"`.
abbrev pub param : String → Str → Str
param name value = str name ++ (61 ∷ 34 ∷ (value ++ 34 ∷ []))

unfoldable pub error_params : Str → List Str → List Str
error_params code scopes =
    if code == err_invalid_token.code
    then param "error" (str "invalid_token") ∷ []
    else if code == err_expired_token.code
    then param "error" (str "invalid_token")
      ∷ param "error_description" (str "the access token expired")
      ∷ []
    else if code == err_insufficient_scope.code
    then param "error" (str "insufficient_scope")
      ∷ (if is_nil scopes then [] else param "scope" (sanitize_quoted (join (str " ") scopes)) ∷ [])
    else if code == err_invalid_dpop_proof.code
    then param "error" (str "invalid_dpop_proof") ∷ []
    else if code == err_use_dpop_nonce.code
    then param "error" (str "use_dpop_nonce") ∷ []
    else []

-- The scheme as the cases of the switch leave it.
unfoldable pub scheme : Str → Str
scheme code =
    if not (code == err_invalid_token.code)
      && not (code == err_expired_token.code)
      && not (code == err_insufficient_scope.code)
      && (code == err_invalid_dpop_proof.code || code == err_use_dpop_nonce.code)
    then str "DPoP"
    else str "Bearer"

abbrev pub metadata_params : Str → List Str
metadata_params url =
    if is_empty url then [] else param "resource_metadata" (sanitize_quoted url) ∷ []

unfoldable pub build_www_authenticate : AuthError → Str → List Str → Str
build_www_authenticate e resource_metadata_url scopes =
    scheme e.code
    ++ (str " "
        ++ join (str ", ") (
            param "realm" (str "mcp")
            ∷ (error_params e.code scopes ++ metadata_params resource_metadata_url)))

-- The part of `writeAuthError` for an `*auth.Error`.
unfoldable pub error_response : MiddlewareConfig → AuthError → Response → Response
error_response cfg e w = write_body (json e) (
    write_header e.http_status (
      set_header "Cache-Control" (text (str "no-store")) (
        set_header "WWW-Authenticate"
          (text (build_www_authenticate e cfg.resource_metadata_url cfg.scopes))
          (set_header "Content-Type" (text (str "application/json")) w))))

unfoldable pub write_auth_error : MiddlewareConfig → GoError → Response → Response
write_auth_error cfg err w = elim (as_auth_error err) [
  | none ↦ http_error "internal error" 500 w
  | some e ↦ error_response cfg e w
]

-- `int(math.Ceil(d.Seconds()))` of a positive duration, without the rounding of a `float64`.
abbrev pub ceil_seconds : Duration → ℕ
ceil_seconds d = (pos_part d + 999999999) / second

unfoldable pub set_retry_after : Duration → Response → Response
set_retry_after d w =
    if not (positive d)
    then w
    else set_header "Retry-After" (decimal (if ltb (ceil_seconds d) 1 then 1 else ceil_seconds d)) w

-- `if n := v.IssueNonce(now); n != "" { w.Header().Set("DPoP-Nonce", n) }`.
abbrev pub hand_nonce : Verifier → Time → Response → Response
hand_nonce v now w =
    if is_empty (issue_nonce v now) then w else set_header "DPoP-Nonce" (text (issue_nonce v now)) w

-- The nonce on a response that succeeds.
unfoldable pub rotate_nonce : Option Verifier → Time → Response → Response
rotate_nonce none now w = w
rotate_nonce (some v) now w =
    if is_empty (issue_nonce v now)
    then w
    else set_header "Cache-Control" (text (str "no-store")) (hand_nonce v now w)

-- The response to a refused proof.
unfoldable pub refuse_proof : MiddlewareConfig → Verifier → Time → GoError → Response → Response
refuse_proof cfg v now err w =
    write_auth_error cfg err (if is_error err_use_dpop_nonce err then hand_nonce v now w else w)

-- What the middleware does with a request: it writes a response itself, or it calls
-- `next.ServeHTTP` with a writer and a context.
pub data Outcome : Type 0 where
  rejected : Response → Outcome
  called : Response → Ctx → Outcome

module _ (j : Jws) (r : ReplayCache) (l : RateLimiter) where
  abbrev pub State : Type 0
  State = r.State × l.State

  abbrev pub dpop_input : MiddlewareConfig → Request → Str → Claims → Input
  dpop_input cfg req bearer claims = record {
    proofs = header_values req (str "DPoP");
    method = req.method;
    url = request_url req cfg.base_url;
    access_token = bearer;
    bound_jkt = claims.confirmation;
  }

  unfoldable pub allow_request : MiddlewareConfig → l.State → Str → Time → l.State × Bool × Duration
  allow_request cfg st subject now =
      if cfg.limited then l.allow st subject now else (st, true, pos 0)

  -- The part behind the check of the proof.
  unfoldable pub limit :
      MiddlewareConfig → State → Response → Ctx → Str → Claims → Time → State × Outcome
  limit cfg (rs, ls) w ctx bearer claims now =
      let (ls', allowed, retry_after) = allow_request cfg ls claims.subject now in
      (
        (rs, ls'),
        if allowed
            then called (rotate_nonce cfg.dpop now w)
                (with_raw_token (with_claims ctx claims) bearer)
            else rejected (
                write_auth_error cfg (to_error err_rate_limit_exceeded)
                  (set_retry_after retry_after w)),
      )

  -- The part behind the validation of the token, with the verifier of proofs, if there is one.
  unfoldable pub prove :
      MiddlewareConfig
      → Option Verifier
      → State
      → Response
      → Request
      → Ctx
      → Str
      → Claims
      → Time
      → Time
      → State × Outcome
  prove cfg none (rs, ls) w req ctx bearer claims now clock =
      limit cfg (rs, ls) w ctx bearer claims now
  prove cfg (some v) (rs, ls) w req ctx bearer claims now clock =
      let (rs', refusal) = enforce j r v rs (dpop_input cfg req bearer claims) now clock in
      elim refusal [
        | none ↦ limit cfg (rs', ls) w ctx bearer claims now
        | some err ↦ ((rs', ls), rejected (refuse_proof cfg v now err w))
      ]

  -- `Middleware`, on a request that arrives with a context at an instant.
  unfoldable pub serve :
      MiddlewareConfig → State → Response → Request → Ctx → Time → Time → State × Outcome
  serve cfg st w req ctx now clock = elim (extract_bearer req) [
    | fail err ↦ (st, rejected (write_auth_error cfg err w))
    | ok bearer ↦ elim (cfg.validator.validate ctx bearer) [
      | fail err ↦ (st, rejected (write_auth_error cfg err w))
      | ok claims ↦ prove cfg cfg.dpop st w req ctx bearer claims now clock
    ]
  ]
