-- ===== src/Introspection/Middleware.antt =====
-- introspection and transport/http: the validator of opaque tokens behind the middleware.
use mcp_auth_go.Prelude.{Str, Option, some, List, Time, Duration, Has, ◌≡◌, ◌⊎◌, ap}
use mcp_auth_go.Core.Claims.{Claims}
use mcp_auth_go.Core.Context.{Ctx, claims_from, raw_token_from}
use mcp_auth_go.Dpop.Replay.{ReplayCache}
use mcp_auth_go.Dpop.Verifier.{Jws}
use mcp_auth_go.Transport.Wire.{Request, Response}
use mcp_auth_go.Transport.Http.{TokenValidator, MiddlewareConfig, RateLimiter, called, State, serve}
use mcp_auth_go.Transport.Http.Outcomes.{serve_iff}
use mcp_auth_go.Introspection.Cache.{MemoryCache, memory_cache}
use mcp_auth_go.Introspection.Entries.{new_cache}
use mcp_auth_go.Transport.Http.Bearer.{HoldsBearer, extract_bearer_iff}
use mcp_auth_go.Introspection.Verdicts.{Accepted}
use mcp_auth_go.Introspection.Trust.{Call, run, Granted, introspect-Granted}
use mcp_auth_go.Introspection.{Validator, introspect}

module _ (digest : Str → Str) {W : Type 0} where
  -- The validator as a `TokenValidator`, in a world, with a cache and at the instants of a request.
  abbrev pub opaque_tokens : Validator W → W → Option MemoryCache → Time → Time → TokenValidator
  opaque_tokens v w st now clock = record {
    validate = λ ctx bearer. (introspect memory_cache digest v w st bearer now clock).2;
  }

  module _ (j : Jws) (r : ReplayCache) (l : RateLimiter) where
    -- A request that reaches the handler through the middleware, with this validator after any run of
    -- its calls, carries in its context the bearer token of its Authorization header, as it stands there
    -- behind the scheme and without white space around it, and claims that the endpoint has accepted
    -- that token with: it does so now, or it did so in an earlier call for a token with the same digest.
    -- They are of the configured issuer and for the configured audience.
    pub serve-opaque_tokens :
        (v : Validator W) (w : W) (leeway : Option Duration) (calls : List Call)
        (cfg : MiddlewareConfig) (st st' : State j r l) (res res' : Response) (req : Request)
        (ctx ctx' : Ctx) (now clock : Time)
        → (let (w', cache) = run digest v w (new_cache leeway) calls in
            serve j r l
              (record cfg { validator = opaque_tokens v w' cache now clock })
              st
              res
              req
              ctx
              now
              clock
            ≡ (st', called res' ctx'))
        → (claims : Claims) × (bearer : Str) × (claims_from ctx' ≡ some claims)
          × (raw_token_from ctx' ≡ some bearer)
          × HoldsBearer req bearer
          × (let (w', cache) = run digest v w (new_cache leeway) calls in
              Accepted v w' bearer now claims
              ⊎ Granted digest v w (new_cache leeway) calls (digest bearer) claims)
          × (claims.issuer ≡ v.issuer)
          × Has v.audience claims.audience
    unfolding claims_from raw_token_from
    serve-opaque_tokens v w leeway calls cfg (rs, ls) (rs', ls') res res' req ctx ctx' now clock h =
        let (w', cache) = run digest v w (new_cache leeway) calls in
        let guarded = record cfg { validator = opaque_tokens v w' cache now clock } in
        let (bearer, claims, (found, valid), (proved, allowed, same, e)) =
          (serve_iff j r l guarded rs rs' ls ls' res res' req ctx ctx' now clock).0 h in
        let call : Call = record { bearer = bearer; now = now; clock = clock } in
        let (present, source, iss, aud) =
          introspect-Granted digest v w leeway calls call claims valid in
        (
          claims,
          bearer,
          ap (λ c. c.claims) e,
          ap (λ c. c.raw_token) e,
          (extract_bearer_iff req bearer).0 found,
          source,
          iss,
          aud,
        )
