-- ===== src/Transport/Http/Rejections.antt =====
-- transport/http/middleware.go: the answers to the requests that do not reach the handler.
use mcp_auth_go.Prelude.{Str, some, Time, Duration, ◌≡◌, ◌⊎◌}
use mcp_auth_go.Core.Errors.{GoError, to_error, err_rate_limit_exceeded}
use mcp_auth_go.Core.Claims.{Claims}
use mcp_auth_go.Dpop.Replay.{ReplayCache}
use mcp_auth_go.Dpop.Verifier.{Jws, Verifier, enforce}
use mcp_auth_go.Transport.Wire.{Request, Response}
use mcp_auth_go.Transport.Http.{MiddlewareConfig, RateLimiter, State}
use mcp_auth_go.Transport.Http.Rotation.{Denied}
use mcp_auth_go.Transport.Http.Retries.{HandsNonce, SaysWhen}
use mcp_auth_go.Transport.Http.Outcomes.{presented, Proved}

module _ (j : Jws) (r : ReplayCache) (l : RateLimiter) where
  -- The check of the proof refuses it with this error, and the response hands over a nonce.
  abbrev pub Unproved :
      MiddlewareConfig
      → r.State
      → r.State
      → Request
      → Str
      → Claims
      → Time
      → Time
      → GoError
      → Response
      → Type 0
  Unproved cfg rs rs' req bearer claims now clock err w =
      (v : Verifier) × (cfg.dpop ≡ some v)
      × (enforce j r v rs (presented j r l cfg req bearer claims) now clock ≡ (rs', some err))
      × HandsNonce v err now w

  -- The rate limiter turns the subject away, and the response says for how long.
  abbrev pub Limited :
      MiddlewareConfig → l.State → l.State → Claims → Time → GoError → Response → Type 0
  Limited cfg ls ls' claims now err w =
      (err ≡ to_error err_rate_limit_exceeded)
      × (wait : Duration) × Denied j r l cfg ls ls' claims now wait
      × SaysWhen wait w

  -- The proof passes, and the rate limiter turns the subject away; or the proof fails, and the rate
  -- limiter is not asked.
  abbrev pub Stopped :
      MiddlewareConfig
      → State j r l
      → State j r l
      → Request
      → Str
      → Claims
      → Time
      → Time
      → GoError
      → Response
      → Type 0
  Stopped cfg (rs, ls) (rs', ls') req bearer claims now clock err w =
      (Unproved cfg rs rs' req bearer claims now clock err w × (ls' ≡ ls))
      ⊎ (Proved j r l cfg rs rs' req bearer claims now clock × Limited cfg ls ls' claims now err w)
