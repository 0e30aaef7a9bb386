-- ===== src/Transport/Http/Answers.antt =====
-- transport/http/middleware.go: what the response to an error holds.
use mcp_auth_go.Prelude.{
  Str, str, ◌==◌, none, some, lookup, lookup-insert, Time, Duration, ◌≡◌, refl, sym, subst, ◌∙◌,
  ◌⊎◌, inl, inr, arith, Option-cases,
}
use mcp_auth_go.Core.Errors.{GoError, AuthError, as_auth_error}
use mcp_auth_go.Dpop.Verifier.{Verifier}
use mcp_auth_go.Transport.Wire.{text, json, plain, Response}
use mcp_auth_go.Transport.Http.Challenges.{IsChallenge, build_www_authenticate-IsChallenge}
use mcp_auth_go.Transport.Http.{
  MiddlewareConfig, build_www_authenticate, error_response, write_auth_error, set_retry_after,
  refuse_proof,
}

-- The response that tells of an error: a generic 500 if it is none of the library's own, and else its
-- status, its JSON, no caching, and the challenge for its code.
abbrev pub Tells : MiddlewareConfig → GoError → Response → Type 0
Tells cfg err w =
    ((as_auth_error err ≡ none) × (w.status ≡ some 500) × (w.body ≡ plain (str "internal error\n")))
    ⊎ ((e : AuthError) × (as_auth_error err ≡ some e)
        × (w.status ≡ some e.http_status)
        × (w.body ≡ json e)
        × (lookup (str "Cache-Control") w.headers ≡ some (text (str "no-store")))
        × (challenge : Str) × IsChallenge e.code cfg.resource_metadata_url cfg.scopes challenge
        × (lookup (str "WWW-Authenticate") w.headers ≡ some (text challenge)))

error_response-headers :
    (cfg : MiddlewareConfig) (e : AuthError) (w : Response)
    → (lookup (str "Cache-Control") (error_response cfg e w).headers ≡ some (text (str "no-store")))
      × (lookup (str "WWW-Authenticate") (error_response cfg e w).headers
          ≡ some (text (build_www_authenticate e cfg.resource_metadata_url cfg.scopes)))
unfolding error_response ◌==◌
error_response-headers cfg e w = (
  lookup-insert (str "Cache-Control") (str "Cache-Control") _ _,
  lookup-insert (str "Cache-Control") (str "WWW-Authenticate") _ _
      ∙ lookup-insert (str "WWW-Authenticate") (str "WWW-Authenticate") _ _,
)

error_response-Tells :
    (cfg : MiddlewareConfig) (err : GoError) (a : AuthError) (w : Response)
    → w.status ≡ none
    → as_auth_error err ≡ some a
    → Tells cfg err (error_response cfg a w)
unfolding error_response
error_response-Tells cfg err a w fresh e = inr (
  a,
  e,
  rw fresh,
  refl,
  (error_response-headers cfg a w).0,
  build_www_authenticate a cfg.resource_metadata_url cfg.scopes,
  build_www_authenticate-IsChallenge a cfg.resource_metadata_url cfg.scopes,
  (error_response-headers cfg a w).1,
)

pub write_auth_error-Tells :
    (cfg : MiddlewareConfig) (err : GoError) (w : Response)
    → w.status ≡ none
    → Tells cfg err (write_auth_error cfg err w)
unfolding write_auth_error
write_auth_error-Tells cfg err w fresh = elim (Option-cases (as_auth_error err)) [
  | inl e ↦ inl (e, rw (e, write_auth_error, fresh), rw (e, write_auth_error) refl)
  | inr (a, e) ↦
      let eq : write_auth_error cfg err w ≡ error_response cfg a w = rw (e, write_auth_error) in
      subst (λ x. Tells cfg err x) (sym eq) (error_response-Tells cfg err a w fresh e)
]

pub set_retry_after-status : (d : Duration) (w : Response) → (set_retry_after d w).status ≡ w.status
unfolding set_retry_after
set_retry_after-status d w = ground arith

pub refuse_proof-Tells :
    (cfg : MiddlewareConfig) (v : Verifier) (now : Time) (err : GoError) (w : Response)
    → w.status ≡ none
    → Tells cfg err (refuse_proof cfg v now err w)
unfolding refuse_proof
refuse_proof-Tells cfg v now err w fresh = write_auth_error-Tells cfg err _ (ground arith)
