-- ===== src/Transport/Http/Outcomes.antt =====
-- transport/http/middleware.go: which requests reach the handler, and the answers to the others.
use mcp_auth_go.Prelude.{
  Str, str, Bool, true, false, Option, none, some, Time, Duration, if◌then◌else◌, ◌≡◌, ◌≢◌, refl,
  sym, ap, ◌∙◌, ◌↔◌, ◌⊎◌, inl, inr, Option-cases,
}
use mcp_auth_go.Core.Errors.{GoError, ok, fail}
use mcp_auth_go.Core.Errors.Laws.{Result-cases}
use mcp_auth_go.Core.Claims.{Claims}
use mcp_auth_go.Core.Context.{Ctx, with_claims, with_raw_token}
use mcp_auth_go.Dpop.Replay.{ReplayCache}
use mcp_auth_go.Dpop.Verifier.{Jws, Verifier, Input, enforce}
use mcp_auth_go.Transport.Wire.{Request, Response, header_values, request_url}
use mcp_auth_go.Transport.Http.Rotation.{Rotated, rotate_nonce_iff, Allowed, allow_request_iff}
use mcp_auth_go.Transport.Http.{
  MiddlewareConfig, RateLimiter, extract_bearer, write_auth_error, refuse_proof, Outcome, rejected,
  called, State, allow_request, limit, prove, serve,
}

called-eq :
    (R L : Type 0) (x : L × Bool × Duration) (rs rs' : R) (ls' : L) (w w' w'' : Response)
    (ctx ctx' : Ctx)
    → ◌≡◌ {A = (R × L) × Outcome}
        ((rs, x.0), if x.1 then called w ctx else rejected w'')
        ((rs', ls'), called w' ctx')
    → (rs' ≡ rs) × (x.0 ≡ ls') × (x.1 ≡ true) × (w' ≡ w) × (ctx' ≡ ctx)
called-eq R L (ls, true, wait) rs rs' ls' w w' w'' ctx ctx' h = (cc, cc, refl, cc, cc)
called-eq R L (ls, false, wait) rs rs' ls' w w' w'' ctx ctx' h = cc

pub rejected-eq :
    (R L : Type 0) (x : L × Bool × Duration) (rs rs' : R) (ls' : L) (w w' w'' : Response)
    (ctx : Ctx)
    → ◌≡◌ {A = (R × L) × Outcome}
        ((rs, x.0), if x.1 then called w ctx else rejected w'')
        ((rs', ls'), rejected w')
    → (rs' ≡ rs) × (x.0 ≡ ls') × (x.1 ≡ false) × (w' ≡ w'')
rejected-eq R L (ls, true, wait) rs rs' ls' w w' w'' ctx h = cc
rejected-eq R L (ls, false, wait) rs rs' ls' w w' w'' ctx h = (cc, cc, refl, cc)

module _ (j : Jws) (r : ReplayCache) (l : RateLimiter) where
  -- What a request presents to the check of its proof: the DPoP headers, the method, the URL, the token
  -- and the key that the token is bound to.
  abbrev pub presented : MiddlewareConfig → Request → Str → Claims → Input
  presented cfg req bearer claims = record {
    proofs = header_values req (str "DPoP");
    method = req.method;
    url = request_url req cfg.base_url;
    access_token = bearer;
    bound_jkt = claims.confirmation;
  }

  -- The check of the proof, if it is configured, passes and leaves the replay cache `rs'`.
  abbrev pub Proved :
      MiddlewareConfig → r.State → r.State → Request → Str → Claims → Time → Time → Type 0
  Proved cfg rs rs' req bearer claims now clock =
      ((cfg.dpop ≡ none) × (rs' ≡ rs))
      ⊎ ((v : Verifier) × (cfg.dpop ≡ some v)
          × (enforce j r v rs (presented cfg req bearer claims) now clock ≡ (rs', none)))

  limit_iff :
      (cfg : MiddlewareConfig) (rs rs' : r.State) (ls ls' : l.State) (w w' : Response)
      (ctx ctx' : Ctx) (bearer : Str) (claims : Claims) (now : Time)
      → (limit j r l cfg (rs, ls) w ctx bearer claims now ≡ ((rs', ls'), called w' ctx')) ↔ (
          (rs' ≡ rs)
          × Allowed j r l cfg ls ls' claims now
          × Rotated cfg.dpop now w w'
          × (ctx' ≡ record ctx { claims = some claims; raw_token = some bearer }))
  unfolding limit with_claims with_raw_token
  limit_iff cfg rs rs' ls ls' w w' ctx ctx' bearer claims now =
      let pass = allow_request_iff j r l cfg ls ls' claims now in
      let fresh = rotate_nonce_iff cfg.dpop now w w' in
      (
        λ h.
            let x = allow_request j r l cfg ls claims.subject now in
            let (e, a, b, c, d) = called-eq r.State l.State x rs rs' ls' _ w' _ _ ctx' h in
            (e, pass.0 (x.2, cc (a, b)), fresh.0 c, d),
        λ (e, a, c, d). rw (e, (pass.1 a).1, fresh.1 c, d),
      )

  -- What follows the answer of the check of the proof.
  abbrev pub after :
      MiddlewareConfig
      → Verifier
      → r.State × Option GoError
      → l.State
      → Response
      → Ctx
      → Str
      → Claims
      → Time
      → State j r l × Outcome
  after cfg v x ls w ctx bearer claims now = elim x.1 [
    | none ↦ limit j r l cfg (x.0, ls) w ctx bearer claims now
    | some err ↦ ((x.0, ls), rejected (refuse_proof cfg v now err w))
  ]

  after-called :
      (cfg : MiddlewareConfig) (v : Verifier) (x : r.State × Option GoError) (rs' : r.State)
      (ls ls' : l.State) (w w' : Response) (ctx ctx' : Ctx) (bearer : Str) (claims : Claims)
      (now : Time)
      → after cfg v x ls w ctx bearer claims now ≡ ((rs', ls'), called w' ctx')
      → (x ≡ (rs', none))
        × Allowed j r l cfg ls ls' claims now
        × Rotated cfg.dpop now w w'
        × (ctx' ≡ record ctx { claims = some claims; raw_token = some bearer })
  after-called cfg v (rs1, none) rs' ls ls' w w' ctx ctx' bearer claims now h =
      let (e, a, c, d) = (limit_iff cfg rs1 rs' ls ls' w w' ctx ctx' bearer claims now).0 h in
      (cc e, a, c, d)
  after-called cfg v (rs1, some err) rs' ls ls' w w' ctx ctx' bearer claims now h = cc

  prove_iff :
      (cfg : MiddlewareConfig) (rs rs' : r.State) (ls ls' : l.State) (w w' : Response)
      (req : Request) (ctx ctx' : Ctx) (bearer : Str) (claims : Claims) (now clock : Time)
      → (prove j r l cfg cfg.dpop (rs, ls) w req ctx bearer claims now clock
          ≡ ((rs', ls'), called w' ctx'))
        ↔ (Proved cfg rs rs' req bearer claims now clock
            × Allowed j r l cfg ls ls' claims now
            × Rotated cfg.dpop now w w'
            × (ctx' ≡ record ctx { claims = some claims; raw_token = some bearer }))
  unfolding prove
  prove_iff cfg rs rs' ls ls' w w' req ctx ctx' bearer claims now clock =
      let proved : Option Verifier → State j r l × Outcome =
        λ d. prove j r l cfg d (rs, ls) w req ctx bearer claims now clock in
      (
        λ h. elim (Option-cases cfg.dpop) [
          | inl e ↦
              let (same, a, c, d) =
                (limit_iff cfg rs rs' ls ls' w w' ctx ctx' bearer claims now).0
                  (sym (ap proved e) ∙ h) in
              (inl (e, same), a, c, d)
          | inr (v, e) ↦
              let (passed, a, c, d) =
                after-called cfg v _ rs' ls ls' w w' ctx ctx' bearer claims now
                  (sym (ap proved e) ∙ h) in
              (inr (v, e, passed), a, c, d)
        ],
        λ (p, a, c, d). elim p [
          | inl (e, same) ↦
              ap proved e
              ∙ (limit_iff cfg rs rs' ls ls' w w' ctx ctx' bearer claims now).1 (same, a, c, d)
          | inr (v, e, passed) ↦
              ap proved e
              ∙ ap (λ x. after cfg v x ls w ctx bearer claims now) passed
              ∙ (limit_iff cfg rs' rs' ls ls' w w' ctx ctx' bearer claims now).1 (refl, a, c, d)
        ],
      )

  -- The request gets as far as its claims.
  abbrev pub Authenticated : MiddlewareConfig → Request → Ctx → Str → Claims → Type 0
  Authenticated cfg req ctx bearer claims =
      (extract_bearer req ≡ ok bearer) × (cfg.validator.validate ctx bearer ≡ ok claims)

  not-called :
      (st st' : State j r l) (w w' : Response) (ctx : Ctx)
      → ◌≢◌ {A = State j r l × Outcome} (st, rejected w) (st', called w' ctx)
  not-called st st' w w' ctx = λ h. cc

  serve-authenticated :
      (cfg : MiddlewareConfig) (rs : r.State) (ls : l.State) (w : Response) (req : Request)
      (ctx : Ctx) (bearer : Str) (claims : Claims) (now clock : Time)
      → Authenticated cfg req ctx bearer claims
      → serve j r l cfg (rs, ls) w req ctx now clock
        ≡ prove j r l cfg cfg.dpop (rs, ls) w req ctx bearer claims now clock
  unfolding serve
  serve-authenticated cfg rs ls w req ctx bearer claims now clock (b, v) = rw (b, v, serve)

  -- The request has no bearer token, or the validator refuses it, with this error.
  abbrev pub Unauthenticated : MiddlewareConfig → Request → Ctx → GoError → Type 0
  Unauthenticated cfg req ctx err =
      (extract_bearer req ≡ fail err)
      ⊎ ((bearer : Str) × (extract_bearer req ≡ ok bearer)
          × (cfg.validator.validate ctx bearer ≡ fail err))

  pub stages :
      (cfg : MiddlewareConfig) (rs : r.State) (ls : l.State) (w : Response) (req : Request)
      (ctx : Ctx) (now clock : Time)
      → ((err : GoError) × Unauthenticated cfg req ctx err
          × (serve j r l cfg (rs, ls) w req ctx now clock
              ≡ ((rs, ls), rejected (write_auth_error cfg err w))))
        ⊎ ((bearer : Str) × (claims : Claims) × Authenticated cfg req ctx bearer claims
            × (serve j r l cfg (rs, ls) w req ctx now clock
                ≡ prove j r l cfg cfg.dpop (rs, ls) w req ctx bearer claims now clock))
  unfolding serve
  stages cfg rs ls w req ctx now clock = elim (Result-cases (extract_bearer req)) [
    | inr (err, e) ↦ inl (err, inl e, rw (e, serve))
    | inl (bearer, e) ↦ elim (Result-cases (cfg.validator.validate ctx bearer)) [
      | inr (err, v) ↦ inl (err, inr (bearer, e, v), rw (e, v, serve))
      | inl (claims, v) ↦ inr (
        bearer,
        claims,
        (e, v),
        serve-authenticated cfg rs ls w req ctx bearer claims now clock (e, v),
      )
    ]
  ]

  -- `next` is called exactly if the request carries a bearer token that the validator accepts, its
  -- DPoP headers pass the check of proofs, if one is configured, for its method, its URL, the token and
  -- the key that the token is bound to, and the rate limiter lets the subject pass where there
  -- is one. It gets the claims and the token in its context, which is else that of the request; and the
  -- response that it writes is as it was, or, where the verifier of proofs issues a nonce that is not
  -- empty, has the headers DPoP-Nonce with that nonce and Cache-Control with no-store set, and no other
  -- change.
  pub serve_iff :
      (cfg : MiddlewareConfig) (rs rs' : r.State) (ls ls' : l.State) (w w' : Response)
      (req : Request) (ctx ctx' : Ctx) (now clock : Time)
      → (serve j r l cfg (rs, ls) w req ctx now clock ≡ ((rs', ls'), called w' ctx')) ↔ (
          (bearer : Str) × (claims : Claims) × Authenticated cfg req ctx bearer claims
          × (Proved cfg rs rs' req bearer claims now clock
              × Allowed j r l cfg ls ls' claims now
              × Rotated cfg.dpop now w w'
              × (ctx' ≡ record ctx { claims = some claims; raw_token = some bearer })))
  serve_iff cfg rs rs' ls ls' w w' req ctx ctx' now clock = (
    λ h. elim (stages cfg rs ls w req ctx now clock) [
      | inl (err, _, eq) ↦ absurd (not-called (rs, ls) (rs', ls') _ w' ctx' (sym eq ∙ h))
      | inr (bearer, claims, auth, eq) ↦ (
        bearer,
        claims,
        auth,
        (prove_iff cfg rs rs' ls ls' w w' req ctx ctx' bearer claims now clock).0 (sym eq ∙ h),
      )
    ],
    λ (bearer, claims, auth, rest).
        serve-authenticated cfg rs ls w req ctx bearer claims now clock auth
        ∙ (prove_iff cfg rs rs' ls ls' w w' req ctx ctx' bearer claims now clock).1 rest,
  )
