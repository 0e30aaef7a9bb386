-- ===== src/Transport/Http/Rotation.antt =====
-- transport/http/middleware.go: what the middleware adds to a response that the handler writes, and whom
-- the rate limiter lets pass.
use mcp_auth_go.Prelude.{
  Str, str, is_empty, is_empty_iff, Bool, true, false, Option, none, some, [], insert, Time,
  Duration, pos, ◌≡◌, ◌≢◌, refl, sym, ap, ◌∙◌, ◌↔◌, ◌⊎◌, inl, inr, arith, Option-cases, Bool-cases,
}
use mcp_auth_go.Core.Claims.{Claims}
use mcp_auth_go.Dpop.Nonce.{NonceSource}
use mcp_auth_go.Dpop.Replay.{ReplayCache}
use mcp_auth_go.Dpop.Verifier.{Jws, Verifier, issue_nonce}
use mcp_auth_go.Transport.Wire.{text, Response}
use mcp_auth_go.Transport.Http.{RateLimiter, MiddlewareConfig, rotate_nonce, allow_request}

-- The verifier has a source of nonces, which issues this one, and it is not empty.
abbrev pub Issues : Option Verifier → Time → Str → Type 0
Issues dpop now nonce =
    (v : Verifier) × (dpop ≡ some v)
    × (source : NonceSource) × (v.nonce ≡ some source)
    × (source.issue now ≡ nonce)
    × (nonce ≢ [])

-- The response gets a nonce that is issued, and the order not to store it; where none is issued it
-- stays as it is.
abbrev pub Rotated : Option Verifier → Time → Response → Response → Type 0
Rotated dpop now w w' =
    ((nonce : Str) × Issues dpop now nonce
      × (w' ≡ record w {
        headers =
            insert (str "Cache-Control") (text (str "no-store"))
              (insert (str "DPoP-Nonce") (text nonce) w.headers);
      }))
    ⊎ (((nonce : Str) → ¬ Issues dpop now nonce) × (w' ≡ w))

unissued : (now : Time) (nonce : Str) → ¬ Issues none now nonce
unissued now nonce = λ (v, e, source, f, i, p). cc

issue-some :
    (v : Verifier) (now : Time) (source : NonceSource)
    → v.nonce ≡ some source
    → issue_nonce v now ≡ source.issue now
unfolding issue_nonce
issue-some v now source e = rw (e, issue_nonce)

issue-none : (v : Verifier) (now : Time) → v.nonce ≡ none → issue_nonce v now ≡ []
unfolding issue_nonce
issue-none v now e = rw (e, issue_nonce)

-- What is issued is what the source issues.
pub Issues-eq :
    (v : Verifier) (now : Time) (nonce : Str)
    → Issues (some v) now nonce
    → (issue_nonce v now ≡ nonce) × (nonce ≢ [])
Issues-eq v now nonce (u, same, source, e, issued, present) =
    let e' : v.nonce ≡ some source =
      ap (λ o. elim o [ none ↦ v.nonce | some x ↦ x.nonce ]) same ∙ e in
    (issue-some v now source e' ∙ issued, present)

pub issue-Issues :
    (v : Verifier) (now : Time) → issue_nonce v now ≢ [] → Issues (some v) now (issue_nonce v now)
issue-Issues v now present = elim (Option-cases v.nonce) [
  | inl e ↦ absurd (present (issue-none v now e))
  | inr (source, e) ↦ (v, refl, source, e, sym (issue-some v now source e), present)
]

abbrev with_nonce : Str → Response → Response
with_nonce nonce w = record w {
  headers =
      insert (str "Cache-Control") (text (str "no-store"))
        (insert (str "DPoP-Nonce") (text nonce) w.headers);
}

rotate-nonce :
    (v : Verifier) (now : Time) (w : Response)
    → is_empty (issue_nonce v now) ≡ false
    → rotate_nonce (some v) now w ≡ with_nonce (issue_nonce v now) w
unfolding rotate_nonce
rotate-nonce v now w e = rw e refl

rotate-empty :
    (v : Verifier) (now : Time) (w : Response)
    → is_empty (issue_nonce v now) ≡ true
    → rotate_nonce (some v) now w ≡ w
unfolding rotate_nonce
rotate-empty v now w e = rw e refl

present : (s : Str) → is_empty s ≡ false → s ≢ []
present s h = λ e. ground (arith, is_empty_iff s)

pub rotate_nonce_iff :
    (dpop : Option Verifier) (now : Time) (w w' : Response)
    → (w' ≡ rotate_nonce dpop now w) ↔ Rotated dpop now w w'
unfolding rotate_nonce
rotate_nonce_iff none now w w' = (
  λ h. inr (unissued now, h),
  λ h. elim h [ inl (nonce, i, e) ↦ absurd (unissued now nonce i) | inr (idle, e) ↦ e ],
)
rotate_nonce_iff (some v) now w w' = elim (Bool-cases (is_empty (issue_nonce v now))) [
  | inl e ↦
      let blank = (is_empty_iff (issue_nonce v now)).0 e in
      (
        λ h. inr (
          λ nonce i. let (eq, some_nonce) = Issues-eq v now nonce i in some_nonce (sym eq ∙ blank),
          h ∙ rotate-empty v now w e,
        ),
        λ h. elim h [
          | inl (nonce, i, same) ↦
              let (eq, some_nonce) = Issues-eq v now nonce i in absurd (some_nonce (sym eq ∙ blank))
          | inr (idle, same) ↦ same ∙ sym (rotate-empty v now w e)
        ],
      )
  | inr e ↦
      let issued = issue-Issues v now (present _ e) in
      (
        λ h. inl (issue_nonce v now, issued, h ∙ rotate-nonce v now w e),
        λ h. elim h [
          | inl (nonce, i, same) ↦
              same
              ∙ ap (λ n. with_nonce n w) (sym (Issues-eq v now nonce i).0)
              ∙ sym (rotate-nonce v now w e)
          | inr (idle, same) ↦ absurd (idle _ issued)
        ],
      )
]

module _ (j : Jws) (r : ReplayCache) (l : RateLimiter) where
  -- There is no limiter, and its state stays; or it lets the subject pass, and is left as `ls'`.
  abbrev pub Allowed : MiddlewareConfig → l.State → l.State → Claims → Time → Type 0
  Allowed cfg ls ls' claims now =
      ((cfg.limited ≡ false) × (ls' ≡ ls))
      ⊎ ((cfg.limited ≡ true)
          × (wait : Duration) × (l.allow ls claims.subject now ≡ (ls', true, wait)))

  -- There is a limiter, and it turns the subject away, until it has waited.
  abbrev pub Denied : MiddlewareConfig → l.State → l.State → Claims → Time → Duration → Type 0
  Denied cfg ls ls' claims now wait =
      (cfg.limited ≡ true) × (l.allow ls claims.subject now ≡ (ls', false, wait))

  allow-on :
      (cfg : MiddlewareConfig) (ls : l.State) (claims : Claims) (now : Time)
      → cfg.limited ≡ true
      → allow_request j r l cfg ls claims.subject now ≡ l.allow ls claims.subject now
  unfolding allow_request
  allow-on cfg ls claims now e = rw e refl

  allow-off :
      (cfg : MiddlewareConfig) (ls : l.State) (claims : Claims) (now : Time)
      → cfg.limited ≡ false
      → allow_request j r l cfg ls claims.subject now ≡ (ls, true, pos 0)
  unfolding allow_request
  allow-off cfg ls claims now e = rw e refl

  triple-eq :
      (s s' : l.State) (b b' : Bool) (d d' : Duration)
      → ◌≡◌ {A = l.State × Bool × Duration} (s, b, d) (s', b', d')
      → (s ≡ s') × (b ≡ b') × (d ≡ d')
  triple-eq s s' b b' d d' h = (cc, cc, cc)

  pub allow_request_iff :
      (cfg : MiddlewareConfig) (ls ls' : l.State) (claims : Claims) (now : Time)
      → ((wait : Duration) × (allow_request j r l cfg ls claims.subject now ≡ (ls', true, wait)))
        ↔ Allowed cfg ls ls' claims now
  allow_request_iff cfg ls ls' claims now = (
    λ (wait, h). elim (Bool-cases cfg.limited) [
      | inl e ↦ inr (e, wait, sym (allow-on cfg ls claims now e) ∙ h)
      | inr e ↦
          let (s, b, d) = triple-eq _ _ _ _ _ _ (sym (allow-off cfg ls claims now e) ∙ h) in
          inl (e, sym s)
    ],
    λ h. elim h [
      | inl (e, s) ↦ (pos 0, allow-off cfg ls claims now e ∙ ap (λ x. (x, true, pos 0)) (sym s))
      | inr (e, wait, passed) ↦ (wait, allow-on cfg ls claims now e ∙ passed)
    ],
  )

  pub allow-Denied :
      (cfg : MiddlewareConfig) (ls ls' : l.State) (claims : Claims) (now : Time) (wait : Duration)
      → allow_request j r l cfg ls claims.subject now ≡ (ls', false, wait)
      → Denied cfg ls ls' claims now wait
  allow-Denied cfg ls ls' claims now wait h = elim (Bool-cases cfg.limited) [
    | inl e ↦ (e, sym (allow-on cfg ls claims now e) ∙ h)
    | inr e ↦ let (s, b, d) = triple-eq _ _ _ _ _ _ (sym (allow-off cfg ls claims now e) ∙ h) in cc
  ]
