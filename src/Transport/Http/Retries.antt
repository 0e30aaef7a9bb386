-- ===== src/Transport/Http/Retries.antt =====
-- transport/http/middleware.go: the headers that tell a refused client how to try again.
use mcp_auth_go.Prelude.{
  ℕ, ◌+◌, ◌*◌, ◌≤◌, Str, str, ◌==◌, is_empty, is_empty_iff, true, false, some, lookup,
  lookup-insert, Time, Duration, pos, pos_part, positive, ◌<ℤ◌, ◌≤ℤ◌, second, ◌≡◌, refl, sym, ◌∙◌,
  ◌⊎◌, inl, inr, arith, Option-cases, Bool-cases,
}
use mcp_auth_go.Core.Errors.{GoError, AuthError, as_auth_error, is_error, err_use_dpop_nonce}
use mcp_auth_go.Dpop.Verifier.{Verifier, issue_nonce}
use mcp_auth_go.Transport.Wire.{text, decimal, Response}
use mcp_auth_go.Transport.Http.{
  MiddlewareConfig, hand_nonce, write_auth_error, error_response, set_retry_after, refuse_proof,
}
use mcp_auth_go.Transport.Http.Bearer.{set_retry_after_lem}
use mcp_auth_go.Transport.Http.Rotation.{Issues, Issues-eq, issue-Issues}

-- The answer to a refusal that asks for a nonce hands one over, if the verifier issues one.
abbrev pub HandsNonce : Verifier → GoError → Time → Response → Type 0
HandsNonce v err now w =
    (is_error err_use_dpop_nonce err ≡ false)
    ⊎ (((nonce : Str) → ¬ Issues (some v) now nonce)
        ⊎ ((nonce : Str) × Issues (some v) now nonce
            × (lookup (str "DPoP-Nonce") w.headers ≡ some (text nonce))))

-- The answer to a positive wait says to retry after that many seconds, rounded up, and one at least.
abbrev pub SaysWhen : Duration → Response → Type 0
SaysWhen wait w =
    (wait ≤ℤ pos 0)
    ⊎ ((n : ℕ) × (lookup (str "Retry-After") w.headers ≡ some (decimal n))
        × (1 ≤ n)
        × (wait ≤ℤ pos (n * second))
        × (pos (n * second) <ℤ pos (pos_part wait + second)))

-- The headers that an error response leaves alone.
error_response-keeps :
    (cfg : MiddlewareConfig) (e : AuthError) (w : Response) (name : Str)
    → (str "Cache-Control" == name) ≡ false
    → (str "WWW-Authenticate" == name) ≡ false
    → (str "Content-Type" == name) ≡ false
    → lookup name (error_response cfg e w).headers ≡ lookup name w.headers
unfolding error_response
error_response-keeps cfg e w name a b c =
    lookup-insert (str "Cache-Control") name _ _
    ∙ rw a (
        lookup-insert (str "WWW-Authenticate") name _ _
        ∙ rw b (lookup-insert (str "Content-Type") name _ _ ∙ rw c refl))

-- So does any answer to an error.
answer-keeps :
    (cfg : MiddlewareConfig) (err : GoError) (w : Response) (name : Str)
    → (str "Cache-Control" == name) ≡ false
    → (str "WWW-Authenticate" == name) ≡ false
    → (str "Content-Type" == name) ≡ false
    → (str "X-Content-Type-Options" == name) ≡ false
    → lookup name (write_auth_error cfg err w).headers ≡ lookup name w.headers
unfolding write_auth_error
answer-keeps cfg err w name a b c d = elim (Option-cases (as_auth_error err)) [
  | inl e ↦
      rw (e, write_auth_error)
        (lookup-insert (str "X-Content-Type-Options") name _ _
          ∙ rw d (lookup-insert (str "Content-Type") name _ _ ∙ rw c refl))
  | inr (x, e) ↦ rw (e, write_auth_error) (error_response-keeps cfg x w name a b c)
]

no_nonce :
    (v : Verifier) (now : Time) (nonce : Str)
    → is_empty (issue_nonce v now) ≡ true
    → ¬ Issues (some v) now nonce
no_nonce v now nonce e = λ i.
    let (eq, present) = Issues-eq v now nonce i in
    present (sym eq ∙ (is_empty_iff (issue_nonce v now)).0 e)

handed :
    (v : Verifier) (now : Time) (w : Response)
    → is_empty (issue_nonce v now) ≡ false
    → lookup (str "DPoP-Nonce") (hand_nonce v now w).headers ≡ some (text (issue_nonce v now))
unfolding ◌==◌
handed v now w e = rw e (lookup-insert (str "DPoP-Nonce") (str "DPoP-Nonce") _ _)

pub refuse_proof-HandsNonce :
    (cfg : MiddlewareConfig) (v : Verifier) (now : Time) (err : GoError) (w : Response)
    → HandsNonce v err now (refuse_proof cfg v now err w)
unfolding refuse_proof ◌==◌
refuse_proof-HandsNonce cfg v now err w = elim (Bool-cases (is_error err_use_dpop_nonce err)) [
  | inr e ↦ inl e
  | inl e ↦ elim (Bool-cases (is_empty (issue_nonce v now))) [
    | inl blank ↦ inr (inl (λ nonce. no_nonce v now nonce blank))
    | inr full ↦ inr (
        inr (
          issue_nonce v now,
          issue-Issues v now (λ k. let b = (is_empty_iff (issue_nonce v now)).1 k in cc (b, full)),
          rw (e, refuse_proof)
              (answer-keeps cfg err (hand_nonce v now w) (str "DPoP-Nonce") refl refl refl refl
                ∙ handed v now w full),
        ))
  ]
]

pub refusal-SaysWhen :
    (cfg : MiddlewareConfig) (err : GoError) (wait : Duration) (w : Response)
    → SaysWhen wait (write_auth_error cfg err (set_retry_after wait w))
unfolding ◌==◌
refusal-SaysWhen cfg err wait w = elim (Bool-cases (positive wait)) [
  | inr e ↦ inl (ground arith)
  | inl e ↦
      let (n, told, one, above, below) = set_retry_after_lem wait w (ground arith) in
      inr (
        n,
        answer-keeps cfg err (set_retry_after wait w) (str "Retry-After") refl refl refl refl
            ∙ told,
        one,
        above,
        below,
      )
]
