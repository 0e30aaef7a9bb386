-- ===== src/Introspection/Answers.antt =====
-- introspection/introspection.go: which replies of the endpoint `do` returns as a response, and which
-- responses pass the checks of `Validate`.
use mcp_auth_go.Prelude.{
  ℕ, Str, eq_iff, Bool, true, false, not, none, List, [], ◌∷◌, Time, subst, ◌+ℤ◌, ◌≤ℤ◌, positive,
  ltb_ℤ_iff, eqb, Has, if◌then◌else◌, ◌≡◌, refl, sym, ap, ◌∙◌, ◌↔◌, ◌⊎◌, inl, inr, arith,
  Option-cases,
}
use mcp_auth_go.Core.Errors.{GoError, Result, ok, fail}
use mcp_auth_go.Exchange.Forms.{Form}
use mcp_auth_go.Introspection.Response.{
  Body, IntrospectionResponse, response, audience_contains, unix64,
}
use mcp_auth_go.Introspection.ClientAuth.{HttpRequest}
use mcp_auth_go.Introspection.{
  introspection_unavailable, Reply, unanswered, unread, answered, Validator, decode, read_reply,
  blank_request, post, do_introspect, verdict,
}

pub audience_contains_iff :
    (auds : List Str) (want : Str) → (audience_contains auds want ≡ true) ↔ Has want auds
unfolding audience_contains
audience_contains_iff [] want = (λ h. cc, λ h. absurd h)
audience_contains_iff (a ∷ auds) want = (
  λ h. ground (arith, eq_iff a want, audience_contains_iff auds want),
  λ h. ground (arith, eq_iff a want, audience_contains_iff auds want),
)

pub pair-eq {ℓ κ} :
    {A : Type ℓ} {B : Type κ} (a a' : A) (b b' : B)
    → ◌≡◌ {A = Result (A × B)} (ok (a, b)) (ok (a', b'))
    → (a ≡ a') × (b ≡ b')
pair-eq a a' b b' h = (cc, cc)

decode-eq :
    (b body : Body) (resp : IntrospectionResponse) (r : Result IntrospectionResponse)
    → response b ≡ r
    → decode (ok b) ≡ ok (resp, body)
    → (◌≡◌ {A = Result Body} (ok b) (ok body)) × (response body ≡ ok resp)
unfolding decode
decode-eq b body resp (fail err) e h = let d : decode (ok b) ≡ fail err = rw e refl in cc (d, h)
decode-eq b body resp (ok r) e h =
    let d : decode (ok b) ≡ ok (r, b) = rw e refl in
    let (p, q) = pair-eq r resp b body (sym d ∙ h) in (ap ok q, cc (e, p, q))

decode-ok :
    (body : Body) (resp : IntrospectionResponse)
    → response body ≡ ok resp
    → decode (ok body) ≡ ok (resp, body)
unfolding decode
decode-ok body resp e = rw e refl

decode_iff :
    (b : Result Body) (resp : IntrospectionResponse) (body : Body)
    → (decode b ≡ ok (resp, body)) ↔ ((b ≡ ok body) × (response body ≡ ok resp))
unfolding decode
decode_iff (fail err) resp body = (λ h. cc, λ h. cc (h.0))
decode_iff (ok b) resp body = (
  λ h. decode-eq b body resp (response b) refl h,
  λ (e, r). subst (λ x. decode x ≡ ok (resp, body)) (sym e) (decode-ok body resp r),
)

-- A test and a result that both have to hold.
guarded_iff {ℓ} :
    {A : Type ℓ} (t : Bool) (x : Result A) (err : GoError) (wrap : GoError → GoError) (a : A)
    → ((if not t then fail err else elim x [ fail e ↦ fail (wrap e) | ok y ↦ ok y ]) ≡ ok a)
      ↔ ((t ≡ true) × (x ≡ ok a))
guarded_iff true (ok y) err wrap a = (λ h. (refl, h), λ h. h.1)
guarded_iff true (fail e) err wrap a = (λ h. cc, λ h. cc (h.1))
guarded_iff false x err wrap a = (λ h. cc, λ h. cc (h.0))

abbrev status_of : Reply → ℕ
status_of (answered status b) = status
status_of _ = 200

abbrev body_of : Reply → Result Body
body_of (answered status b) = b
body_of (unanswered err) = fail err
body_of (unread err) = fail err

-- The reply is a response with status 200 whose body decodes to `resp`.
read_reply_iff :
    (reply : Reply) (resp : IntrospectionResponse) (body : Body)
    → (read_reply reply ≡ ok (resp, body))
      ↔ ((reply ≡ answered 200 (ok body)) × (response body ≡ ok resp))
unfolding read_reply
read_reply_iff (unanswered err) resp body = (λ h. cc, λ h. cc (h.0))
read_reply_iff (unread err) resp body = (λ h. cc, λ h. cc (h.0))
read_reply_iff (answered status b) resp body =
    let (to, from) = guarded_iff (eqb status 200) (decode b) _ _ (resp, body) in
    let (parse, print) = decode_iff b resp body in
    (
      λ h.
          let (s, d) = to h in
          let (e, r) = parse d in let at : status ≡ 200 = ground arith in (cc (at, e), r),
      λ h.
          let at : status ≡ 200 = ap status_of h.0 in
          from (ground arith, print (ap body_of h.0, h.1)),
    )

module _ {W : Type 0} where
  -- The response is active, from the configured issuer, for the configured audience, and has no
  -- expiry or one that is not past by more than the clock skew.
  abbrev pub Passes : Validator W → IntrospectionResponse → Time → Type 0
  Passes v resp now =
      (resp.active ≡ true)
      × (resp.iss ≡ v.issuer)
      × Has v.audience resp.aud
      × ((positive resp.exp ≡ false) ⊎ (now ≤ℤ unix64 resp.exp +ℤ v.clock_skew))

  pub verdict_iff :
      (v : Validator W) (resp : IntrospectionResponse) (now : Time)
      → (verdict v resp now ≡ ok tt) ↔ Passes v resp now
  unfolding verdict
  verdict_iff v resp now = (
    λ h. ground (
      arith,
      eq_iff resp.iss v.issuer,
      audience_contains_iff resp.aud v.audience,
      ltb_ℤ_iff (unix64 resp.exp +ℤ v.clock_skew) now,
    ),
    λ h. ground (
      arith,
      eq_iff resp.iss v.issuer,
      audience_contains_iff resp.aud v.audience,
      ltb_ℤ_iff (unix64 resp.exp +ℤ v.clock_skew) now,
    ),
  )

  -- The request is built and authenticated, and is answered with status 200 and a body that decodes.
  abbrev pub Answered : Validator W → W → Form → IntrospectionResponse → Body → Type 0
  Answered v w form resp body =
      (v.http_client.new_request v.url ≡ none)
      × ((req : HttpRequest) × (v.client_auth (blank_request v form) ≡ ok req)
          × ((v.http_client.send w req).1 ≡ answered 200 (ok body)))
      × (response body ≡ ok resp)

  post_iff :
      (v : Validator W) (w : W) (a : Result HttpRequest) (resp : IntrospectionResponse)
      (body : Body)
      → ((post v w a).1 ≡ ok (resp, body)) ↔ (
          ((req : HttpRequest) × (a ≡ ok req)
            × ((v.http_client.send w req).1 ≡ answered 200 (ok body)))
          × (response body ≡ ok resp))
  unfolding post
  post_iff v w (fail err) resp body = (λ h. cc, λ ((req, e, s), r). cc)
  post_iff v w (ok req) resp body =
      let (to, from) = read_reply_iff (v.http_client.send w req).1 resp body in
      (
        λ h. let (s, r) = to h in ((req, refl, s), r),
        λ ((req', e, s), r).
            let same : req' ≡ req = cc in
            from (ap (λ x. (v.http_client.send w x).1) (sym same) ∙ s, r),
      )

  pub do_introspect_iff :
      (v : Validator W) (w : W) (form : Form) (resp : IntrospectionResponse) (body : Body)
      → ((do_introspect v w form).1 ≡ ok (resp, body)) ↔ Answered v w form resp body
  unfolding do_introspect
  do_introspect_iff v w form resp body = elim (Option-cases (v.http_client.new_request v.url)) [
    | inl e ↦
        let (to, from) = post_iff v w (v.client_auth (blank_request v form)) resp body in
        let d : do_introspect v w form ≡ post v w (v.client_auth (blank_request v form)) =
          rw (e, do_introspect) refl in
        (
          λ h. let (s, r) = to (sym (ap (λ x. x.1) d) ∙ h) in (e, s, r),
          λ (n, s, r). ap (λ x. x.1) d ∙ from (s, r),
        )
    | inr (err, e) ↦
        let d : do_introspect v w form ≡ (w, fail (introspection_unavailable err)) =
          rw (e, do_introspect) refl in
        (λ h. let d1 = ap (λ x. x.1) d in cc (d1, h), λ h. cc (e, h.0))
  ]
