-- ===== src/Introspection/Verdicts.antt =====
-- introspection/introspection.go: which replies of the endpoint make `Validate` accept a token, and
-- the errors of the refusals.
use mcp_auth_go.Prelude.{
  Str, is_empty, false, Option, none, some, [], ◌∷◌, Time, ◌≡◌, ◌≢◌, refl, sym, ap, ◌∙◌, ◌↔◌, inl,
  inr,
}
use mcp_auth_go.Core.Errors.{GoError, Result, ok, fail}
use mcp_auth_go.Core.Errors.Laws.{Result-cases}
use mcp_auth_go.Core.Claims.{Claims}
use mcp_auth_go.Introspection.Response.{Body, IntrospectionResponse, claims_of}
use mcp_auth_go.Introspection.Cache.{IntrospectionCache}
use mcp_auth_go.Introspection.Answers.{Passes, verdict_iff, Answered, do_introspect_iff, pair-eq}
use mcp_auth_go.Introspection.{
  Validator, token_form, do_introspect, verdict, look, keep_verdict, conclude, ask, introspect,
}

module _ {W : Type 0} where
  -- The claims of a response that the endpoint gives for the token, and that passes the checks.
  abbrev pub Accepted : Validator W → W → Str → Time → Claims → Type 0
  Accepted v w bearer now claims =
      (resp : IntrospectionResponse) × (body : Body) × Answered v w (token_form bearer v.hint) resp
        body
      × Passes v resp now
      × (claims ≡ claims_of resp body.members)

module _ (ch : IntrospectionCache) (digest : Str → Str) where
  pub conclude-passed :
      {W : Type 0} (v : Validator W) (st : Option ch.State) (bearer : Str)
      (resp : IntrospectionResponse) (body : Body) (now : Time)
      → Passes v resp now
      → conclude ch digest v st bearer (ok (resp, body)) now ≡ (
        keep_verdict ch digest st bearer resp (claims_of resp body.members),
        ok (claims_of resp body.members),
      )
  unfolding conclude
  conclude-passed v st bearer resp body now p = rw ((verdict_iff v resp now).1 p, conclude) refl

  pub conclude-refused :
      {W : Type 0} (v : Validator W) (st : Option ch.State) (bearer : Str)
      (resp : IntrospectionResponse) (body : Body) (now : Time) (err : GoError)
      → verdict v resp now ≡ fail err
      → conclude ch digest v st bearer (ok (resp, body)) now ≡ (st, fail err)
  unfolding conclude
  conclude-refused v st bearer resp body now err e = rw (e, conclude) refl

  conclude_iff :
      {W : Type 0} (v : Validator W) (st : Option ch.State) (bearer : Str)
      (res : Result (IntrospectionResponse × Body)) (now : Time) (claims : Claims)
      → ((conclude ch digest v st bearer res now).1 ≡ ok claims) ↔ (
          (resp : IntrospectionResponse) × (body : Body) × (res ≡ ok (resp, body))
          × Passes v resp now
          × (claims ≡ claims_of resp body.members))
  unfolding conclude
  conclude_iff v st bearer (fail err) now claims = (λ h. cc, λ (resp, body, e, p, c). cc)
  conclude_iff v st bearer (ok (resp, body)) now claims = elim (Result-cases (verdict v resp now)) [
    | inl (passed, e) ↦
        let p = (verdict_iff v resp now).0 e in
        let d = ap (λ x. x.1) (conclude-passed v st bearer resp body now p) in
        (
          λ h. (resp, body, refl, p, cc (d, h)),
          λ (r, b, s, q, c).
              let (rr, bb) = pair-eq resp r body b s in d ∙ ap ok (sym (cc (c, rr, bb))),
        )
    | inr (err, e) ↦
        let d = ap (λ x. x.1) (conclude-refused v st bearer resp body now err e) in
        (
          λ h. cc (d, h),
          λ (r, b, s, q, c).
              let (rr, bb) = pair-eq resp r body b s in
              let p = (verdict_iff v r now).1 q in cc (p, rr),
        )
  ]

  present-test : (s : Str) → s ≢ [] → is_empty s ≡ false
  present-test [] h = absurd (h refl)
  present-test (c ∷ s) h = refl

  pub introspect-miss :
      {W : Type 0} (v : Validator W) (w : W) (st : Option ch.State) (bearer : Str)
      (now clock : Time)
      → bearer ≢ []
      → (look ch digest st clock bearer).1 ≡ none
      → introspect ch digest v w st bearer now clock
        ≡ ask ch digest v w (look ch digest st clock bearer).0 bearer now
  unfolding introspect
  introspect-miss v w st bearer now clock present miss =
      rw (present-test bearer present, miss, introspect) refl

  pub introspect-hit :
      {W : Type 0} (v : Validator W) (w : W) (st : Option ch.State) (bearer : Str)
      (now clock : Time) (claims : Claims)
      → bearer ≢ []
      → (look ch digest st clock bearer).1 ≡ some claims
      → introspect ch digest v w st bearer now clock
        ≡ (w, (look ch digest st clock bearer).0, ok claims)
  unfolding introspect
  introspect-hit v w st bearer now clock claims present hit =
      rw (present-test bearer present, hit, introspect) refl

  -- Where the cache has no verdict, a token is accepted with certain claims exactly when it is not
  -- empty, and the request for it is built, authenticated and answered with status 200 by a response
  -- that is active, from the configured issuer and for the configured audience, that is not past its
  -- expiry by more than the clock skew, and whose claims these are.
  pub introspect_iff :
      {W : Type 0} (v : Validator W) (w : W) (st : Option ch.State) (bearer : Str)
      (now clock : Time) (claims : Claims)
      → (look ch digest st clock bearer).1 ≡ none
      → ((introspect ch digest v w st bearer now clock).2 ≡ ok claims)
        ↔ ((bearer ≢ []) × Accepted v w bearer now claims)
  unfolding introspect ask
  introspect_iff v w st [] now clock claims miss = (λ h. cc, λ (p, a). absurd (p refl))
  introspect_iff v w st (c ∷ rest) now clock claims miss =
      let bearer = c ∷ rest in
      let present : bearer ≢ [] = (λ h. cc) in
      let st' = (look ch digest st clock bearer).0 in
      let res = (do_introspect v w (token_form bearer v.hint)).1 in
      let d = ap (λ x. x.2) (introspect-miss v w st bearer now clock present miss) in
      let (to, from) = conclude_iff v st' bearer res now claims in
      (
        λ h.
            let (r, b, s, p, c) = to (sym d ∙ h) in
            (present, (r, b, (do_introspect_iff v w (token_form bearer v.hint) r b).0 s, p, c)),
        λ (n, (r, b, a, p, c)).
            d ∙ from (r, b, (do_introspect_iff v w (token_form bearer v.hint) r b).1 a, p, c),
      )
