-- ===== src/Introspection/Refusals.antt =====
-- introspection/introspection.go: the errors with which `Validate` refuses a token.
use mcp_auth_go.Prelude.{
  if◌then◌else◌, ◌&&◌, after, is_empty, Str, str, ◌==◌, eq_iff, Bool, true, false, not, Option, [],
  ◌∷◌, Time, ◌+ℤ◌, ◌<ℤ◌, positive, ltb_ℤ_iff, Has, ◌≡◌, ◌≢◌, refl, sym, ap, ◌∙◌, ◌⊎◌, inl, inr,
  arith, Option-cases,
}
use mcp_auth_go.Core.Errors.{
  GoError, wrapf, Result, ok, fail, fail_if, reject, new_error, to_error, ◌>>◌, err_missing_token,
  err_invalid_token, err_expired_token,
}
use mcp_auth_go.Core.Errors.Laws.{Result-cases}
use mcp_auth_go.Exchange.Forms.{Form}
use mcp_auth_go.Introspection.Response.{audience_contains, Body, IntrospectionResponse, unix64}
use mcp_auth_go.Introspection.ClientAuth.{HttpRequest}
use mcp_auth_go.Introspection.Cache.{IntrospectionCache}
use mcp_auth_go.Introspection.Answers.{
  Answered, audience_contains_iff, do_introspect_iff, verdict_iff,
}
use mcp_auth_go.Introspection.Verdicts.{
  introspect-miss, introspect-hit, conclude-refused, conclude-passed,
}
use mcp_auth_go.Introspection.{
  err_introspection_unavailable, introspection_unavailable, Reply, unanswered, unread, answered,
  Validator, token_form, decode, read_reply, blank_request, post, do_introspect, verdict, look,
  conclude, ask, introspect,
}

abbrev Unavailable : GoError → Type 0
Unavailable err = (c : GoError) × (err ≡ reject err_introspection_unavailable c)

guarded-fail {ℓ} :
    {A : Type ℓ} (t : Bool) (x : Result A) (e : GoError) (wrap : GoError → GoError) (err : GoError)
    → (if not t
        then fail (introspection_unavailable e)
        else elim x [ fail e' ↦ fail (introspection_unavailable (wrap e')) | ok y ↦ ok y ])
      ≡ fail err
    → Unavailable err
unfolding introspection_unavailable
guarded-fail true (ok y) e wrap err h = cc
guarded-fail true (fail e') e wrap err h = (wrap e', cc)
guarded-fail false x e wrap err h = (e, cc)

read_reply-fail : (reply : Reply) (err : GoError) → read_reply reply ≡ fail err → Unavailable err
unfolding read_reply introspection_unavailable
read_reply-fail (unanswered e) err h = (e, cc)
read_reply-fail (unread e) err h = (wrapf (str "read introspection response: %w") [] e, cc)
read_reply-fail (answered status b) err h = guarded-fail _ (decode b) _ _ err h

abbrev checks :
    Bool → Bool → Bool → Bool → GoError → GoError → GoError → GoError → Result (Unit {0})
checks a b c d e1 e2 e3 e4 = do
  fail_if (not a) (reject err_invalid_token e1)
  fail_if (not b) (reject err_invalid_token e2)
  fail_if (not c) (reject err_invalid_token e3)
  fail_if d (reject err_expired_token e4)
  ok tt

checks-fail :
    (a b c d : Bool) (e1 e2 e3 e4 err : GoError)
    → checks a b c d e1 e2 e3 e4 ≡ fail err
    → ((c' : GoError) × (err ≡ reject err_invalid_token c') × ((a && b && c) ≡ false))
      ⊎ ((err ≡ reject err_expired_token e4) × (a ≡ true) × (b ≡ true) × (c ≡ true) × (d ≡ true))
checks-fail false b c d e1 e2 e3 e4 err h = inl (e1, cc, refl)
checks-fail true false c d e1 e2 e3 e4 err h = inl (e2, cc, refl)
checks-fail true true false d e1 e2 e3 e4 err h = inl (e3, cc, refl)
checks-fail true true true true e1 e2 e3 e4 err h = inr (cc, refl, refl, refl, refl)
checks-fail true true true false e1 e2 e3 e4 err h = cc

module _ {W : Type 0} where
  post-fail :
      (v : Validator W) (w : W) (a : Result HttpRequest) (err : GoError)
      → (post v w a).1 ≡ fail err
      → Unavailable err
  unfolding post introspection_unavailable
  post-fail v w (fail e) err h = (wrapf (str "client auth: %w") [] e, cc)
  post-fail v w (ok req) err h = read_reply-fail (v.http_client.send w req).1 err h

  do_introspect-fail :
      (v : Validator W) (w : W) (form : Form) (err : GoError)
      → (do_introspect v w form).1 ≡ fail err
      → Unavailable err
  unfolding do_introspect introspection_unavailable
  do_introspect-fail v w form err h = elim (Option-cases (v.http_client.new_request v.url)) [
    | inl e ↦
        let d : do_introspect v w form ≡ post v w (v.client_auth (blank_request v form)) =
          rw (e, do_introspect) refl in
        post-fail v w (v.client_auth (blank_request v form)) err (sym (ap (λ x. x.1) d) ∙ h)
    | inr (c, e) ↦
        let d : do_introspect v w form ≡ (w, fail (introspection_unavailable c)) =
          rw (e, do_introspect) refl in
        (c, cc (ap (λ x. x.1) d, h))
  ]

  -- The response is active, from the configured issuer and for the configured audience.
  abbrev pub Genuine : Validator W → IntrospectionResponse → Type 0
  Genuine v resp = (resp.active ≡ true) × (resp.iss ≡ v.issuer) × Has v.audience resp.aud

  -- The error for a response that does not pass.
  abbrev pub Judged : Validator W → IntrospectionResponse → Time → GoError → Type 0
  Judged v resp now err =
      ((c : GoError) × (err ≡ reject err_invalid_token c) × (¬ Genuine v resp))
      ⊎ ((err ≡ reject err_expired_token (new_error "token expired"))
          × Genuine v resp
          × (positive resp.exp ≡ true)
          × (unix64 resp.exp +ℤ v.clock_skew <ℤ now))

  verdict-fail :
      (v : Validator W) (resp : IntrospectionResponse) (now : Time) (err : GoError)
      → verdict v resp now ≡ fail err
      → Judged v resp now err
  unfolding verdict
  verdict-fail v resp now err h =
      elim (checks-fail resp.active (resp.iss == v.issuer) (audience_contains resp.aud v.audience)
        (positive resp.exp && after now (unix64 resp.exp +ℤ v.clock_skew)) _ _ _ _ err h) [
          | inl (c, e, amiss) ↦ inl (
            c,
            e,
            λ (a, i, m).
                ground (arith, eq_iff resp.iss v.issuer, audience_contains_iff resp.aud v.audience),
          )
          | inr (e, a, i, m, late) ↦ inr (
            e,
            (a, (eq_iff resp.iss v.issuer).0 i, (audience_contains_iff resp.aud v.audience).0 m),
            ground arith,
            ground (arith, ltb_ℤ_iff (unix64 resp.exp +ℤ v.clock_skew) now),
          )
        ]

  -- What a refusal of a token comes from: there is none, or it gets no response, or one that does not
  -- pass.
  abbrev pub Refused : Validator W → W → Str → Time → GoError → Type 0
  Refused v w bearer now err =
      ((bearer ≡ []) × (err ≡ to_error err_missing_token))
      ⊎ ((bearer ≢ [])
          × Unavailable err
          × ((resp : IntrospectionResponse) (body : Body)
              → ¬ Answered v w (token_form bearer v.hint) resp body))
      ⊎ ((bearer ≢ [])
          × (resp : IntrospectionResponse) × (body : Body) × Answered v w (token_form bearer v.hint)
              resp body
          × Judged v resp now err)

module _ (ch : IntrospectionCache) (digest : Str → Str) {W : Type 0} where
  conclude-fail :
      (v : Validator W) (w : W) (st : Option ch.State) (bearer : Str)
      (res : Result (IntrospectionResponse × Body)) (now : Time) (err : GoError)
      → bearer ≢ []
      → (do_introspect v w (token_form bearer v.hint)).1 ≡ res
      → (conclude ch digest v st bearer res now).1 ≡ fail err
      → Refused v w bearer now err × ((conclude ch digest v st bearer res now).0 ≡ st)
  unfolding conclude
  conclude-fail v w st bearer (fail e) now err present s h =
      let form = token_form bearer v.hint in
      (
        inr (
            inl (
              present,
              do_introspect-fail v w form err (s ∙ ap fail (cc)),
              λ resp body a. let got = (do_introspect_iff v w form resp body).1 a in cc (got, s),
            )),
        refl,
      )
  conclude-fail v w st bearer (ok (resp, body)) now err present s h =
      let answer = (do_introspect_iff v w (token_form bearer v.hint) resp body).0 s in
      elim (Result-cases (verdict v resp now)) [
        | inl (passed, e) ↦
            let p = (verdict_iff v resp now).0 e in
            cc (ap (λ x. x.1) (conclude-passed ch digest v st bearer resp body now p), h)
        | inr (e, f) ↦
            let d = conclude-refused ch digest v st bearer resp body now e f in
            let same : e ≡ err = cc (ap (λ x. x.1) d, h) in
            (
              inr (
                  inr
                    (present, resp, body, answer, verdict-fail v resp now err (f ∙ ap fail same))),
              ap (λ x. x.0) d,
            )
      ]

  -- A refusal says why. `ErrMissingToken` stands for an empty token, and
  -- `ErrIntrospectionUnavailable` for any other that gets no response of the endpoint: the request is
  -- not built, authenticated or answered with status 200 and a body that decodes. Where there is a
  -- response, `ErrExpiredToken` stands for one that is active, from the configured issuer and for the
  -- configured audience and is past its expiry by more than the clock skew, and `ErrInvalidToken` for
  -- one that is not active, or not from that issuer or not for that audience. And a refusal stores
  -- nothing: the cache is left as the lookup leaves it.
  pub introspect-Refused :
      (v : Validator W) (w : W) (st : Option ch.State) (bearer : Str) (now clock : Time)
      (err : GoError)
      → (introspect ch digest v w st bearer now clock).2 ≡ fail err
      → Refused v w bearer now err
        × ((introspect ch digest v w st bearer now clock).1
            ≡ (if is_empty bearer then st else (look ch digest st clock bearer).0))
  unfolding introspect ask
  introspect-Refused v w st [] now clock err h = (inl (refl, cc), refl)
  introspect-Refused v w st (c ∷ rest) now clock err h =
      let bearer = c ∷ rest in
      let present : bearer ≢ [] = (λ e. cc) in
      let st' = (look ch digest st clock bearer).0 in
      elim (Option-cases (look ch digest st clock bearer).1) [
        | inl miss ↦
            let d = introspect-miss ch digest v w st bearer now clock present miss in
            let (why, kept) =
              conclude-fail v w st' bearer _ now err present refl (sym (ap (λ x. x.2) d) ∙ h) in
            (why, ap (λ x. x.1) d ∙ kept)
        | inr (claims, hit) ↦
            cc (
              ap (λ x. x.2) (introspect-hit ch digest v w st bearer now clock claims present hit),
              h,
            )
      ]
