-- ===== src/Exchange/Downstream/Uncached.antt =====
-- exchange/exchanger.go: a token that a request returns, and an exchange without a subject, a cache and
-- an audit.
use mcp_auth_go.Prelude.{
  ℕ, Str, is_empty, Bool, true, false, ◌&&◌, not, none, [], ◌∷◌, Time, eqb, leb, if◌then◌else◌, ◌≡◌,
  ◌≢◌, refl, sym, ap, subst, ◌∙◌, ◌⊎◌, inl, inr, arith,
}
use mcp_auth_go.Core.Errors.{GoError, ok, fail}
use mcp_auth_go.Core.Errors.Laws.{Result-cases}
use mcp_auth_go.Exchange.Cache.{Token}
use mcp_auth_go.Exchange.Forms.{Request, Form, exchange_form}
use mcp_auth_go.Exchange.Attempts.{do_request-Attempted}
use mcp_auth_go.Exchange.{
  TokenResponse, Reply, unbuilt, unsigned, unanswered, answered, Exchanger, Step, done, again,
  judge, step, token, do_request, exchange, cached, store, fetch, record_granted, record_failure,
}
use mcp_auth_go.Exchange.Downstream.{nop_cache}

-- A token that is returned is not empty.
Full : Step → Type 0
Full (done (ok tok)) = tok.access_token ≢ []
Full (done (fail e)) = Unit
Full (again nonce) = Unit

granted-Full :
    (good retry : Bool) (b : TokenResponse) (now : Time) (nonce : Str) (err : GoError)
    → (good ≡ true → is_empty b.access_token ≡ false)
    → Full
        (if good then done (ok (token b now)) else if retry then again nonce else done (fail err))
unfolding Full token
granted-Full true retry b now nonce err h = λ f. cc (h refl)
granted-Full false true b now nonce err h = tt
granted-Full false false b now nonce err h = tt

judge-Full :
    (attempt status : ℕ) (nonce : Str) (b : TokenResponse) (now : Time)
    → Full (judge attempt status nonce b now)
unfolding judge
judge-Full attempt status nonce b now =
    granted-Full (eqb status 200 && not (is_empty b.access_token)) _ b now nonce _
      (λ h. ground arith)

later-Full : (b : Bool) (s u : Step) → Full s → Full u → Full (if b then s else u)
later-Full true s u h k = h
later-Full false s u h k = k

step-Full : (attempt : ℕ) (reply : Reply) (now : Time) → Full (step attempt reply now)
unfolding step Full
step-Full attempt (unbuilt e) now = tt
step-Full attempt (unsigned e) now = tt
step-Full attempt (unanswered e) now = tt
step-Full attempt (answered status nonce (fail e)) now = later-Full (leb 500 status) _ _ tt tt
step-Full attempt (answered status nonce (ok b)) now =
    later-Full (leb 500 status) _ _ tt (judge-Full attempt status nonce b now)

done-Full :
    (attempt : ℕ) (reply : Reply) (now : Time) (tok : Token)
    → step attempt reply now ≡ done (ok tok)
    → tok.access_token ≢ []
unfolding Full
done-Full attempt reply now tok e = subst Full e (step-Full attempt reply now)

pub empty-cases : (s : Str) → (s ≡ []) ⊎ (s ≢ [])
empty-cases [] = inl refl
empty-cases (c ∷ s) = inr (λ h. cc)

pub present-test : (s : Str) → s ≢ [] → is_empty s ≡ false
present-test [] h = absurd (h refl)
present-test (c ∷ s) h = refl

module _ {W : Type 0} where
  pub do_request-token :
      (x : Exchanger W) (w : W) (form : Form) (now : Time) (tok : Token)
      → (do_request x w form now).1 ≡ ok tok
      → tok.access_token ≢ []
  do_request-token x w form now tok h =
      let first = x.server w form [] in
      elim (do_request-Attempted x w form now) [
        | inl (res, e, r) ↦ done-Full 0 first.1 now tok (e ∙ ap done (sym (ap (λ y. y.1) r) ∙ h))
        | inr (nonce, res, e, f, r) ↦
            done-Full 1 (x.server first.0 form nonce).1 now tok
              (f ∙ ap done (sym (ap (λ y. y.1) r) ∙ h))
      ]

  silent_granted :
      (x : Exchanger W) (w : W) (req : Request) (tok : Token) (now : Time)
      → x.audit ≡ none
      → record_granted x w req tok now ≡ w
  unfolding record_granted
  silent_granted x w req tok now quiet = rw (quiet, record_granted) refl

  silent_failure :
      (x : Exchanger W) (w : W) (req : Request) (err : GoError) (now : Time)
      → x.audit ≡ none
      → record_failure x w req err now ≡ w
  unfolding record_failure
  silent_failure x w req err now quiet = rw (quiet, record_failure) refl

  silent_fetch :
      (x : Exchanger W) (w : W) (req : Request) (now : Time)
      → x.audit ≡ none
      → req.subject ≡ []
      → fetch nop_cache x w tt req now ≡ (
        (do_request x w (exchange_form req) now).0,
        tt,
        (do_request x w (exchange_form req) now).1,
      )
  unfolding fetch store
  silent_fetch x w req now quiet anonymous =
      let r = do_request x w (exchange_form req) now in
      let nobody : is_empty req.subject ≡ true = rw anonymous refl in
      elim (Result-cases r.1) [
        | inl (tok, e) ↦ rw (e, fetch, silent_granted x r.0 req tok now quiet, nobody, store) refl
        | inr (err, e) ↦ rw (e, fetch, silent_failure x r.0 req err now quiet) refl
      ]

  -- Without a subject, a cache and an audit an exchange is one request.
  pub bare_exchange :
      (x : Exchanger W) (w : W) (req : Request) (now clock : Time)
      → x.audit ≡ none
      → req.subject_token ≢ []
      → req.subject ≡ []
      → exchange nop_cache x w tt req now clock ≡ (
        (do_request x w (exchange_form req) now).0,
        tt,
        (do_request x w (exchange_form req) now).1,
      )
  unfolding exchange cached
  bare_exchange x w req now clock quiet present anonymous =
      let nobody : is_empty req.subject ≡ true = rw anonymous refl in
      rw (present-test req.subject_token present, nobody, cached, exchange)
        (silent_fetch x w req now quiet anonymous)
