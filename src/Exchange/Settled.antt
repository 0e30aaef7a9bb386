-- ===== src/Exchange/Settled.antt =====
-- exchange/exchanger.go: what the replies of the authorization server come to, by what they hold.
use mcp_auth_go.Prelude.{
  ℕ, Str, str, ◌==◌, eq_iff, is_empty, is_empty_iff, Bool, true, false, ◌&&◌, not, [], Time, eqb,
  leb, ◌≤◌, ◌<◌, ◌≡◌, ◌≢◌, ◌↔◌, subst, refl, sym, ap, ◌∙◌, ◌⊎◌, inl, inr, arith, Bool-cases,
}
use mcp_auth_go.Core.Errors.{GoError, reject, Result, ok, fail}
use mcp_auth_go.Exchange.Cache.{Token}
use mcp_auth_go.Exchange.Forms.{Form}
use mcp_auth_go.Exchange.Attempts.{do_request-Attempted, done-ne}
use mcp_auth_go.Exchange.{
  TokenResponse, Reply, unbuilt, unsigned, unanswered, answered, Exchanger,
  err_exchange_unavailable, rejected, unavailable, token, Step, done, again, judge, step,
  do_request,
}

-- The server grants a token.
abbrev pub Grants : ℕ → TokenResponse → Type 0
Grants status b = (status ≡ 200) × (b.access_token ≢ [])

-- The reply has a body that decodes, and a status below 500.
abbrev pub Heard : Reply → ℕ → Str → TokenResponse → Type 0
Heard reply status nonce b = (reply ≡ answered status nonce (ok b)) × (status < 500)

-- The reply refuses a token, asks for a nonce and hands over this one.
abbrev pub Asks : Reply → Str → Type 0
Asks reply nonce =
    (status : ℕ) × (b : TokenResponse) × Heard reply status nonce b
    × (¬ Grants status b)
    × (b.error ≡ str "use_dpop_nonce")
    × (nonce ≢ [])

-- What the reply comes to: the token that it grants; that the server is unavailable, where it does not
-- answer, with a status of 500 and above, or with a body that does not decode; or that it rejects the
-- request, with the error of its body.
abbrev pub Settles : Reply → Time → Result Token → Type 0
Settles reply now res =
    ((status : ℕ) × (nonce : Str) × (b : TokenResponse) × Heard reply status nonce b
      × Grants status b
      × (res ≡ ok (token b now)))
    ⊎ (((status : ℕ) × (nonce : Str) × (b : TokenResponse) × Heard reply status nonce b
          × (¬ Grants status b)
          × (res ≡ fail (rejected b.error)))
        ⊎ (((status : ℕ) (nonce : Str) (b : TokenResponse) → ¬ Heard reply status nonce b)
            × (c : GoError) × (res ≡ fail (reject err_exchange_unavailable c))))

grant_test_iff :
    (status : ℕ) (b : TokenResponse)
    → ((eqb status 200 && not (is_empty b.access_token)) ≡ true) ↔ Grants status b
grant_test_iff status b = ground (arith, is_empty_iff b.access_token)

-- The end of an attempt, by the attempt and the reply.
abbrev Ends : ℕ → Reply → Time → Step → Type 0
Ends attempt reply now s =
    ((res : Result Token) × (s ≡ done res)
      × Settles reply now res
      × (attempt ≡ 0 → (nonce : Str) → ¬ Asks reply nonce))
    ⊎ ((nonce : Str) × (s ≡ again nonce) × (attempt ≡ 0) × Asks reply nonce)

answered-inj :
    (s s' : ℕ) (n n' : Str) (b b' : TokenResponse)
    → answered s n (ok b) ≡ answered s' n' (ok b')
    → (s ≡ s') × (n ≡ n') × (b ≡ b')
answered-inj s s' n n' b b' h = (cc, cc, cc)

Asks-inv :
    (status : ℕ) (nonce n : Str) (b : TokenResponse)
    → Asks (answered status nonce (ok b)) n
    → (n ≡ nonce) × (¬ Grants status b) × (b.error ≡ str "use_dpop_nonce") × (n ≢ [])
Asks-inv status nonce n b (status', b', (e, low), not_granted, err, present) =
    let (s, m, c) = answered-inj status status' nonce n b b' e in
    (
      sym m,
      λ g. not_granted (subst (λ x. Grants x b') s (subst (λ x. Grants status x) c g)),
      ap (λ x. x.error) c ∙ err,
      present,
    )

asks_iff :
    (attempt : ℕ) (nonce : Str) (b : TokenResponse)
    → ((b.error == str "use_dpop_nonce" && not (is_empty nonce) && eqb attempt 0) ≡ true)
      ↔ ((b.error ≡ str "use_dpop_nonce") × (nonce ≢ []) × (attempt ≡ 0))
asks_iff attempt nonce b = ground (arith, is_empty_iff nonce, eq_iff b.error (str "use_dpop_nonce"))

not_true : (b : Bool) → b ≡ false → b ≢ true
not_true b h = λ k. cc

judge-Ends :
    (attempt status : ℕ) (nonce : Str) (b : TokenResponse) (now : Time)
    → status < 500
    → Ends attempt (answered status nonce (ok b)) now (judge attempt status nonce b now)
unfolding judge
judge-Ends attempt status nonce b now low =
    let (granted, grant) = grant_test_iff status b in
    let (asked, ask) = asks_iff attempt nonce b in
    elim (Bool-cases (eqb status 200 && not (is_empty b.access_token))) [
      | inl g ↦ inl (
        ok (token b now),
        rw (g, judge) refl,
        inl (status, nonce, b, (refl, low), granted g, refl),
        λ first n a.
            let (m, refused, err, present) = Asks-inv status nonce n b a in refused (granted g),
      )
      | inr g ↦
          let refused : ¬ Grants status b = (λ k. not_true _ g (grant k)) in
          elim (Bool-cases
            (b.error == str "use_dpop_nonce" && not (is_empty nonce) && eqb attempt 0)) [
              | inl a ↦
                  let (err, present, first) = asked a in
                  inr (
                    nonce,
                    rw (g, a, judge) refl,
                    first,
                    (status, b, (refl, low), refused, err, present),
                  )
              | inr a ↦ inl (
                fail (rejected b.error),
                rw (g, a, judge) refl,
                inr (inl (status, nonce, b, (refl, low), refused, refl)),
                λ first n h.
                    let (m, r, err, present) = Asks-inv status nonce n b h in
                    not_true _ a (ask (err, subst (λ x. x ≢ []) m present, first)),
              )
            ]
    ]

unheard :
    (attempt : ℕ) (reply : Reply) (now : Time) (c : GoError)
    → ((status : ℕ) (nonce : Str) (b : TokenResponse) → ¬ Heard reply status nonce b)
    → Ends attempt reply now (done (fail (unavailable c)))
unfolding unavailable
unheard attempt reply now c h = inl (
  fail (unavailable c),
  refl,
  inr (inr (h, c, refl)),
  λ first n (status, b, heard, refused, err, present). h status n b heard,
)

too_high :
    (status status' : ℕ) (nonce nonce' : Str) (body : Result TokenResponse) (b : TokenResponse)
    → leb 500 status ≡ true
    → ¬ Heard (answered status nonce body) status' nonce' b
too_high status status' nonce nonce' body b high = λ (e, low).
    let same : status ≡ status' = cc in let above : 500 ≤ status = ground arith in omega arith

body-Ends :
    (attempt status : ℕ) (nonce : Str) (body : Result TokenResponse) (now : Time)
    → leb 500 status ≡ false
    → Ends attempt (answered status nonce body) now (step attempt (answered status nonce body) now)
unfolding step
body-Ends attempt status nonce (ok b) now low =
    rw (low, step) (judge-Ends attempt status nonce b now (ground arith))
body-Ends attempt status nonce (fail err) now low =
    rw (low, step)
      (unheard attempt (answered status nonce (fail err)) now _ (λ status' nonce' b (e, l). cc))

step-Ends :
    (attempt : ℕ) (reply : Reply) (now : Time) → Ends attempt reply now (step attempt reply now)
unfolding step
step-Ends attempt (unbuilt err) now =
    unheard attempt (unbuilt err) now _ (λ status nonce b (e, low). cc)
step-Ends attempt (unsigned err) now =
    unheard attempt (unsigned err) now _ (λ status nonce b (e, low). cc)
step-Ends attempt (unanswered err) now =
    unheard attempt (unanswered err) now _ (λ status nonce b (e, low). cc)
step-Ends attempt (answered status nonce body) now = elim (Bool-cases (leb 500 status)) [
  | inl high ↦
      rw (high, step)
        (unheard attempt (answered status nonce body) now _
          (λ status' nonce' b. too_high status status' nonce nonce' body b high))
  | inr low ↦ body-Ends attempt status nonce body now low
]

done-inj : (a b : Result Token) → done a ≡ done b → a ≡ b
done-inj a b h = cc

again-inj : (a b : Str) → again a ≡ again b → a ≡ b
again-inj a b h = cc

second_done :
    (reply : Reply) (now : Time) (res : Result Token)
    → step 1 reply now ≡ done res
    → Settles reply now res
second_done reply now res f = elim (step-Ends 1 reply now) [
  | inl (res', e, settles, silent) ↦
      subst (Settles reply now) (done-inj res' res (sym e ∙ f)) settles
  | inr (nonce, e, zeroth, asks) ↦ absurd (done-ne res nonce (sym f ∙ e))
]

module _ {W : Type 0} where
  -- A result after one attempt, or after two.
  abbrev pub Answered : Exchanger W → W → Form → Time → W × Result Token → Type 0
  Answered x w form now result =
      let (w1, first) = x.server w form [] in
      ((res : Result Token) × (((nonce : Str) → ¬ Asks first nonce))
        × Settles first now res
        × (result ≡ (w1, res)))
      ⊎ ((nonce : Str) × (res : Result Token) × Asks first nonce
          × Settles (x.server w1 form nonce).1 now res
          × (result ≡ ((x.server w1 form nonce).0, res)))

  -- A request to the server takes one attempt or two, of which the first has no nonce. If the first
  -- reply refuses a token with `use_dpop_nonce` and hands over a nonce, a second attempt carries that
  -- nonce, and its reply gives the result whatever it is; else the first reply gives it. The result is
  -- the token that the reply grants with status 200; a rejection with the error of its body, where the
  -- status is below 500; or, if the server does not answer, or with status 500 and above or a body that
  -- does not decode, that it is unavailable.
  pub do_request_lem :
      (x : Exchanger W) (w : W) (form : Form) (now : Time)
      → Answered x w form now (do_request x w form now)
  do_request_lem x w form now =
      let (w1, first) = x.server w form [] in
      elim (do_request-Attempted x w form now) [
        | inl (res, e, r) ↦ elim (step-Ends 0 first now) [
          | inl (res', e', settles, silent) ↦ inl (
            res,
            silent refl,
            subst (Settles first now) (done-inj res' res (sym e' ∙ e)) settles,
            r,
          )
          | inr (nonce, e', zeroth, asks) ↦ absurd (done-ne res nonce (sym e ∙ e'))
        ]
        | inr (nonce, res, e, f, r) ↦ elim (step-Ends 0 first now) [
          | inl (res', e', settles, silent) ↦ absurd (done-ne res' nonce (sym e' ∙ e))
          | inr (nonce', e', zeroth, asks) ↦ inr (
            nonce,
            res,
            subst (Asks first) (again-inj nonce' nonce (sym e' ∙ e)) asks,
            second_done (x.server w1 form nonce).1 now res f,
            r,
          )
        ]
      ]
