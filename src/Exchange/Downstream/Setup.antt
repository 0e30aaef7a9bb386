-- ===== src/Exchange/Downstream/Setup.antt =====
-- exchange/idjag.go: what `NewDownstreamProvider` makes.
use mcp_auth_go.Prelude.{
  Str, is_empty, Bool, true, false, none, ◌≡◌, sym, ap, ◌∙◌, inl, inr, Bool-cases, Option-cases,
}
use mcp_auth_go.Core.Errors.{GoError, Result, ok, fail_if, ◌>>◌, new_error}
use mcp_auth_go.Core.Errors.Laws.{Result-cases}
use mcp_auth_go.Exchange.{Server, Exchanger}
use mcp_auth_go.Exchange.Downstream.{DownstreamTokenProvider}
use mcp_auth_go.Exchange.Downstream.Construct.{
  ExchangerConfig, DownstreamConfig, new_exchanger, connect_legs, is_missing,
  new_downstream_provider, inner,
}

ok-eq {ℓ} : {A : Type ℓ} (a b : A) → ◌≡◌ {A = Result A} (ok a) (ok b) → a ≡ b
ok-eq a b h = cc

past-guards {ℓ} :
    {A : Type ℓ} (a b c d e : Bool) (e1 e2 e3 e4 e5 : GoError) (r : Result A) (x : A)
    → ◌≡◌ {A = Result A}
        (do fail_if a e1; fail_if b e2; fail_if c e3; fail_if d e4; fail_if e e5; r)
        (ok x)
    → r ≡ ok x
past-guards true b c d e e1 e2 e3 e4 e5 r x h = cc
past-guards false true c d e e1 e2 e3 e4 e5 r x h = cc
past-guards false false true d e e1 e2 e3 e4 e5 r x h = cc
past-guards false false false true e e1 e2 e3 e4 e5 r x h = cc
past-guards false false false false true e1 e2 e3 e4 e5 r x h = cc
past-guards false false false false false e1 e2 e3 e4 e5 r x h = h

module _ {Auth W : Type 0} (connect : Str → Auth → Server W) where
  new_exchanger-audit :
      (cfg : ExchangerConfig Auth W) (x : Exchanger W)
      → new_exchanger connect cfg ≡ ok x
      → x.audit ≡ cfg.audit
  unfolding new_exchanger
  new_exchanger-audit cfg x h = elim (Bool-cases (is_empty cfg.token_url)) [
    | inl e ↦ cc (rw (e, new_exchanger) at h)
    | inr e ↦ elim (Option-cases cfg.client_auth) [
      | inl n ↦ cc (rw (e, n, new_exchanger) at h)
      | inr (auth, s) ↦
          let made : ◌≡◌ {A = Result (Exchanger W)}
              (ok (record { server = connect cfg.token_url auth; audit = cfg.audit })) (ok x) =
            rw (e, s, new_exchanger) at h in
          sym (ap (λ (y : Exchanger W). y.audit) (ok-eq _ x made))
    ]
  ]

  connect_legs-audit :
      (cfg : DownstreamConfig Auth W) (p : DownstreamTokenProvider W)
      → connect_legs connect cfg ≡ ok p
      → p.idp.audit ≡ none
  unfolding connect_legs
  connect_legs-audit cfg p h = elim (Result-cases (new_exchanger connect (inner connect cfg.idp))) [
    | inr (err, e) ↦ cc (rw (e, connect_legs) at h)
    | inl (idp, e) ↦ elim (Result-cases (new_exchanger connect (inner connect cfg.resource_as))) [
      | inr (err, f) ↦ cc (rw (e, f, connect_legs) at h)
      | inl (resource_as, f) ↦
          ap (λ (q : DownstreamTokenProvider W). q.idp.audit)
            (sym (ok-eq _ p (rw (e, f, connect_legs) at h)))
          ∙ new_exchanger-audit (inner connect cfg.idp) idp e
    ]
  ]

  -- The exchanger that the constructor makes for the first leg has no audit of its own.
  pub new_downstream_provider-audit :
      (cfg : DownstreamConfig Auth W) (p : DownstreamTokenProvider W)
      → new_downstream_provider connect cfg ≡ ok p
      → p.idp.audit ≡ none
  unfolding new_downstream_provider
  new_downstream_provider-audit cfg p h = connect_legs-audit cfg p (
      past-guards (is_empty cfg.idp.token_url) (is_missing cfg.idp.client_auth)
        (is_empty cfg.resource_as.token_url) (is_missing cfg.resource_as.client_auth)
        (is_empty cfg.audience) (new_error "exchange: DownstreamConfig.IDP.TokenURL is required")
        (new_error "exchange: DownstreamConfig.IDP.ClientAuth is required")
        (new_error "exchange: DownstreamConfig.ResourceAS.TokenURL is required")
        (new_error "exchange: DownstreamConfig.ResourceAS.ClientAuth is required")
        (new_error "exchange: DownstreamConfig.Audience is required") (connect_legs connect cfg) p
        h)
