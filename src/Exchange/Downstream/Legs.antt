-- ===== src/Exchange/Downstream/Legs.antt =====
-- exchange/idjag.go: the two legs of `Provide`, and which server each of them asks.
use mcp_auth_go.Prelude.{Option, none, some, [], Time, ◌≡◌, ◌≢◌, ◌⊎◌}
use mcp_auth_go.Core.Errors.{GoError, Result, ok, fail}
use mcp_auth_go.Exchange.Cache.{Token, ExchangeCache}
use mcp_auth_go.Exchange.Forms.{exchange_form, assertion_form}
use mcp_auth_go.Exchange.{do_request}
use mcp_auth_go.Exchange.Downstream.{
  DownstreamTokenProvider, ProvideRequest, provider_granted, provider_failure, id_jag_request,
  provider_store,
}

module _ (ch : ExchangeCache) {W : Type 0} where
  -- The first leg, the second, and how `Provide` ends: the first fails, and the second is not tried;
  -- the first gives an ID-JAG, and the second, which presents it, fails; or both succeed, and the
  -- token of the second is stored and returned.
  abbrev pub Provided :
      DownstreamTokenProvider W
      → W
      → Option ch.State
      → ProvideRequest
      → Time
      → W × Option ch.State × Result Token
      → Type 0
  Provided p w st req now result =
      let (w1, first) = do_request p.idp w (exchange_form (id_jag_request p req)) now in
      ((err : GoError) × (first ≡ fail err)
        × (result ≡ (provider_failure p w1 req.subject err now, st, fail err)))
      ⊎ ((id_jag : Token) × (first ≡ ok id_jag)
          × (id_jag.access_token ≢ [])
          × (let (w2, second) =
                do_request p.resource_as w1 (assertion_form id_jag.access_token p.scope) now in
              ((err : GoError) × (second ≡ fail err)
                × (result ≡ (provider_failure p w2 req.subject err now, st, fail err)))
              ⊎ ((tok : Token) × (second ≡ ok tok)
                  × (result ≡ (
                    provider_granted p w2 req.subject tok now,
                    provider_store ch p st req tok,
                    ok tok,
                  )))))

  -- `Provide` ends without an assertion, with a token of the cache, or with the two legs.
  abbrev pub Outcome :
      DownstreamTokenProvider W
      → W
      → Option ch.State
      → ProvideRequest
      → Time
      → Option ch.State × Option Token
      → W × Option ch.State × Result Token
      → Type 0
  Outcome p w st req now (st', hit) result =
      ((req.subject_assertion ≡ [])
        × (result.0 ≡ w)
        × (result.1 ≡ st)
        × ((err : GoError) × (result.2 ≡ fail err)))
      ⊎ ((req.subject_assertion ≢ [])
          × ((tok : Token) × (hit ≡ some tok)
              × (result ≡ (provider_granted p w req.subject tok now, st', ok tok))))
      ⊎ ((req.subject_assertion ≢ []) × (hit ≡ none) × Provided p w st' req now result)
