-- ===== src/Exchange/Downstream/Events.antt =====
-- exchange/idjag.go: the audit of `Provide`.
use mcp_auth_go.Prelude.{Str, str, true, false, List, ◌∷◌, Time, ◌≡◌, ◌⊎◌}
use mcp_auth_go.Core.Errors.{GoError, Result, ok, fail, is_error}
use mcp_auth_go.Audit.{Event, granted, denied, error}
use mcp_auth_go.Exchange.Cache.{Token}
use mcp_auth_go.Exchange.Forms.{Form}
use mcp_auth_go.Exchange.{err_exchange_rejected}
use mcp_auth_go.Exchange.Downstream.{
  DownstreamTokenProvider, ProvideRequest, provider_event, event_of,
}

-- The events that a world holds, the latest first: the servers add none, and the provider's sink adds
-- the one that it is given.
pub record Observed {W : Type 0} (p : DownstreamTokenProvider W) : Type 0 where
  pub events : W → List Event
  pub first_adds_none :
      (w : W) (form : Form) (nonce : Str) → events (p.idp.server w form nonce).0 ≡ events w
  pub second_adds_none :
      (w : W) (form : Form) (nonce : Str) → events (p.resource_as.server w form nonce).0 ≡ events w
  pub recorded : (w : W) (e : Event) → events (provider_event p w e) ≡ e ∷ events w

module _ {W : Type 0} where
  -- The event of a grant, and that of a failure.
  abbrev pub Told :
      DownstreamTokenProvider W → ProvideRequest → Time → Result Token → Event → Type 0
  Told p req now result e =
      ((tok : Token) × (result ≡ ok tok)
        × (e ≡ event_of p granted (str "cross_app_access") req.subject tok.scopes now))
      ⊎ ((err : GoError) × (result ≡ fail err)
          × (((is_error err_exchange_rejected err ≡ true)
                × (e ≡ event_of p denied (str "exchange_rejected") req.subject p.scope now))
              ⊎ ((is_error err_exchange_rejected err ≡ false)
                  × (e ≡ event_of p error (str "exchange_unavailable") req.subject p.scope now))))
