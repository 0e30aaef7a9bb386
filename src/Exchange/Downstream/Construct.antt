-- ===== src/Exchange/Downstream/Construct.antt =====
-- `NewDownstreamProvider` of exchange/idjag.go and `NewExchanger` of exchange/exchanger.go.
-- `connect` stands for the HTTP client, which makes a server of a token URL and an authentication.
use mcp_auth_go.Prelude.{
  Str, str, is_empty, Bool, true, false, Option, none, some, List, pos, ◌*◌, second, if◌then◌else◌,
}
use mcp_auth_go.Core.Errors.{new_error, Result, ok, fail, fail_if, ◌>>=◌, ◌>>◌}
use mcp_auth_go.Audit.{Sink}
use mcp_auth_go.Exchange.Forms.{or_default}
use mcp_auth_go.Exchange.Cache.{MemoryCache, new_memory_cache}
use mcp_auth_go.Exchange.{Server, Exchanger}
use mcp_auth_go.Exchange.Downstream.{DownstreamTokenProvider}

abbrev pub token_type_id_token : Str
token_type_id_token = str "urn:ietf:params:oauth:token-type:id_token"

-- `Config`, without its cache.
pub record ExchangerConfig (Auth : Type 0) (W : Type 0) : Type 0 where
  pub token_url : Str
  pub client_auth : Option Auth
  pub audit : Option (Sink W)

pub record Endpoint (Auth : Type 0) : Type 0 where
  pub token_url : Str
  pub client_auth : Option Auth

pub record DownstreamConfig (Auth : Type 0) (W : Type 0) : Type 0 where
  pub idp : Endpoint Auth
  pub resource_as : Endpoint Auth
  pub audience : Str
  pub resource : Str
  pub scope : List Str
  pub subject_token_type : Str
  pub audit : Option (Sink W)

-- The cache that `NewExchanger` makes where it is given none.
unfoldable pub default_cache : Option MemoryCache → MemoryCache
default_cache (some c) = c
default_cache none = new_memory_cache (pos (30 * second))

-- `X.ClientAuth == nil`.
pub is_missing : {Auth : Type 0} → Option Auth → Bool
is_missing none = true
is_missing (some auth) = false

module _ {Auth W : Type 0} (connect : Str → Auth → Server W) where
  unfoldable pub new_exchanger : ExchangerConfig Auth W → Result (Exchanger W)
  new_exchanger cfg =
      if is_empty cfg.token_url
      then fail (new_error "exchange: Config.TokenURL is required")
      else elim cfg.client_auth [
        | none ↦ fail (new_error "exchange: Config.ClientAuth is required")
        | some auth ↦ ok (record { server = connect cfg.token_url auth; audit = cfg.audit })
      ]

  -- The configuration of an inner exchanger.
  abbrev pub inner : Endpoint Auth → ExchangerConfig Auth W
  inner e = record { token_url = e.token_url; client_auth = e.client_auth; audit = none }

  -- The part of `NewDownstreamProvider` behind the checks.
  unfoldable pub connect_legs : DownstreamConfig Auth W → Result (DownstreamTokenProvider W)
  connect_legs cfg = do
    idp ← new_exchanger (inner cfg.idp)
    resource_as ← new_exchanger (inner cfg.resource_as)
    ok (record {
      idp = idp;
      resource_as = resource_as;
      audience = cfg.audience;
      resource = cfg.resource;
      subject_token_type = or_default cfg.subject_token_type token_type_id_token;
      scope = cfg.scope;
      audit = cfg.audit;
    })

  unfoldable pub new_downstream_provider :
      DownstreamConfig Auth W → Result (DownstreamTokenProvider W)
  unfolding is_missing
  new_downstream_provider cfg = do
    fail_if (is_empty cfg.idp.token_url)
        (new_error "exchange: DownstreamConfig.IDP.TokenURL is required")
    fail_if (is_missing cfg.idp.client_auth)
        (new_error "exchange: DownstreamConfig.IDP.ClientAuth is required")
    fail_if (is_empty cfg.resource_as.token_url)
        (new_error "exchange: DownstreamConfig.ResourceAS.TokenURL is required")
    fail_if (is_missing cfg.resource_as.client_auth)
        (new_error "exchange: DownstreamConfig.ResourceAS.ClientAuth is required")
    fail_if (is_empty cfg.audience) (new_error "exchange: DownstreamConfig.Audience is required")
    connect_legs cfg
