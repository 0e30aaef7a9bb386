-- ===== src/Introspection/Construct.antt =====
-- introspection/introspection.go: `NewValidator`. `Net` stands for the parsers of net/url and net.
use mcp_auth_go.Prelude.{
  Str, str, ◌==◌, is_empty, Bool, true, false, ◌&&◌, Option, none, some, [], ◌*◌, Duration, pos,
  positive, second, if◌then◌else◌,
}
use mcp_auth_go.Core.Errors.{wrapf, new_error, Result, ok, fail, ◌>>◌, fail_if}
use mcp_auth_go.Introspection.ClientAuth.{ClientAuthenticator}
use mcp_auth_go.Introspection.{HttpClient, Validator}

-- `url.Parse` and `net.ParseIP`.
pub record Net : Type 1 where
  pub Url : Type 0
  pub Ip : Type 0
  pub parse : Str → Result Url
  pub scheme : Url → Str
  pub hostname : Url → Str
  pub parse_ip : Str → Option Ip
  pub is_loopback : Ip → Bool

pub record Config (W : Type 0) : Type 0 where
  pub introspection_url : Str
  pub client_auth : Option ClientAuthenticator
  pub issuer : Str
  pub audience : Str
  pub token_type_hint : Str
  pub http_client : HttpClient W
  pub clock_skew : Duration

-- The validator with its defaults.
unfoldable pub with_defaults : {W : Type 0} → Config W → ClientAuthenticator → Validator W
with_defaults cfg client_auth = record {
  url = cfg.introspection_url;
  client_auth = client_auth;
  issuer = cfg.issuer;
  audience = cfg.audience;
  hint = if is_empty cfg.token_type_hint then str "access_token" else cfg.token_type_hint;
  http_client = cfg.http_client;
  clock_skew = if positive cfg.clock_skew then cfg.clock_skew else pos (30 * second);
}

module _ (n : Net) where
  unfoldable pub is_loopback_host : Str → Bool
  is_loopback_host host =
      if host == str "localhost"
      then true
      else elim (n.parse_ip host) [ none ↦ false | some ip ↦ n.is_loopback ip ]

  unfoldable pub check_url : Str → Result (Unit {0})
  check_url raw = elim (n.parse raw) [
    | fail err ↦
        fail (wrapf (str "introspection: Config.IntrospectionURL is not a valid URL: %w") [] err)
    | ok u ↦
        if n.scheme u == str "https"
        then ok tt
        else if n.scheme u == str "http" && is_loopback_host (n.hostname u)
        then ok tt
        else fail (
            new_error
              "introspection: Config.IntrospectionURL must be https (loopback http is allowed)")
  ]

  unfoldable pub new_introspection_validator : {W : Type 0} → Config W → Result (Validator W)
  new_introspection_validator cfg =
      if is_empty cfg.introspection_url
      then fail (new_error "introspection: Config.IntrospectionURL is required")
      else elim cfg.client_auth [
        | none ↦ fail (new_error "introspection: Config.ClientAuth is required")
        | some client_auth ↦ do
          fail_if (is_empty cfg.issuer) (new_error "introspection: Config.Issuer is required")
          fail_if (is_empty cfg.audience) (new_error "introspection: Config.Audience is required")
          check_url cfg.introspection_url
          ok (with_defaults cfg client_auth)
      ]
