-- ===== src/Introspection/Setup.antt =====
-- introspection/introspection.go: which configurations `NewValidator` takes.
use mcp_auth_go.Prelude.{
  Str, str, Bool, true, Option, none, some, [], if◌then◌else◌, ◌≡◌, ◌≢◌, ◌⊎◌, pos, ◌≤ℤ◌, ◌<ℤ◌,
}
use mcp_auth_go.Core.Errors.{GoError, Result, ok, fail, fail_if, ◌>>◌}
use mcp_auth_go.Introspection.ClientAuth.{ClientAuthenticator}
use mcp_auth_go.Introspection.{Validator}
use mcp_auth_go.Introspection.Construct.{Net, Config}

-- The checks of `NewValidator`, over their outcomes.
abbrev checked :
    {A B : Type 0}
    → Bool
    → Option A
    → Bool
    → Bool
    → Result (Unit {0})
    → (A → B)
    → GoError
    → GoError
    → GoError
    → GoError
    → Result B
checked a o c d r f e1 e2 e3 e4 =
    if a
    then fail e1
    else elim o [ none ↦ fail e2 | some x ↦ do fail_if c e3; fail_if d e4; r; ok (f x) ]

-- The validator of a configuration, with the two defaults.
pub record Configured {W : Type 0} (cfg : Config W) (client_auth : ClientAuthenticator)
    (v : Validator W) : Type 0 where
  pub url : v.url ≡ cfg.introspection_url
  pub auth : v.client_auth ≡ client_auth
  pub issuer : v.issuer ≡ cfg.issuer
  pub audience : v.audience ≡ cfg.audience
  pub client : v.http_client ≡ cfg.http_client
  pub hint :
      ((cfg.token_type_hint ≡ []) × (v.hint ≡ str "access_token"))
      ⊎ ((cfg.token_type_hint ≢ []) × (v.hint ≡ cfg.token_type_hint))
  pub skew :
      ((cfg.clock_skew ≤ℤ pos 0) × (v.clock_skew ≡ pos 30000000000))
      ⊎ ((pos 0 <ℤ cfg.clock_skew) × (v.clock_skew ≡ cfg.clock_skew))

module _ (n : Net) where
  -- The host is the name of the loopback, or an address of it.
  abbrev pub Loopback : Str → Type 0
  Loopback host =
      (host ≡ str "localhost")
      ⊎ ((ip : n.Ip) × (n.parse_ip host ≡ some ip) × (n.is_loopback ip ≡ true))

  -- The URL is https, or http at a loopback host.
  abbrev pub Secure : Str → Type 0
  Secure raw =
      (u : n.Url) × (n.parse raw ≡ ok u)
      × ((n.scheme u ≡ str "https") ⊎ ((n.scheme u ≡ str "http") × Loopback (n.hostname u)))
