-- ===== src/Exchange/Downstream.antt =====
-- exchange/idjag.go: a token of another domain, in two legs.
pub mod Construct
pub mod Uncached
pub mod Legs
pub mod Setup
pub mod Events
mod Tests
use mcp_auth_go.Prelude.{Str, str, is_empty, Option, none, some, List, [], Time, if◌then◌else◌}
use mcp_auth_go.Core.Errors.{GoError, new_error, Result, ok, fail, ◌>>=◌, ◌>>◌, is_error}
use mcp_auth_go.Audit.{Event, token_exchange, Outcome, granted, denied, error, Sink}
use mcp_auth_go.Exchange.Forms.{Request}
use mcp_auth_go.Exchange.Cache.{Token, ExchangeCache}
use mcp_auth_go.Exchange.{Exchanger, err_exchange_rejected, cache_key, redeem_assertion, exchange}

abbrev pub token_type_id_jag : Str
token_type_id_jag = str "urn:ietf:params:oauth:token-type:id-jag"

-- `Get` and `Set` of `nopCache`.
unfoldable pub nop_get : Unit {0} → Time → Str → Unit {0} × Option Token
nop_get st now key = (st, none)

unfoldable pub nop_set : Unit {0} → Str → Token → Unit {0}
nop_set st key tok = st

abbrev pub nop_cache : ExchangeCache
nop_cache = record { State = Unit {0}; get = nop_get; set = nop_set }

pub record DownstreamTokenProvider (W : Type 0) : Type 0 where
  pub idp : Exchanger W
  pub resource_as : Exchanger W
  pub audience : Str
  pub resource : Str
  pub subject_token_type : Str
  pub scope : List Str
  pub audit : Option (Sink W)

pub record ProvideRequest : Type 0 where
  pub subject_assertion : Str
  pub subject : Str

module _ {W : Type 0} where
  abbrev pub provider_event : DownstreamTokenProvider W → W → Event → W
  provider_event p w e = elim p.audit [ none ↦ w | some sink ↦ sink w e ]

  abbrev pub event_of : DownstreamTokenProvider W → Outcome → Str → Str → List Str → Time → Event
  event_of p outcome reason subject scopes now = record {
    action = token_exchange;
    outcome = outcome;
    reason_code = reason;
    tool = [];
    subject = subject;
    issuer = [];
    audience = p.audience;
    scopes = scopes;
    email = [];
    time = now;
  }

  unfoldable pub provider_granted : DownstreamTokenProvider W → W → Str → Token → Time → W
  provider_granted p w subject tok now =
      provider_event p w (event_of p granted (str "cross_app_access") subject tok.scopes now)

  unfoldable pub provider_failure : DownstreamTokenProvider W → W → Str → GoError → Time → W
  provider_failure p w subject err now =
      let is_rejected = is_error err_exchange_rejected err in
      provider_event p w (
        event_of p (if is_rejected then denied else error)
          (if is_rejected then str "exchange_rejected" else str "exchange_unavailable") subject
          p.scope now)

  -- The request for the ID-JAG.
  unfoldable pub id_jag_request : DownstreamTokenProvider W → ProvideRequest → Request
  id_jag_request p req = record {
    subject_token = req.subject_assertion;
    subject = [];
    audience = p.audience;
    resource = p.resource;
    scope = p.scope;
    actor_token = [];
    subject_token_type = p.subject_token_type;
    requested_token_type = token_type_id_jag;
  }

  -- `cacheKey(req.Subject, p.audience, "", "", p.scope)`.
  unfoldable pub provider_key : DownstreamTokenProvider W → ProvideRequest → Str
  provider_key p req = cache_key (record {
    subject_token = [];
    subject = req.subject;
    audience = p.audience;
    resource = [];
    scope = p.scope;
    actor_token = [];
    subject_token_type = [];
    requested_token_type = [];
  })

  module _ (ch : ExchangeCache) where
    -- `p.cache.Get(key)`, where there are a cache and a subject.
    unfoldable pub provider_cached :
        DownstreamTokenProvider W
        → Option ch.State
        → ProvideRequest
        → Time
        → Option ch.State × Option Token
    provider_cached p none req clock = (none, none)
    provider_cached p (some st) req clock =
        if is_empty req.subject
        then (some st, none)
        else let (st', hit) = ch.get st clock (provider_key p req) in (some st', hit)

    -- `p.cache.Set(key, tok)`, where there are a key and an expiry.
    unfoldable pub provider_store :
        DownstreamTokenProvider W → Option ch.State → ProvideRequest → Token → Option ch.State
    provider_store p none req tok = none
    provider_store p (some st) req tok =
        if is_empty req.subject then some st else elim tok.expires_at [
          | none ↦ some st
          | some exp ↦ some (ch.set st (provider_key p req) tok)
        ]

    -- The second leg.
    unfoldable pub redeem :
        DownstreamTokenProvider W
        → W
        → Option ch.State
        → ProvideRequest
        → Token
        → Time
        → W × Option ch.State × Result Token
    redeem p w st req id_jag now =
        let (w', res) = redeem_assertion p.resource_as w id_jag.access_token p.scope now in
        elim res [
          | fail err ↦ (provider_failure p w' req.subject err now, st, fail err)
          | ok tok ↦
              (provider_granted p w' req.subject tok now, provider_store p st req tok, ok tok)
        ]

    -- The first leg, and what follows it.
    unfoldable pub mint :
        DownstreamTokenProvider W
        → W
        → Option ch.State
        → ProvideRequest
        → Time
        → W × Option ch.State × Result Token
    mint p w st req now =
        let (w', nop, res) = exchange nop_cache p.idp w tt (id_jag_request p req) now now in
        elim res [
          | fail err ↦ (provider_failure p w' req.subject err now, st, fail err)
          | ok id_jag ↦ redeem p w' st req id_jag now
        ]

    -- `Provide`, at the instants that the provider's and the cache's clock read.
    unfoldable pub provide :
        DownstreamTokenProvider W
        → W
        → Option ch.State
        → ProvideRequest
        → Time
        → Time
        → W × Option ch.State × Result Token
    provide p w st req now clock =
        if is_empty req.subject_assertion
        then (w, st, fail (new_error "exchange: ProvideRequest.SubjectAssertion is required"))
        else let (st', hit) = provider_cached p st req clock in
          elim hit [
            | some tok ↦ (provider_granted p w req.subject tok now, st', ok tok)
            | none ↦ mint p w st' req now
          ]
