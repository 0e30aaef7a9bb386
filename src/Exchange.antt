-- ===== src/Exchange.antt =====
-- exchange: the exchange of a caller's token for a downstream one.
-- `Server` stands for the HTTP client with the client's authentication and the server behind it.
pub mod Strings
pub mod Forms
pub mod Cache
pub mod Replies
pub mod Keys
pub mod Attempts
pub mod Settled
pub mod Downstream
pub mod Proof
mod Tests
use mcp_auth_go.Prelude.{
  ℕ, zero, suc, Str, str, is_empty, Option, none, some, List, [], ◌++◌, Time, join, if◌then◌else◌,
}
use mcp_auth_go.Core.Errors.{
  GoError, new_error, to_error, Result, ok, fail, err_missing_token, is_error,
}
use mcp_auth_go.Core.Context.{Ctx, claims_from, raw_token_from}
use mcp_auth_go.Exchange.Strings.{sort_strings}
use mcp_auth_go.Exchange.Forms.{Request, Form, exchange_form, assertion_form}
use mcp_auth_go.Audit.{Event, token_exchange, granted, denied, error, Sink}
use mcp_auth_go.Exchange.Cache.{Token, ExchangeCache}
pub use mcp_auth_go.Exchange.Replies.{
  TokenResponse, Reply, unbuilt, unsigned, unanswered, answered, Step, done, again,
}
unfoldable pub use mcp_auth_go.Exchange.Replies.{
  err_exchange_rejected, err_exchange_unavailable, rejected, unavailable, seconds64, token, judge,
  step,
}

-- The authorization server behind the HTTP client, with the client's authentication: an attempt with
-- a form and a nonce, in the world `W`.
abbrev pub Server : Type 0 → Type 0
Server W = W → Form → Str → W × Reply

pub record Exchanger (W : Type 0) : Type 0 where
  pub server : Server W
  pub audit : Option (Sink W)

unfoldable pub cache_key : Request → Str
cache_key req =
    req.subject
    ++ (str "|"
        ++ (req.audience
            ++ (str "|"
                ++ (req.subject_token_type
                    ++ (str "|"
                        ++ (req.requested_token_type
                            ++ (str "|" ++ join (str " ") (sort_strings req.scope))))))))

module _ (ch : ExchangeCache) where
  -- `x.cache.Get(key)`, where there is a key.
  unfoldable pub cached : ch.State → Request → Time → ch.State × Option Token
  cached st req now = if is_empty req.subject then (st, none) else ch.get st now (cache_key req)

  -- `x.cache.Set(key, tok)`, where there is a key and an expiry.
  unfoldable pub store : ch.State → Request → Token → ch.State
  store st req tok =
      if is_empty req.subject
      then st
      else elim tok.expires_at [ none ↦ st | some _ ↦ ch.set st (cache_key req) tok ]

module _ {W : Type 0} where
  -- The loop of `do`, from an attempt on, with the number of attempts left.
  unfoldable pub do_from : ℕ → ℕ → Exchanger W → W → Form → Str → Time → W × Result Token
  do_from zero attempt x w form nonce now = (w, fail (rejected (str "use_dpop_nonce")))
  do_from (suc left) attempt x w form nonce now =
      let (w', reply) = x.server w form nonce in
      elim (step attempt reply now) [
        | done res ↦ (w', res)
        | again nonce' ↦ do_from left (suc attempt) x w' form nonce' now
      ]

  unfoldable pub do_request : Exchanger W → W → Form → Time → W × Result Token
  do_request x w form now = do_from 2 0 x w form [] now

  abbrev pub record_event : Exchanger W → W → Event → W
  record_event x w e = elim x.audit [ none ↦ w | some sink ↦ sink w e ]

  unfoldable pub record_granted : Exchanger W → W → Request → Token → Time → W
  record_granted x w req tok now = record_event x w (record {
    action = token_exchange;
    outcome = granted;
    reason_code = [];
    tool = [];
    subject = req.subject;
    issuer = [];
    audience = req.audience;
    scopes = tok.scopes;
    email = [];
    time = now;
  })

  unfoldable pub record_failure : Exchanger W → W → Request → GoError → Time → W
  record_failure x w req err now =
      let is_rejected = is_error err_exchange_rejected err in
      record_event x w (record {
        action = token_exchange;
        outcome = if is_rejected then denied else error;
        reason_code = if is_rejected then str "exchange_rejected" else str "exchange_unavailable";
        tool = [];
        subject = req.subject;
        issuer = [];
        audience = req.audience;
        scopes = req.scope;
        email = [];
        time = now;
      })

  unfoldable pub redeem_assertion : Exchanger W → W → Str → List Str → Time → W × Result Token
  redeem_assertion x w assertion scope now =
      if is_empty assertion
      then (w, fail (new_error "exchange: RedeemAssertion assertion is required"))
      else do_request x w (assertion_form assertion scope) now

  module _ (ch : ExchangeCache) where
    -- The part of `Exchange` behind a miss.
    unfoldable pub fetch : Exchanger W → W → ch.State → Request → Time → W × ch.State × Result Token
    fetch x w st req now =
        let (w', res) = do_request x w (exchange_form req) now in
        elim res [
          | fail err ↦ (record_failure x w' req err now, st, fail err)
          | ok tok ↦ (record_granted x w' req tok now, store ch st req tok, ok tok)
        ]

    unfoldable pub exchange :
        Exchanger W → W → ch.State → Request → Time → Time → W × ch.State × Result Token
    exchange x w st req now clock =
        if is_empty req.subject_token
        then (w, st, fail (new_error "exchange: Request.SubjectToken is required"))
        else let (st', hit) = cached ch st req clock in
          elim hit [
            | some tok ↦ (record_granted x w req tok now, st', ok tok)
            | none ↦ fetch x w st' req now
          ]

    unfoldable pub token_for_caller :
        Exchanger W
        → W
        → ch.State
        → Ctx
        → Str
        → List Str
        → Time
        → Time
        → W × ch.State × Result Token
    token_for_caller x w st ctx audience scope now clock = elim (raw_token_from ctx) [
      | none ↦ (w, st, fail (to_error err_missing_token))
      | some raw ↦
          if is_empty raw
          then (w, st, fail (to_error err_missing_token))
          else exchange x w st
              (record {
                subject_token = raw;
                subject = elim (claims_from ctx) [ none ↦ [] | some c ↦ c.subject ];
                audience = audience;
                resource = [];
                scope = scope;
                actor_token = [];
                subject_token_type = [];
                requested_token_type = [];
              })
              now clock
    ]
