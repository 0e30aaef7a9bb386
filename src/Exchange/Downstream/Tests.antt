-- ===== src/Exchange/Downstream/Tests.antt =====
-- exchange/idjag.go: the theorems at two servers, in a world of the audit's events.
use mcp_auth_go.Prelude.{
  Str, str, ◌==◌, is_empty, Option, none, some, List, [], ◌∷◌, lookup, insert, pos, ◌+ℤ◌, ◌-ℤ◌, ◌≡◌,
  refl, if◌then◌else◌,
}
use mcp_auth_go.Core.Errors.{ok, is_error, is_cause}
use mcp_auth_go.Audit.{Event}
use mcp_auth_go.Exchange.Cache.{memory_cache, get, set, is_fresh}
use mcp_auth_go.Exchange.Strings.{fields, fields_from, str_leb, insert_sorted, sort_strings}
use mcp_auth_go.Exchange.Forms.{exchange_form, assertion_form}
use mcp_auth_go.Exchange.{
  Reply, answered, Server, seconds64, token, cache_key, judge, step, do_from, do_request,
  redeem_assertion, record_granted, record_failure, exchange, cached, store, fetch, rejected,
  err_exchange_rejected,
}
use mcp_auth_go.Exchange.Downstream.{
  nop_get, nop_set, DownstreamTokenProvider, ProvideRequest, provider_granted, provider_failure,
  id_jag_request, provider_key, provider_cached, provider_store, redeem, mint, provide,
}
use mcp_auth_go.Exchange.Downstream.Construct.{
  DownstreamConfig, new_exchanger, connect_legs, new_downstream_provider,
}
use mcp_auth_go.Exchange.Downstream.Setup.{new_downstream_provider-audit}
use mcp_auth_go.Exchange.Downstream.Events.{Observed}

downstream_code : Unit {0}
unfolding exchange_form assertion_form seconds64 token fields fields_from str_leb insert_sorted
    sort_strings cache_key judge step do_from do_request redeem_assertion record_granted
    record_failure exchange cached store fetch rejected err_exchange_rejected nop_get nop_set
    new_exchanger connect_legs new_downstream_provider provider_granted provider_failure
    id_jag_request provider_key provider_cached provider_store redeem mint provide get set is_fresh
    lookup insert is_error is_cause ◌==◌ ◌+ℤ◌ ◌-ℤ◌
downstream_code = tt

abbrev reply : Str → Str → Reply
reply access err = answered (if is_empty err then 200 else 400) [] (
    ok (record {
      access_token = access;
      issued_token_type = [];
      token_type = str "Bearer";
      expires_in = pos 60;
      scope = [];
      error = err;
      error_description = [];
    }))

-- What a server gives for what it is presented, by the name of its field in the form.
abbrev presented : Option Str → Str → Reply
presented none good = reply [] (str "invalid_request")
presented (some shown) good =
    if shown == good then reply (str "for ") [] else reply [] (str "invalid_grant")

abbrev World : Type 0
World = List Event

abbrev connect : Str → Str → Server World
connect url auth w form nonce = (
  w,
  if url == str "https://idp"
      then presented (lookup (str "subject_token") form) (str "ann's")
      else presented (lookup (str "assertion") form) (str "for "),
)

abbrev config : DownstreamConfig Str World
config = record {
  idp = record { token_url = str "https://idp"; client_auth = some (str "a") };
  resource_as = record { token_url = str "https://as"; client_auth = some (str "b") };
  audience = str "https://as";
  resource = [];
  scope = str "read" ∷ [];
  subject_token_type = [];
  audit = some (λ w e. e ∷ w);
}

abbrev p : DownstreamTokenProvider World
p = record {
  idp = record { server = connect (str "https://idp") (str "a"); audit = none };
  resource_as = record { server = connect (str "https://as") (str "b"); audit = none };
  audience = str "https://as";
  resource = [];
  subject_token_type = str "urn:ietf:params:oauth:token-type:id_token";
  scope = str "read" ∷ [];
  audit = some (λ w e. e ∷ w);
}

abbrev request : Str → ProvideRequest
request assertion = record { subject_assertion = assertion; subject = str "ann" }

made : new_downstream_provider connect config ≡ ok p
unfolding downstream_code
made = refl

new_downstream_provider-audit_sample : p.idp.audit ≡ none
new_downstream_provider-audit_sample = new_downstream_provider-audit connect config p made

provides :
    (provide memory_cache p [] none (request (str "ann's")) (pos 0) (pos 0)).2
    ≡ ok (record {
      access_token = str "for ";
      issued_token_type = [];
      token_type = str "Bearer";
      expires_at = some (pos 60000000000);
      scopes = [];
    })
unfolding downstream_code
provides = refl

abbrev seen : Observed p
seen = record {
  events = λ w. w;
  first_adds_none = λ w form nonce. refl;
  second_adds_none = λ w form nonce. refl;
  recorded = λ w e. refl;
}
