-- ===== src/Introspection/Tests.antt =====
-- introspection: the theorems at an endpoint that knows one token. The world counts its requests.
mod Requests
use mcp_auth_go.Prelude.{
  ℕ, suc, Str, str, ◌==◌, ne_of_test, Bool, true, false, Option, none, some, [], ◌∷◌, lookup,
  insert, pos, unix, ◌+ℤ◌, ◌-ℤ◌, before, ◌≡◌, refl, inl, inr, arith,
}
use mcp_auth_go.Core.Errors.{ok, fail, new_error, reject, err_invalid_token}
use mcp_auth_go.Core.Claims.{Claims}
use mcp_auth_go.Exchange.Strings.{fields, fields_from}
use mcp_auth_go.Introspection.Response.{
  null, text, array, end, item, other, Body, IntrospectionResponse, as_string, as_strings,
  unmarshal_aud, aud_of, response, audience_contains, extracted_keys, skips, capture, capture_all,
  zero_time, unix64, instant, claims_of, lookup-capture_all,
}
use mcp_auth_go.Introspection.ClientAuth.{form_post}
use mcp_auth_go.Introspection.Cache.{
  MemoryCache, memory_cache, new_memory_cache, is_fresh, get, set,
}
use mcp_auth_go.Introspection.Answers.{Answered, Passes}
use mcp_auth_go.Introspection.Verdicts.{introspect_iff}
use mcp_auth_go.Introspection.Refusals.{Refused, introspect-Refused}
use mcp_auth_go.Introspection.Entries.{new_cache}
use mcp_auth_go.Introspection.Trust.{Call, run, Granted, introspect-Granted}
use mcp_auth_go.Introspection.Caching.{stored, forget, introspect-introspect}
use mcp_auth_go.Introspection.{
  Reply, answered, HttpClient, Validator, token_form, decode, read_reply, blank_request, post,
  do_introspect, verdict, look, keep_verdict, conclude, ask, introspect,
}
use mcp_auth_go.Introspection.Construct.{
  Net, Config, is_loopback_host, check_url, with_defaults, new_introspection_validator,
}

introspection_code : Unit {0}
unfolding fields fields_from as_string as_strings unmarshal_aud aud_of response audience_contains
    extracted_keys skips capture capture_all zero_time unix64 instant claims_of form_post
    new_memory_cache is_fresh get set is_loopback_host check_url with_defaults
    new_introspection_validator token_form decode read_reply blank_request post do_introspect
    verdict look keep_verdict conclude ask introspect run Granted lookup insert ◌==◌ ◌+ℤ◌ ◌-ℤ◌ unix
introspection_code = tt

abbrev body : Bool → Body
body active = record {
  active = active;
  scope = str "read write";
  sub = str "ann";
  iss = str "https://as";
  aud = some (array (item (text (str "web")) (item (text (str "api")) end)));
  aud_error = new_error "array";
  exp = pos 100;
  iat = pos 0;
  email = [];
  jkt = [];
  members =
      some
        ((str "team", text (str "blue")) ∷ (str "none", null) ∷ (str "sub", text (str "x")) ∷ []);
}

abbrev reply : Option Str → Reply
reply none = answered 400 (ok (body false))
reply (some token) = answered 200 (ok (body (token == str "tok")))

abbrev client : HttpClient ℕ
client = record {
  new_request = λ url. none;
  send = λ w req. (suc w, reply (lookup (str "token") req.form));
}

abbrev config : Config ℕ
config = record {
  introspection_url = str "https://as/i";
  client_auth = some (form_post (record { client_id = str "rs"; client_secret = str "pw" }));
  issuer = str "https://as";
  audience = str "api";
  token_type_hint = [];
  http_client = client;
  clock_skew = pos 0;
}

abbrev net : Net
net = record {
  Url = Str;
  Ip = Str;
  parse = λ raw. ok raw;
  scheme = λ u. str "https";
  hostname = λ u. str "as";
  parse_ip = λ h. none;
  is_loopback = λ i. false;
}

abbrev v : Validator ℕ
unfolding introspection_code
v = with_defaults config (form_post (record { client_id = str "rs"; client_secret = str "pw" }))

abbrev digest : Str → Str
digest s = b'#' ∷ s

abbrev resp : IntrospectionResponse
resp = record {
  active = true;
  scope = str "read write";
  sub = str "ann";
  iss = str "https://as";
  aud = str "web" ∷ str "api" ∷ [];
  exp = pos 100;
  iat = pos 0;
  email = [];
  jkt = [];
}

abbrev claims : Claims
claims = claims_of resp (body true).members

abbrev cache : MemoryCache
unfolding introspection_code
cache = new_memory_cache (pos 10000000000)

tok_answer : Answered v 0 (token_form (str "tok") v.hint) resp (body true)
unfolding introspection_code
tok_answer = (refl, (_, refl, refl), refl)

passes : Passes v resp (pos 1)
unfolding introspection_code
passes = (refl, refl, inr (inl refl), inr (omega arith))

introspect_iff_example :
    (introspect memory_cache digest v 0 none (str "tok") (pos 1) (pos 1)).2 ≡ ok claims
unfolding introspection_code
introspect_iff_example =
    (introspect_iff memory_cache digest v 0 none (str "tok") (pos 1) (pos 1) claims refl).1
      (ne_of_test _ _ refl, (resp, body true, tok_answer, passes, refl))

introspect-Refused_example :
    Refused v 0 (str "old") (pos 1) (reject err_invalid_token (new_error "token inactive"))
unfolding introspection_code
introspect-Refused_example =
    (introspect-Refused memory_cache digest v 0 none (str "old") (pos 1) (pos 1)
      (reject err_invalid_token (new_error "token inactive")) refl).0

abbrev call : Call
call = record { bearer = str "tok"; now = pos 1; clock = pos 1 }

served :
    (introspect memory_cache digest v 1
      (run digest v 0 (new_cache (some (pos 10))) (call ∷ [])).1
      (str "tok")
      (pos 1)
      (pos 1)).2
    ≡ ok claims
unfolding introspection_code
served = refl

introspect-Granted_example : claims.issuer ≡ v.issuer
unfolding introspection_code
introspect-Granted_example =
    (introspect-Granted digest v 0 (some (pos 10)) (call ∷ []) call claims served).2

introspect-introspect_example :
    introspect memory_cache digest v 7
      (introspect memory_cache digest v 0 (some cache) (str "tok") (pos 1) (pos 1)).1
      (str "tok")
      (pos 2)
      (pos 90000000000)
    ≡ ask memory_cache digest v 7
        (some
          (forget digest (stored digest cache (pos 1) (str "tok") resp (body true)) (str "tok")))
        (str "tok")
        (pos 2)
unfolding introspection_code
introspect-introspect_example =
    (introspect-introspect digest v 0 7 cache (str "tok") (pos 1) (pos 1) (pos 2) (pos 90000000000)
      resp (body true) (ne_of_test _ _ refl) refl tok_answer passes refl).2

lookup-capture_all_sample :
    lookup (str "none") (capture_all ((str "team", text (str "blue")) ∷ (str "none", null) ∷ []) [])
    ≡ some []
unfolding introspection_code
lookup-capture_all_sample =
    lookup-capture_all (str "none") ((str "team", text (str "blue")) ∷ (str "none", null) ∷ []) []
      (refl, (refl, tt))

aud_is_null : unmarshal_aud (new_error "array") null ≡ ok []
unfolding introspection_code
aud_is_null = refl

aud_with_number :
    unmarshal_aud (new_error "array") (array (item other end)) ≡ fail (new_error "array")
unfolding introspection_code
aud_with_number = refl

never_expires : before (unix64 (pos 9223372036854775807)) (pos 0) ≡ true
unfolding introspection_code
never_expires = refl
