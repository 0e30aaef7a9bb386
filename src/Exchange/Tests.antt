-- ===== src/Exchange/Tests.antt =====
-- exchange: the theorems at a server that asks for a nonce once. The world counts the attempts.
use mathlib.Core.List.{Perm}
use mathlib.Core.List.Perm
use mcp_auth_go.Exchange.Keys.{cache_key-Perm}
use mcp_auth_go.Prelude.{
  ℕ, suc, Str, str, ◌==◌, ne_of_test, is_empty, none, some, [], ◌∷◌, pos, ◌+ℤ◌, ◌-ℤ◌, ◌≡◌, refl,
  lookup, insert, arith, if◌then◌else◌,
}
use mcp_auth_go.Core.Errors.{ok}
use mcp_auth_go.Exchange.Cache.{Token, MemoryCache, memory_cache, get, set, is_fresh, get-set}
use mcp_auth_go.Exchange.Strings.{fields, fields_from, str_leb, insert_sorted, sort_strings}
use mcp_auth_go.Exchange.Forms.{Request, exchange_form}
use mcp_auth_go.Exchange.{
  TokenResponse, answered, Exchanger, Server, seconds64, token, cache_key, judge, step, do_from,
  do_request, record_granted, exchange,
}
use mcp_auth_go.Exchange.Attempts.{exchange-exchange}
use mcp_auth_go.Exchange.Settled.{Answered, do_request_lem}

exchange_code : Unit {0}
unfolding exchange_form seconds64 token fields fields_from str_leb insert_sorted sort_strings
    cache_key judge step do_from do_request get set is_fresh lookup insert ◌==◌ ◌+ℤ◌ ◌-ℤ◌
exchange_code = tt

abbrev reply : Str → Str → TokenResponse
reply access err = record {
  access_token = access;
  issued_token_type = [];
  token_type = str "DPoP";
  expires_in = pos 60;
  scope = [];
  error = err;
  error_description = [];
}

abbrev server : Server ℕ
server w form nonce = (
  suc w,
  if is_empty nonce
      then answered 400 (str "n") (ok (reply [] (str "use_dpop_nonce")))
      else answered 200 [] (ok (reply (str "t2") [])),
)

abbrev x : Exchanger ℕ
x = record { server = server; audit = none }

abbrev request : Str → Request
request subject_token = record {
  subject_token = subject_token;
  subject = str "ann";
  audience = str "api";
  resource = [];
  scope = str "b" ∷ str "a" ∷ [];
  actor_token = [];
  subject_token_type = [];
  requested_token_type = [];
}

abbrev granted_token : Token
granted_token = record {
  access_token = str "t2";
  issued_token_type = [];
  token_type = str "DPoP";
  expires_at = some (pos 60000000001);
  scopes = [];
}

abbrev no_items : MemoryCache
no_items = record { leeway = pos 30000000000; items = [] }

granting : do_request x 0 (exchange_form (request (str "t1"))) (pos 1) ≡ (2, ok granted_token)
unfolding exchange_code
granting = refl

do_request_lem_example :
    Answered x 0
      (exchange_form (request (str "t1")))
      (pos 1)
      (do_request x 0 (exchange_form (request (str "t1"))) (pos 1))
do_request_lem_example = do_request_lem x 0 (exchange_form (request (str "t1"))) (pos 1)

exchange-exchange_example :
    exchange memory_cache x 2
      (exchange memory_cache x 0 no_items (request (str "t1")) (pos 1) (pos 1)).1
      (request (str "t3"))
      (pos 2)
      (pos 2)
    ≡ (
      record_granted x 2 (request (str "t3")) granted_token (pos 2),
      (exchange memory_cache x 0 no_items (request (str "t1")) (pos 1) (pos 1)).1,
      ok granted_token,
    )
unfolding exchange_code
exchange-exchange_example =
    exchange-exchange x 0 2 2 no_items (request (str "t1")) (request (str "t3")) (pos 1) (pos 1)
      (pos 2) (pos 2) granted_token (pos 60000000001) (ne_of_test _ _ refl) (ne_of_test _ _ refl)
      refl granting refl (ne_of_test _ _ refl) (ne_of_test _ _ refl) refl (omega arith)

get-set_sample :
    (get (set no_items (str "k") granted_token) (pos 5) (str "k")).1 ≡ some granted_token
unfolding exchange_code
get-set_sample =
    (get-set no_items (str "k") granted_token (pos 60000000001) (pos 5) refl).1 (omega arith)

swapped : Perm (str "b" ∷ str "a" ∷ []) (str "a" ∷ str "b" ∷ [])
swapped = Perm.swap (str "a") (str "b") []

cache_key-Perm_example :
    cache_key (request (str "t1"))
    ≡ cache_key (record (request (str "t3")) { scope = str "a" ∷ str "b" ∷ []; resource = str "r" })
cache_key-Perm_example =
    cache_key-Perm (request (str "t1"))
      (record (request (str "t3")) { scope = str "a" ∷ str "b" ∷ []; resource = str "r" }) refl refl
      refl refl swapped
