-- ===== src/Exchange/Replies.antt =====
-- exchange/exchanger.go: a response of the authorization server, and what becomes of an attempt.
use mcp_auth_go.Prelude.{
  ℕ, zero, suc, ◌*◌, ◌%◌, ◌^◌, ◌-◌, ltb, Str, str, ◌==◌, is_empty, ◌&&◌, not, none, some, [], ◌∷◌,
  ◌++◌, Time, Duration, ℤ, pos, negsuc, ◌+ℤ◌, second, eqb, leb, if◌then◌else◌,
}
use mcp_auth_go.Core.Errors.{
  GoError, AuthError, nil, reject, errorf, wrapf, int_arg, to_error, Result, ok, fail,
}
use mcp_auth_go.Exchange.Strings.{fields}
use mcp_auth_go.Exchange.Cache.{Token}

pub record TokenResponse : Type 0 where
  pub access_token : Str
  pub issued_token_type : Str
  pub token_type : Str
  pub expires_in : ℤ
  pub scope : Str
  pub error : Str
  pub error_description : Str

-- What became of an attempt: no request could be built or authenticated, none answered, or a response
-- with its status, its nonce header, and its body or the error of its decoding.
pub data Reply : Type 0 where
  unbuilt unsigned unanswered : GoError → Reply
  answered : ℕ → Str → Result TokenResponse → Reply

unfoldable pub err_exchange_rejected : AuthError
err_exchange_rejected = record {
  code = str "exchange_rejected";
  message = str "The authorization server rejected the token exchange.";
  doc_url = [];
  http_status = 502;
  cause = nil;
}

unfoldable pub err_exchange_unavailable : AuthError
err_exchange_unavailable = record {
  code = str "exchange_unavailable";
  message = str "The authorization server could not be reached for token exchange.";
  doc_url = [];
  http_status = 502;
  cause = nil;
}

unfoldable pub rejected : Str → GoError
rejected as_error = to_error (record err_exchange_rejected {
  message = str "token exchange rejected by the authorization server: " ++ as_error;
})

unfoldable pub unavailable : GoError → GoError
unavailable c = reject err_exchange_unavailable c

-- `time.Duration(n) * time.Second` for `0 < n`, which wraps around at 64 bits.
unfoldable pub seconds64 : ℕ → Duration
seconds64 n =
    let r = (n * second) % 2 ^ 64 in if ltb r (2 ^ 63) then pos r else negsuc (2 ^ 64 - 1 - r)

-- The end of an attempt: a result, or another attempt with the server's nonce.
pub data Step : Type 0 where
  done : Result Token → Step
  again : Str → Step

unfoldable pub token : TokenResponse → Time → Token
token b now = record {
  access_token = b.access_token;
  issued_token_type = b.issued_token_type;
  token_type = b.token_type;
  expires_at = elim b.expires_in [
    | pos (suc n) ↦ some (now +ℤ seconds64 (suc n))
    | pos zero ↦ none
    | negsuc _ ↦ none
  ];
  scopes = if is_empty b.scope then [] else fields b.scope;
}

-- A decoded response below 500.
unfoldable pub judge : ℕ → ℕ → Str → TokenResponse → Time → Step
judge attempt status server_nonce body now =
    if eqb status 200 && not (is_empty body.access_token)
    then done (ok (token body now))
    else if body.error == str "use_dpop_nonce" && not (is_empty server_nonce) && eqb attempt 0
    then again server_nonce
    else done (fail (rejected body.error))

-- One pass through the loop of `do`.
unfoldable pub step : ℕ → Reply → Time → Step
step attempt (unbuilt err) now = done (fail (unavailable err))
step attempt (unsigned err) now = done (fail (unavailable (wrapf (str "client auth: %w") [] err)))
step attempt (unanswered err) now = done (fail (unavailable err))
step attempt (answered status server_nonce body) now =
    if leb 500 status
    then done
        (fail (unavailable (errorf (str "authorization server returned %d") (int_arg status ∷ []))))
    else elim body [
      | fail err ↦ done (fail (unavailable (wrapf (str "decode token response: %w") [] err)))
      | ok b ↦ judge attempt status server_nonce b now
    ]
