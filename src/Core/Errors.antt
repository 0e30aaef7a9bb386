-- ===== src/Core/Errors.antt =====
-- errors.go: the structured error of the library, its sentinels, `With` and `Is`.
-- The `error` interface is a data type with a constructor for each kind of error value that the
-- program makes. An error made by `errors.New` or `fmt.Errorf` is its format with its arguments.
pub mod Laws
use mcp_auth_go.Prelude.{
  ℕ, Str, String, str, ◌==◌, Bool, true, false, ◌||◌, Option, none, some, List, [],
}

-- An argument of a format.
pub data Arg : Type 0 where
  str_arg : Str → Arg
  list_arg : List Str → Arg
  int_arg : ℕ → Arg

mutual
  pub data GoError : Type 0 where
    errorf : Str → List Arg → GoError
    wrapf : Str → List Arg → GoError → GoError
    auth_error : Str → Str → Str → ℕ → Cause → GoError
    verifier_error : Str → GoError

  pub data Cause : Type 0 where
    nil : Cause
    cause : GoError → Cause

-- `Error`.
pub record AuthError : Type 0 where
  pub code : Str
  pub message : Str
  pub doc_url : Str
  pub http_status : ℕ
  pub cause : Cause

-- A `*Error` as an `error`.
abbrev pub to_error : AuthError → GoError
to_error e = auth_error e.code e.message e.doc_url e.http_status e.cause

-- `errors.New(text)`.
abbrev pub new_error : String → GoError
new_error text = errorf (str text) []

-- A function's results `(value, error)`, of which one is nil.
pub data Result {ℓ} (A : Type ℓ) : Type ℓ where
  ok : A → Result A
  fail : GoError → Result A

-- `x, err := r; if err != nil { return nil, err }`, and then the rest.
infixl 5 ◌>>=◌
abbrev pub ◌>>=◌ {ℓ κ} : {S : Type ℓ} {T : Type κ} (r : Result S) → ((x : S) → Result T) → Result T
fail e >>= rest = fail e
ok x >>= rest = rest x

-- The same, where the step has no result but the error.
infixl 5 ◌>>◌
abbrev pub ◌>>◌ {ℓ} : {T : Type ℓ} (r : Result (Unit {0})) (rest : Result T) → Result T
r >> rest = r >>= (λ done. rest)

-- `if test { return nil, err }`.
abbrev pub fail_if : Bool → GoError → Result (Unit {0})
fail_if true e = fail e
fail_if false e = ok tt

-- `if err != nil { return nil, err }`.
abbrev pub check : Option GoError → Result (Unit {0})
check none = ok tt
check (some e) = fail e

-- A loop that returns the first error that is not nil.
abbrev pub first_error : Option GoError → Option GoError → Option GoError
first_error none rest = rest
first_error (some e) rest = some e

-- `e.With(cause)`.
abbrev pub with_cause : AuthError → GoError → AuthError
with_cause e c = record e { cause = cause c }

-- `sentinel.With(cause)` where an `error` is returned.
abbrev pub reject : AuthError → GoError → GoError
reject e c = to_error (with_cause e c)

-- `errors.As(err, &t)` at `t : *Error`: the first `*Error` of the chain.
unfoldable pub as_auth_error : GoError → Option AuthError
as_auth_error (errorf f a) = none
as_auth_error (wrapf f a e) = as_auth_error e
as_auth_error (auth_error c m d s k) =
    some (record { code = c; message = m; doc_url = d; http_status = s; cause = k })
as_auth_error (verifier_error m) = none

-- `errors.Is(err, target)` at a `*Error`: some error of the chain `Is` the target, which a
-- `*Error` is by its code.
unfoldable mutual
  pub is_error : AuthError → GoError → Bool
  is_error t (errorf f a) = false
  is_error t (wrapf f a e) = is_error t e
  is_error t (auth_error c m d s k) = c == t.code || is_cause t k
  is_error t (verifier_error m) = false

  pub is_cause : AuthError → Cause → Bool
  is_cause t nil = false
  is_cause t (cause e) = is_error t e

abbrev sentinel : String → String → ℕ → AuthError
sentinel code message status = record {
  code = str code;
  message = str message;
  doc_url = [];
  http_status = status;
  cause = nil;
}

unfoldable pub err_invalid_token : AuthError
err_invalid_token = sentinel "invalid_token" "The bearer token could not be validated." 401

unfoldable pub err_expired_token : AuthError
err_expired_token =
    sentinel "expired_token" "The bearer token has expired. Re-authenticate with the issuer." 401

unfoldable pub err_missing_token : AuthError
err_missing_token = sentinel "missing_token" "Authorization: Bearer <token> is required." 401

unfoldable pub err_forbidden : AuthError
err_forbidden = sentinel "forbidden" "The token is valid but not authorized for this resource." 403

unfoldable pub err_insufficient_scope : AuthError
err_insufficient_scope =
    sentinel "insufficient_scope" "The token is missing a required scope for this resource." 403

unfoldable pub err_session_limit_exceeded : AuthError
err_session_limit_exceeded =
    sentinel "session_limit_exceeded"
      "Too many concurrent sessions for this user. Close an existing session and retry." 429

unfoldable pub err_rate_limit_exceeded : AuthError
err_rate_limit_exceeded =
    sentinel "rate_limit_exceeded"
      "Per-user rate limit exceeded. Wait and retry; see Retry-After header for cooldown." 429

unfoldable pub err_invalid_dpop_proof : AuthError
err_invalid_dpop_proof = sentinel "invalid_dpop_proof" "The DPoP proof is missing or invalid." 401

unfoldable pub err_use_dpop_nonce : AuthError
err_use_dpop_nonce =
    sentinel "use_dpop_nonce" "A DPoP nonce is required; retry with the provided DPoP-Nonce." 401
