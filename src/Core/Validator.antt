-- ===== src/Core/Validator.antt =====
-- validator.go and multivalidator.go: one issuer, and routing over a set of issuers.
-- `Jwx` stands for the library jwx: the JWKS cache, and the parser with its signature and claim
-- checks. It is a parameter of every definition.
pub mod Laws
pub mod Routing
mod Tests
use mcp_auth_go.Prelude.{
  ℕ, suc, ◌*◌, Str, str, is_empty, Bool, Option, none, some, List, [], ◌∷◌, String, GoMap, lookup,
  insert, if◌then◌else◌, Duration, pos, ltb_ℤ, positive, second, is_some, is_nil,
}
use mcp_auth_go.Core.Errors.{
  GoError, wrapf, str_arg, int_arg, errorf, new_error, to_error, reject, Result, ok, fail, ◌>>=◌,
  ◌>>◌, fail_if, check, first_error, err_missing_token, err_invalid_token, err_expired_token,
}
use mcp_auth_go.Core.Claims.{Token, Claims, claims_from_token}
use mcp_auth_go.Core.Context.{Ctx}
use mcp_auth_go.Core.Policy.{ClaimVerifier}

pub record Jwx : Type 1 where
  pub KeySet : Type 0
  -- `cache.Register(url, interval)`, `cache.Refresh(ctx, url)` and `cache.Get(ctx, url)`.
  pub register : Str → Duration → Option GoError
  pub refresh : Str → Option GoError
  pub get : Ctx → Str → Result KeySet
  -- `jwt.Parse` with a key set, an issuer, an audience and a skew, validating.
  pub parse : Str → KeySet → Str → Str → Duration → Result Token
  pub parse_insecure : Str → Result Token
  -- `errors.Is(err, jwt.ErrTokenExpired())`.
  pub is_expired : GoError → Bool

pub record ValidatorConfig : Type 0 where
  pub jwks_url : Str
  pub issuer : Str
  pub audience : Str
  pub min_refresh_interval : Duration
  pub clock_skew : Duration
  pub verifiers : List ClaimVerifier

pub record Validator : Type 0 where
  pub cfg : ValidatorConfig

pub record MultiValidator : Type 0 where
  pub by_issuer : GoMap Validator

-- The defaults of `NewValidator`.
with_defaults : ValidatorConfig → ValidatorConfig
with_defaults cfg = record cfg {
  min_refresh_interval =
      if ltb_ℤ cfg.min_refresh_interval (pos (60 * second))
      then pos (900 * second)
      else cfg.min_refresh_interval;
  clock_skew = if positive cfg.clock_skew then cfg.clock_skew else pos (30 * second);
}

abbrev wrap_error : String → Str → Option GoError → Option GoError
wrap_error text url none = none
wrap_error text url (some e) = some (wrapf (str text) (str_arg url ∷ []) e)

-- The first failure of a loop over the verifiers.
run_verifiers : List ClaimVerifier → Ctx → Token → Option GoError
run_verifiers [] ctx tok = none
run_verifiers (verify ∷ rest) ctx tok = first_error (verify ctx tok) (run_verifiers rest ctx tok)

abbrev wrap_issuer : ℕ → Str → Result Validator → Result Validator
wrap_issuer i iss (ok v) = ok v
wrap_issuer i iss (fail e) =
    fail (wrapf (str "auth: multivalidator: issuer %d (%q): %w") (int_arg i ∷ str_arg iss ∷ []) e)

module _ (j : Jwx) where
  unfoldable pub new_validator : ValidatorConfig → Result Validator
  unfolding with_defaults
  new_validator cfg = do
    fail_if (is_empty cfg.jwks_url) (new_error "auth: ValidatorConfig.JWKSURL is required")
    fail_if (is_empty cfg.issuer) (new_error "auth: ValidatorConfig.Issuer is required")
    fail_if (is_empty cfg.audience) (new_error "auth: ValidatorConfig.Audience is required")
    check (
        wrap_error "auth: register jwks %q: %w" cfg.jwks_url
          (j.register cfg.jwks_url (with_defaults cfg).min_refresh_interval))
    check (wrap_error "auth: initial jwks fetch %q: %w" cfg.jwks_url (j.refresh cfg.jwks_url))
    ok (record { cfg = with_defaults cfg })

  -- The key set, or `ErrInvalidToken`.
  key_set : Result j.KeySet → Result j.KeySet
  key_set (ok set) = ok set
  key_set (fail e) = fail (reject err_invalid_token (wrapf (str "jwks unavailable: %w") [] e))

  -- The parsed token, or the classified error.
  parsed : Result Token → Result Token
  parsed (ok tok) = ok tok
  parsed (fail e) =
      fail (reject (if j.is_expired e then err_expired_token else err_invalid_token) e)

  unfoldable pub validate : Validator → Ctx → Str → Result Claims
  unfolding key_set parsed run_verifiers
  validate v ctx bearer = do
    let cfg = v.cfg
    fail_if (is_empty bearer) (to_error err_missing_token)
    set ← key_set (j.get ctx cfg.jwks_url)
    tok ← parsed (j.parse bearer set cfg.issuer cfg.audience cfg.clock_skew)
    check (run_verifiers cfg.verifiers ctx tok)
    ok (claims_from_token tok)

  -- The loop over the issuers, `i` of which are in the map.
  add_issuers : ℕ → List ValidatorConfig → GoMap Validator → Result (GoMap Validator)
  unfolding new_validator
  add_issuers i [] by_issuer = ok by_issuer
  add_issuers i (ic ∷ rest) by_issuer = do
    fail_if (is_some (lookup ic.issuer by_issuer))
        (errorf (str "auth: multivalidator: duplicate issuer %q") (str_arg ic.issuer ∷ []))
    v ← wrap_issuer i ic.issuer (new_validator ic)
    add_issuers (suc i) rest (insert ic.issuer v by_issuer)

  unfoldable pub new_multi_validator : List ValidatorConfig → Result MultiValidator
  unfolding add_issuers
  new_multi_validator issuers = do
    fail_if (is_nil issuers) (new_error "auth: multivalidator: at least one issuer is required")
    by_issuer ← add_issuers 0 issuers []
    ok (record { by_issuer = by_issuer })

  unverified : Result Token → Result Token
  unverified (ok tok) = ok tok
  unverified (fail e) = fail (reject err_invalid_token (new_error "malformed token"))

  route : Option Validator → Ctx → Str → Result Claims
  unfolding validate
  route none ctx bearer = fail (reject err_invalid_token (new_error "issuer not configured"))
  route (some v) ctx bearer = validate v ctx bearer

  unfoldable pub validate_multi : MultiValidator → Ctx → Str → Result Claims
  unfolding unverified route
  validate_multi m ctx bearer = do
    fail_if (is_empty bearer) (to_error err_missing_token)
    tok ← unverified (j.parse_insecure bearer)
    fail_if (is_empty tok.issuer) (reject err_invalid_token (new_error "issuer claim missing"))
    route (lookup tok.issuer m.by_issuer) ctx bearer
