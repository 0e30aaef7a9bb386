-- ===== src/Core/Validator/Tests.antt =====
-- validator.go and multivalidator.go: the theorems at a sample parser that knows one token.
use mcp_auth_go.Prelude.{
  Str, str, ◌==◌, false, Option, none, List, [], ◌∷◌, lookup, insert, pos, ◌≡◌, refl, ◌<ℤ◌,
  if◌then◌else◌, All, inl, inr,
}
use mcp_auth_go.Core.Errors.{Result, ok, fail, new_error, to_error, err_missing_token}
use mcp_auth_go.Core.Claims.{Value, Token, claims_from_token}
use mcp_auth_go.Core.Context.{background}
use mcp_auth_go.Core.Policy.{require_scopes}
use mcp_auth_go.Core.Validator.{
  Jwx, ValidatorConfig, Validator, MultiValidator, with_defaults, new_validator, key_set, parsed,
  run_verifiers, validate, add_issuers, new_multi_validator, unverified, route, validate_multi,
}
use mcp_auth_go.Core.Validator.Laws.{IsAccepted, validate_lem, new_validator-bounds}
use mcp_auth_go.Core.Validator.Routing.{Serves, new_multi_validator-table, validate_multi_iff}

validator_code : Unit {0}
unfolding with_defaults new_validator key_set parsed run_verifiers validate add_issuers
    new_multi_validator unverified route validate_multi lookup insert ◌==◌ require_scopes
    claims_from_token
validator_code = tt

abbrev no_claims : Str → Option Value
no_claims k = none

abbrev ann : Token
ann = record {
  subject = str "ann";
  issuer = str "https://a";
  audience = str "mcp" ∷ [];
  expiration = pos 60;
  issued_at = pos 0;
  get = no_claims;
  private_claims = [];
}

abbrev read : Str → Result Token
read bearer = if bearer == str "t1" then ok ann else fail (new_error "bad token")

abbrev sample : Jwx
sample = record {
  KeySet = Unit {0};
  register = λ url interval. none;
  refresh = λ url. none;
  get = λ ctx url. ok tt;
  parse = λ bearer set iss aud skew.
      if iss == str "https://a" then read bearer else fail (new_error "iss not satisfied");
  parse_insecure = read;
  is_expired = λ e. false;
}

abbrev issuer : Str → ValidatorConfig
issuer iss = record {
  jwks_url = str "https://keys";
  issuer = iss;
  audience = str "mcp";
  min_refresh_interval = pos 0;
  clock_skew = pos 0;
  verifiers = require_scopes [] ∷ [];
}

abbrev issuers : List ValidatorConfig
issuers = issuer (str "https://b") ∷ issuer (str "https://a") ∷ []

abbrev one : Validator
one = record {
  cfg = record (issuer (str "https://a")) {
    min_refresh_interval = pos 900000000000;
    clock_skew = pos 30000000000;
  };
}

abbrev other : Validator
other = record {
  cfg = record (issuer (str "https://b")) {
    min_refresh_interval = pos 900000000000;
    clock_skew = pos 30000000000;
  };
}

abbrev both : MultiValidator
both = record { by_issuer = (str "https://b", other) ∷ (str "https://a", one) ∷ [] }

validation :
    (new_validator sample (issuer (str "https://a")) ≡ ok one)
    × (new_multi_validator sample issuers ≡ ok both)
    × (validate_multi sample both background (str "t1") ≡ ok (claims_from_token ann))
    × (validate sample one background [] ≡ fail (to_error err_missing_token))
unfolding validator_code
validation = (refl, refl, refl, refl)

validate_lem_example : IsAccepted sample one background (str "t1") (claims_from_token ann)
unfolding validator_code
validate_lem_example =
    ((validate_lem sample one background (str "t1")).0 (claims_from_token ann)).0 refl

new_validator-bounds_sample : pos 0 <ℤ one.cfg.clock_skew
new_validator-bounds_sample =
    (new_validator-bounds sample (issuer (str "https://a")) one validation.0).7

new_multi_validator-table_sample : All (Serves sample both.by_issuer) issuers
new_multi_validator-table_sample = (new_multi_validator-table sample issuers both validation.1).1

validate_multi_iff_example :
    validate_multi sample both background (str "t1") ≡ ok (claims_from_token ann)
unfolding validator_code
validate_multi_iff_example =
    (validate_multi_iff sample issuers both background (str "t1") (claims_from_token ann)
        validation.1).1
      (ann, refl, inr (inl (refl, (one, refl, refl))))
