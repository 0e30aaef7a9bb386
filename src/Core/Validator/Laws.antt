-- ===== src/Core/Validator/Laws.antt =====
-- validator.go: which tokens a single-issuer validator accepts, and how it classifies the rest.
use mcp_auth_go.Prelude.{
  Str, str, is_empty, is_empty_iff, false, none, some, List, [], ◌∷◌, if◌then◌else◌, ◌≡◌, refl, ◌↔◌,
  ◌≢◌, ◌⊎◌, inl, inr, All, arith, ◌≤ℤ◌, ◌<ℤ◌, pos, second, ◌*◌,
}
use mcp_auth_go.Core.Errors.{
  GoError, wrapf, to_error, reject, Result, ok, fail, fail_if, check, err_missing_token,
  err_invalid_token, err_expired_token,
}
use mcp_auth_go.Core.Errors.Laws.{>>=-eq-ok, check-eq-ok, fail_if-eq-ok, Result-cases}
use mcp_auth_go.Core.Claims.{Token, Claims, claims_from_token}
use mcp_auth_go.Core.Context.{Ctx}
use mcp_auth_go.Core.Policy.{ClaimVerifier}
use mcp_auth_go.Core.Validator.{
  Jwx, ValidatorConfig, Validator, with_defaults, run_verifiers, new_validator, key_set, parsed,
  validate,
}

run_verifiers_iff :
    (verifiers : List ClaimVerifier) (ctx : Ctx) (tok : Token)
    → (run_verifiers verifiers ctx tok ≡ none) ↔ All (λ verify. verify ctx tok ≡ none) verifiers
unfolding run_verifiers
run_verifiers_iff [] ctx tok = ground arith
run_verifiers_iff (verify ∷ rest) ctx tok = ground (arith, run_verifiers_iff rest ctx tok)

-- Some verifier denies with `e`, behind verifiers that allow.
abbrev pub VerifierDenies : Ctx → Token → GoError → List ClaimVerifier → Type 0
VerifierDenies ctx tok e [] = ⊥
VerifierDenies ctx tok e (verify ∷ rest) =
    (verify ctx tok ≡ some e) ⊎ ((verify ctx tok ≡ none) × VerifierDenies ctx tok e rest)

run_verifiers-denies :
    (verifiers : List ClaimVerifier) (ctx : Ctx) (tok : Token) (e : GoError)
    → run_verifiers verifiers ctx tok ≡ some e
    → VerifierDenies ctx tok e verifiers
unfolding run_verifiers
run_verifiers-denies [] ctx tok e h = cc
run_verifiers-denies (verify ∷ rest) ctx tok e h =
    ground (arith, run_verifiers-denies rest ctx tok e)

filled : (s : Str) → is_empty s ≡ false → s ≢ []
filled [] h = cc
filled (c ∷ s) h = λ e. cc

-- What `NewValidator` stores.
built :
    (cfg : ValidatorConfig) (v : Validator)
    → v.cfg ≡ with_defaults cfg
    → (v.cfg.jwks_url ≡ cfg.jwks_url)
      × (v.cfg.issuer ≡ cfg.issuer)
      × (v.cfg.audience ≡ cfg.audience)
      × (v.cfg.verifiers ≡ cfg.verifiers)
      × (pos 0 <ℤ v.cfg.clock_skew)
      × (pos (60 * second) ≤ℤ v.cfg.min_refresh_interval)
unfolding with_defaults
built cfg v h = rw h (refl, refl, refl, refl, ground arith, ground arith)

module _ (j : Jwx) where
  -- What stands behind the claims of an accepted bearer: a key set that was served, a token that
  -- parsed under the configured issuer, audience and skew, and verifiers that all allowed it.
  pub record IsAccepted (v : Validator) (ctx : Ctx) (bearer : Str) (c : Claims) : Type 1 where
    pub set : j.KeySet
    pub tok : Token
    pub present : bearer ≢ []
    pub served : j.get ctx v.cfg.jwks_url ≡ ok set
    pub verified : j.parse bearer set v.cfg.issuer v.cfg.audience v.cfg.clock_skew ≡ ok tok
    pub allowed : All (λ verify. verify ctx tok ≡ none) v.cfg.verifiers
    pub extracted : c ≡ claims_from_token tok

  key_set-eq-ok : (r : Result j.KeySet) (set : j.KeySet) → key_set j r ≡ ok set → r ≡ ok set
  unfolding key_set
  key_set-eq-ok (ok s) set h = h
  key_set-eq-ok (fail e) set h = cc

  parsed-eq-ok : (r : Result Token) (tok : Token) → parsed j r ≡ ok tok → r ≡ ok tok
  unfolding parsed
  parsed-eq-ok (ok s) tok h = h
  parsed-eq-ok (fail e) tok h = cc

  validate-IsAccepted :
      (v : Validator) (ctx : Ctx) (bearer : Str) (c : Claims)
      → validate j v ctx bearer ≡ ok c
      → IsAccepted v ctx bearer c
  unfolding validate key_set parsed
  validate-IsAccepted v ctx bearer c h =
      let (_, filled, h1) = >>=-eq-ok (fail_if (is_empty bearer) _) _ h in
      let (set, served, h2) = >>=-eq-ok (key_set j (j.get ctx v.cfg.jwks_url)) _ h1 in
      let (tok, verified, h3) = >>=-eq-ok (parsed j (j.parse bearer set _ _ _)) _ h2 in
      let (_, allowed, h4) = >>=-eq-ok (check (run_verifiers v.cfg.verifiers ctx tok)) _ h3 in
      record {
        set = set;
        tok = tok;
        present = λ e. ground (arith, is_empty_iff bearer);
        served = key_set-eq-ok (j.get ctx v.cfg.jwks_url) set served;
        verified = parsed-eq-ok (j.parse bearer set _ _ _) tok verified;
        allowed = (run_verifiers_iff v.cfg.verifiers ctx tok).0 (check-eq-ok _ _ allowed);
        extracted = ground arith;
      }

  IsAccepted-validate :
      (v : Validator) (ctx : Ctx) (bearer : Str) (c : Claims)
      → IsAccepted v ctx bearer c
      → validate j v ctx bearer ≡ ok c
  unfolding validate key_set parsed
  IsAccepted-validate v ctx bearer c a =
      ground (arith, is_empty_iff bearer, run_verifiers_iff v.cfg.verifiers ctx a.tok)

  -- The four ways to refuse a bearer, with the error of each.
  pub data Refused (v : Validator) (ctx : Ctx) (bearer : Str) (e : GoError) : Type 0 where
    absent : bearer ≡ [] → e ≡ to_error err_missing_token → Refused v ctx bearer e
    unserved :
        (d : GoError)
        → j.get ctx v.cfg.jwks_url ≡ fail d
        → e ≡ reject err_invalid_token (wrapf (str "jwks unavailable: %w") [] d)
        → Refused v ctx bearer e
    invalid :
        (set : j.KeySet) (d : GoError)
        → j.get ctx v.cfg.jwks_url ≡ ok set
        → j.parse bearer set v.cfg.issuer v.cfg.audience v.cfg.clock_skew ≡ fail d
        → e ≡ reject (if j.is_expired d then err_expired_token else err_invalid_token) d
        → Refused v ctx bearer e
    denied :
        (set : j.KeySet) (tok : Token)
        → j.get ctx v.cfg.jwks_url ≡ ok set
        → j.parse bearer set v.cfg.issuer v.cfg.audience v.cfg.clock_skew ≡ ok tok
        → VerifierDenies ctx tok e v.cfg.verifiers
        → Refused v ctx bearer e

  validate-Refused :
      (v : Validator) (ctx : Ctx) (bearer : Str) (e : GoError)
      → validate j v ctx bearer ≡ fail e
      → Refused v ctx bearer e
  unfolding validate key_set parsed
  validate-Refused v ctx [] e h = absent refl (ground arith)
  validate-Refused v ctx (b ∷ bearer) e h = elim (Result-cases (j.get ctx v.cfg.jwks_url)) [
    | inr (d, got) ↦ unserved d got (ground arith)
    | inl (set, got) ↦
        elim (Result-cases
          (j.parse (b ∷ bearer) set v.cfg.issuer v.cfg.audience v.cfg.clock_skew)) [
            | inr (d, read) ↦ invalid set d got read (ground arith)
            | inl (tok, read) ↦
                denied set tok got read
                  (run_verifiers-denies v.cfg.verifiers ctx tok e (ground arith))
          ]
  ]

  -- A bearer is accepted with claims `c` exactly when it is not empty, the issuer's key set is
  -- served, it parses under the configured issuer, audience and skew, every verifier allows the
  -- token, and `c` is extracted from it. It is refused as missing, as invalid where no key set is
  -- served, as expired or invalid where it does not parse, or with the error of the first verifier
  -- that denies, and in no other way.
  pub validate_lem :
      (v : Validator) (ctx : Ctx) (bearer : Str)
      → ((c : Claims) → (validate j v ctx bearer ≡ ok c) ↔ IsAccepted v ctx bearer c)
        × ((e : GoError) → validate j v ctx bearer ≡ fail e → Refused v ctx bearer e)
  validate_lem v ctx bearer = (
    λ c. (validate-IsAccepted v ctx bearer c, IsAccepted-validate v ctx bearer c),
    validate-Refused v ctx bearer,
  )

  -- A validator that was built keeps the configured URL, issuer, audience and verifiers, the first
  -- three not empty; its skew is positive and its refresh interval a minute at least.
  pub new_validator-bounds :
      (cfg : ValidatorConfig) (v : Validator)
      → new_validator j cfg ≡ ok v
      → (v.cfg.jwks_url ≡ cfg.jwks_url)
        × (cfg.jwks_url ≢ [])
        × (v.cfg.issuer ≡ cfg.issuer)
        × (cfg.issuer ≢ [])
        × (v.cfg.audience ≡ cfg.audience)
        × (cfg.audience ≢ [])
        × (v.cfg.verifiers ≡ cfg.verifiers)
        × (pos 0 <ℤ v.cfg.clock_skew)
        × (pos (60 * second) ≤ℤ v.cfg.min_refresh_interval)
  unfolding new_validator
  new_validator-bounds cfg v h =
      let (_, u, h1) = >>=-eq-ok (fail_if (is_empty cfg.jwks_url) _) _ h in
      let (_, i, h2) = >>=-eq-ok (fail_if (is_empty cfg.issuer) _) _ h1 in
      let (_, a, h3) = >>=-eq-ok (fail_if (is_empty cfg.audience) _) _ h2 in
      let same = built cfg v (ground arith) in
      (
        same.0,
        filled cfg.jwks_url (fail_if-eq-ok _ _ _ u),
        same.1,
        filled cfg.issuer (fail_if-eq-ok _ _ _ i),
        same.2,
        filled cfg.audience (fail_if-eq-ok _ _ _ a),
        same.3,
        same.4,
        same.5,
      )
