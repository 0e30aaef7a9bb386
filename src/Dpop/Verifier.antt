-- ===== src/Dpop/Verifier.antt =====
-- dpop/verifier.go and dpop/proof.go: the checks of a proof, and the enforcement of the mode.
-- `Jws` stands for jwx, SHA-256, base64url, `encoding/json` and `net/url`, as parameters. The instant
-- that the replay cache reads from its own clock is an argument beside the verifier's.
pub mod Algorithms
pub mod Checks
pub mod Refusals
pub mod Enforcement
pub mod Answers
pub mod Replay
mod Tests
use mcp_auth_go.Prelude.{
  zero, Str, String, str, ◌==◌, is_empty, is_nil, Bool, true, false, ◌||◌, not, Option, none, some,
  List, [], ◌∷◌, GoMap, lookup, insert, is_some, Time, Duration, ℤ, pos, ◌+ℤ◌, ◌-ℤ◌, ltb_ℤ, before,
  after, unix, second, if◌then◌else◌,
}
use mcp_auth_go.Core.Errors.{
  GoError, new_error, reject, Result, ok, fail, ◌>>=◌, ◌>>◌, fail_if, err_invalid_dpop_proof,
  err_use_dpop_nonce,
}
use mcp_auth_go.Dpop.Replay.{ReplayCache}
use mcp_auth_go.Dpop.Nonce.{NonceSource}

pub data Mode : Type 0 where
  opportunistic require : Mode

-- `url.URL`, with what `stripURL` clears apart from the rest.
pub record Url : Type 0 where
  pub raw_query : Str
  pub fragment : Str
  pub base : Str

-- `proofClaims`.
pub record ProofClaims : Type 0 where
  pub jti : Str
  pub htm : Str
  pub htu : Str
  pub iat : ℤ
  pub ath : Str
  pub nonce : Str

pub record Jws : Type 1 where
  pub Key : Type 0
  pub Message : Type 0
  pub parse : Str → Option Message
  -- The protected headers of each signature: type, algorithm, embedded key.
  pub signatures : Message → List (Str × Str × Option Key)
  pub payload : Message → Str
  -- `jwk.IsPrivateKey`, with `none` for its error.
  pub is_private_key : Key → Option Bool
  -- `jws.Verify(proof, jws.WithKey(alg, key))` returns no error.
  pub verify : Str → Str → Key → Bool
  pub thumbprint : Key → Option Str
  pub unmarshal : Str → Option ProofClaims
  pub sha256 : Str → Str
  pub base64 : Str → Str
  pub parse_url : Str → Option Url
  pub url_string : Url → Str

abbrev pub default_iat_leeway : Duration
default_iat_leeway = pos 60000000000

abbrev pub default_algs : List Str
default_algs =
    str "ES256"
    ∷ str "ES384"
    ∷ str "ES512"
    ∷ str "PS256"
    ∷ str "PS384"
    ∷ str "PS512"
    ∷ str "EdDSA"
    ∷ []

pub record Config : Type 0 where
  pub mode : Mode
  pub iat_leeway : Duration
  pub alg_allow : List Str
  pub nonce : Option NonceSource

-- `Verifier`, without its clock and with its replay cache apart, as state.
pub record Verifier : Type 0 where
  pub mode : Mode
  pub iat_leeway : Duration
  pub alg_allow : GoMap (Unit {0})
  pub nonce : Option NonceSource

unfoldable pub never_permitted : Str → Bool
never_permitted a = a == str "none" || a == str "HS256" || a == str "HS384" || a == str "HS512"

unfoldable pub alg_set : List Str → GoMap (Unit {0}) → GoMap (Unit {0})
alg_set [] set = set
alg_set (a ∷ algs) set = alg_set algs (if never_permitted a then set else insert a tt set)

unfoldable pub new_verifier : Config → Verifier
new_verifier cfg = record {
  mode = cfg.mode;
  iat_leeway = if ltb_ℤ cfg.iat_leeway (pos second) then default_iat_leeway else cfg.iat_leeway;
  alg_allow = alg_set (if is_nil cfg.alg_allow then default_algs else cfg.alg_allow) [];
  nonce = cfg.nonce;
}

unfoldable pub alg_allowed : Verifier → Str → Bool
alg_allowed v a = is_some (lookup a v.alg_allow)

pub record Input : Type 0 where
  pub proofs : List Str
  pub method : Str
  pub url : Str
  pub access_token : Str
  pub bound_jkt : Str

abbrev pub bad_proof : String → GoError
bad_proof reason = reject err_invalid_dpop_proof (new_error reason)

abbrev pub bad_nonce : GoError
bad_nonce = reject err_use_dpop_nonce (new_error "dpop proof missing or stale nonce")

-- `x, err := o; if err != nil { return reject(reason) }`.
abbrev pub required {ℓ} : {A : Type ℓ} → Option A → String → Result A
required none reason = fail (bad_proof reason)
required (some a) reason = ok a

abbrev the_signature {ℓ} : {A : Type ℓ} → List A → Option A
the_signature (s ∷ []) = some s
the_signature _ = none

-- `iat==0` means that the claim is absent.
abbrev is_zero : ℤ → Bool
is_zero (pos zero) = true
is_zero _ = false

-- `priv || perr != nil`.
abbrev not_public : Option Bool → Bool
not_public (some false) = false
not_public _ = true

abbrev pub nonce_missing : Option NonceSource → Str → Time → Bool
nonce_missing none nonce now = false
nonce_missing (some source) nonce now = is_empty nonce || not (source.validate nonce now)

module _ (j : Jws) where
  unfoldable pub ath : Str → Str
  ath access_token = j.base64 (j.sha256 access_token)

  unfoldable pub strip_url : Str → Str
  strip_url raw = elim (j.parse_url raw) [
    | none ↦ raw
    | some u ↦ j.url_string (record u { raw_query = []; fragment = [] })
  ]

  -- The part of `checkProof` up to the verified payload.
  unfoldable pub verified_claims : Verifier → Str → Result (ProofClaims × j.Key)
  verified_claims v proof = do
    msg ← required (j.parse proof) "malformed dpop proof"
    (typ, alg, jwk) ←
        required (the_signature (j.signatures msg)) "dpop proof must carry exactly one signature"
    fail_if (not (typ == str "dpop+jwt")) (bad_proof "dpop proof typ is not dpop+jwt")
    fail_if (not (alg_allowed v alg)) (bad_proof "dpop proof alg not allowed")
    key ← required jwk "dpop proof missing embedded jwk"
    fail_if (not_public (j.is_private_key key)) (bad_proof "dpop proof jwk must be a public key")
    fail_if (not (j.verify proof alg key)) (bad_proof "dpop proof signature invalid")
    c ← required (j.unmarshal (j.payload msg)) "dpop proof payload invalid"
    ok (c, key)

  -- The part behind it, up to the binding to the token.
  unfoldable pub bound_claims : Verifier → Input → Time → ProofClaims → j.Key → Result (Unit {0})
  bound_claims v inp now c key = do
    let iat = unix c.iat
    fail_if (is_empty c.jti || is_empty c.htm || is_empty c.htu || is_zero c.iat || is_empty c.ath)
        (bad_proof "dpop proof missing a required claim")
    fail_if (not (c.htm == inp.method)) (bad_proof "dpop htm mismatch")
    fail_if (not (strip_url c.htu == strip_url inp.url)) (bad_proof "dpop htu mismatch")
    fail_if (before iat (now -ℤ v.iat_leeway) || after iat (now +ℤ v.iat_leeway))
        (bad_proof "dpop iat outside acceptable window")
    fail_if (not (c.ath == ath inp.access_token)) (bad_proof "dpop ath mismatch")
    tp ← required (j.thumbprint key) "dpop thumbprint error"
    fail_if (not (j.base64 tp == inp.bound_jkt)) (bad_proof "dpop key does not match token binding")

  -- All checks but the replay check.
  unfoldable pub checked : Verifier → Str → Input → Time → Result ProofClaims
  checked v proof inp now = do
    (c, key) ← verified_claims v proof
    bound_claims v inp now c key
    fail_if (nonce_missing v.nonce c.nonce now) bad_nonce
    ok c

  module _ (r : ReplayCache) where
    -- The replay check, which comes last.
    unfoldable pub replay_check :
        Verifier → r.State → Time → Result ProofClaims → r.State × Option GoError
    replay_check v st clock (fail e) = (st, some e)
    replay_check v st clock (ok c) =
        let (st', seen) =
          r.seen_before st clock c.jti (strip_url c.htu) (unix c.iat +ℤ v.iat_leeway) in
        (st', if seen then some (bad_proof "dpop proof replayed") else none)

    unfoldable pub check_proof :
        Verifier → r.State → Str → Input → Time → Time → r.State × Option GoError
    check_proof v st proof inp now clock = replay_check v st clock (checked v proof inp now)

    unfoldable pub enforce : Verifier → r.State → Input → Time → Time → r.State × Option GoError
    enforce v st inp now clock =
        if not (is_empty inp.bound_jkt)
        then elim inp.proofs [
          | [] ↦ (st, some (bad_proof "bound token presented without a dpop proof"))
          | proof ∷ more ↦
              if is_nil more
              then check_proof v st proof inp now clock
              else (st, some (bad_proof "more than one dpop proof header"))
        ]
        else elim v.mode [
          | require ↦ (st, some (bad_proof "dpop binding required but token is unbound"))
          | opportunistic ↦ (st, none)
        ]

-- `IssueNonce` and `NonceConfigured`.
unfoldable pub issue_nonce : Verifier → Time → Str
issue_nonce v now = elim v.nonce [ none ↦ [] | some source ↦ source.issue now ]

unfoldable pub nonce_configured : Verifier → Bool
nonce_configured v = is_some v.nonce
