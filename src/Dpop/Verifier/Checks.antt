-- ===== src/Dpop/Verifier/Checks.antt =====
-- dpop/proof.go: what the checks of a proof establish, and the errors of those that fail.
use mcp_auth_go.Prelude.{
  zero, suc, Str, String, str, ◌==◌, eq_iff, is_empty, is_empty_iff, Bool, true, false, ◌||◌, not,
  Option, none, some, List, [], ◌∷◌, Time, Duration, ℤ, pos, negsuc, ◌+ℤ◌, ◌-ℤ◌, ◌≤ℤ◌, before,
  after, unix, ◌≡◌, refl, ap, subst, ◌∙◌, ◌≢◌, ◌↔◌, arith, +ℤ_parts, -ℤ_parts, ltb_ℤ_iff,
}
use mcp_auth_go.Core.Errors.{GoError, Result, ok, fail_if}
use mcp_auth_go.Core.Errors.Laws.{>>=-eq-ok, fail_if-eq-ok}
use mcp_auth_go.Dpop.Verifier.{
  Jws, ProofClaims, Verifier, Input, bad_proof, required, the_signature, is_zero, not_public,
  alg_allowed, ath, strip_url, verified_claims, bound_claims,
}

-- The proof carries one signature by a public key that it embeds, under an allowed algorithm and
-- with the type of a proof; the signature verifies, and the payload holds these claims.
pub record Verified (j : Jws) (v : Verifier) (proof : Str) (c : ProofClaims) (key : j.Key)
    : Type 1 where
  pub msg : j.Message
  pub alg : Str
  pub parsed : j.parse proof ≡ some msg
  pub signed : j.signatures msg ≡ (str "dpop+jwt", alg, some key) ∷ []
  pub allowed : alg_allowed v alg ≡ true
  pub public_key : j.is_private_key key ≡ some false
  pub verifies : j.verify proof alg key ≡ true
  pub unmarshals : j.unmarshal (j.payload msg) ≡ some c

-- The claims are for this request and this token: method, URL without query and fragment, hash of
-- the token, an instant of issue within the leeway on both sides, and the key of the binding.
pub record Bound (j : Jws) (v : Verifier) (inp : Input) (now : Time) (c : ProofClaims) (key : j.Key)
    : Type 0 where
  pub has_jti : c.jti ≢ []
  pub has_htm : c.htm ≢ []
  pub has_htu : c.htu ≢ []
  pub has_iat : c.iat ≢ pos 0
  pub has_ath : c.ath ≢ []
  pub method : c.htm ≡ inp.method
  pub url : strip_url j c.htu ≡ strip_url j inp.url
  pub not_late : now ≤ℤ unix c.iat +ℤ v.iat_leeway
  pub not_early : unix c.iat ≤ℤ now +ℤ v.iat_leeway
  pub token : c.ath ≡ ath j inp.access_token
  pub thumb : Str
  pub thumbprint : j.thumbprint key ≡ some thumb
  pub binding : j.base64 thumb ≡ inp.bound_jkt

pub required-eq-ok {ℓ} :
    {A : Type ℓ} (o : Option A) (reason : String) (a : A) → required o reason ≡ ok a → o ≡ some a
required-eq-ok none reason a h = cc
required-eq-ok (some b) reason a h = cc

the_signature-eq {ℓ} : {A : Type ℓ} (l : List A) (a : A) → the_signature l ≡ some a → l ≡ a ∷ []
the_signature-eq [] a h = cc
the_signature-eq (b ∷ []) a h = cc
the_signature-eq (b ∷ c ∷ l) a h = cc

not_public-eq : (o : Option Bool) → not_public o ≡ false → o ≡ some false
not_public-eq none h = cc
not_public-eq (some true) h = cc
not_public-eq (some false) h = refl

is_zero_iff : (i : ℤ) → (is_zero i ≡ true) ↔ (i ≡ pos 0)
is_zero_iff (pos zero) = ground arith
is_zero_iff (pos (suc n)) = (λ h. cc, λ e. cc)
is_zero_iff (negsuc n) = (λ h. cc, λ e. cc)

cc_ok {ℓ κ} :
    {A : Type ℓ} {B : Type κ} (a b : A) (x y : B)
    → ◌≡◌ {A = Result (A × B)} (ok (a, x)) (ok (b, y))
    → (a ≡ b) × (x ≡ y)
cc_ok a b x y h = (cc, cc)

passed : (b : Bool) (e : GoError) → fail_if (not b) e ≡ ok tt → b ≡ true
passed b e h = ground arith

present :
    (c : ProofClaims)
    → ((is_empty c.jti || is_empty c.htm || is_empty c.htu || is_zero c.iat || is_empty c.ath)
        ≡ false)
      ↔ ((c.jti ≢ []) × (c.htm ≢ []) × (c.htu ≢ []) × (c.iat ≢ pos 0) × (c.ath ≢ []))
present c = ground (
  arith,
  is_empty_iff c.jti,
  is_empty_iff c.htm,
  is_empty_iff c.htu,
  is_zero_iff c.iat,
  is_empty_iff c.ath,
)

in_leeway :
    (iat now : Time) (leeway : Duration)
    → ((before iat (now -ℤ leeway) || after iat (now +ℤ leeway)) ≡ false)
      ↔ ((now ≤ℤ iat +ℤ leeway) × (iat ≤ℤ now +ℤ leeway))
in_leeway iat now leeway = ground (
  arith,
  ltb_ℤ_iff iat (now -ℤ leeway),
  ltb_ℤ_iff (now +ℤ leeway) iat,
  -ℤ_parts now leeway,
  +ℤ_parts now leeway,
  +ℤ_parts iat leeway,
)

same : (a b : Str) (e : GoError) → fail_if (not (a == b)) e ≡ ok tt → a ≡ b
same a b e h = (eq_iff a b).0 (passed _ _ h)

test : (a b : Str) → a ≡ b → (a == b) ≡ true
test a b h = (eq_iff a b).1 h

is_dpop : (typ : Str) → (typ == str "dpop+jwt") ≡ true → typ ≡ str "dpop+jwt"
is_dpop typ h = (eq_iff typ (str "dpop+jwt")).0 h

pair-eq {ℓ} :
    {K : Type ℓ} {typ typ' alg : Str} {jwk jwk' : Option K}
    → typ ≡ typ'
    → jwk ≡ jwk'
    → ◌≡◌ {A = Str × Str × Option K} (typ, alg, jwk) (typ', alg, jwk')
pair-eq e f = cc

module _ (j : Jws) where
  Verified-intro :
      (v : Verifier) (proof : Str) (c d : ProofClaims) (key k : j.Key) (msg : j.Message)
      (typ alg : Str) (jwk : Option j.Key)
      → required (j.parse proof) "malformed dpop proof" ≡ ok msg
      → required (the_signature (j.signatures msg)) "dpop proof must carry exactly one signature"
        ≡ ok (typ, alg, jwk)
      → fail_if (not (typ == str "dpop+jwt")) (bad_proof "dpop proof typ is not dpop+jwt") ≡ ok tt
      → fail_if (not (alg_allowed v alg)) (bad_proof "dpop proof alg not allowed") ≡ ok tt
      → required jwk "dpop proof missing embedded jwk" ≡ ok k
      → fail_if (not_public (j.is_private_key k)) (bad_proof "dpop proof jwk must be a public key")
        ≡ ok tt
      → fail_if (not (j.verify proof alg k)) (bad_proof "dpop proof signature invalid") ≡ ok tt
      → required (j.unmarshal (j.payload msg)) "dpop proof payload invalid" ≡ ok d
      → d ≡ c
      → k ≡ key
      → Verified j v proof c key
  Verified-intro v proof c d key k msg typ alg jwk h1 h2 h3 h4 h5 h6 h7 h8 ec ek = record {
    msg = msg;
    alg = alg;
    parsed = required-eq-ok (j.parse proof) _ msg h1;
    signed =
        the_signature-eq (j.signatures msg) (typ, alg, jwk) (required-eq-ok _ _ _ h2)
        ∙ ap (λ p. p ∷ [])
            (pair-eq (is_dpop typ (passed _ _ h3)) (required-eq-ok jwk _ k h5 ∙ ap some ek));
    allowed = passed _ _ h4;
    public_key =
        subst (λ x. j.is_private_key x ≡ some false) ek (not_public-eq _ (fail_if-eq-ok _ _ _ h6));
    verifies = subst (λ x. j.verify proof alg x ≡ true) ek (passed _ _ h7);
    unmarshals = required-eq-ok (j.unmarshal (j.payload msg)) _ d h8 ∙ ap some ec;
  }

  pub verified_claims-Verified :
      (v : Verifier) (proof : Str) (c : ProofClaims) (key : j.Key)
      → verified_claims j v proof ≡ ok (c, key)
      → Verified j v proof c key
  unfolding verified_claims
  verified_claims-Verified v proof c key h =
      let (msg, parsed, h1) = >>=-eq-ok (required (j.parse proof) _) _ h in
      let ((typ, alg, jwk), signed, h2) =
        >>=-eq-ok (required (the_signature (j.signatures msg)) _) _ h1 in
      let (_, typed, h3) = >>=-eq-ok (fail_if (not (typ == str "dpop+jwt")) _) _ h2 in
      let (_, allowed, h4) = >>=-eq-ok (fail_if (not (alg_allowed v alg)) _) _ h3 in
      let (k, embedded, h5) = >>=-eq-ok (required jwk _) _ h4 in
      let (_, public_key, h6) = >>=-eq-ok (fail_if (not_public (j.is_private_key k)) _) _ h5 in
      let (_, verifies, h7) = >>=-eq-ok (fail_if (not (j.verify proof alg k)) _) _ h6 in
      let (d, unmarshals, h8) = >>=-eq-ok (required (j.unmarshal (j.payload msg)) _) _ h7 in
      Verified-intro v proof c d key k msg typ alg jwk parsed signed typed allowed embedded
        public_key verifies unmarshals (cc_ok _ _ _ _ h8).0 (cc_ok _ _ _ _ h8).1

  pub bound_claims_iff :
      (v : Verifier) (inp : Input) (now : Time) (c : ProofClaims) (key : j.Key)
      → (bound_claims j v inp now c key ≡ ok tt) ↔ Bound j v inp now c key
  unfolding bound_claims
  bound_claims_iff v inp now c key = (
    λ h.
        let (_, h1, k1) = >>=-eq-ok (fail_if _ _) _ h in
        let (_, h2, k2) = >>=-eq-ok (fail_if (not (c.htm == inp.method)) _) _ k1 in
        let (_, h3, k3) =
          >>=-eq-ok (fail_if (not (strip_url j c.htu == strip_url j inp.url)) _) _ k2 in
        let (_, h4, k4) = >>=-eq-ok (fail_if _ _) _ k3 in
        let (_, h5, k5) = >>=-eq-ok (fail_if (not (c.ath == ath j inp.access_token)) _) _ k4 in
        let (thumb, h6, k6) = >>=-eq-ok (required (j.thumbprint key) _) _ k5 in
        let (jti, htm, htu, iat, has_ath) = (present c).0 (fail_if-eq-ok _ _ _ h1) in
        let (late, early) = (in_leeway (unix c.iat) now v.iat_leeway).0 (fail_if-eq-ok _ _ _ h4) in
        record {
          has_jti = jti;
          has_htm = htm;
          has_htu = htu;
          has_iat = iat;
          has_ath = has_ath;
          method = same _ _ _ h2;
          url = same _ _ _ h3;
          not_late = late;
          not_early = early;
          token = same _ _ _ h5;
          thumb = thumb;
          thumbprint = required-eq-ok _ _ _ h6;
          binding = same _ _ _ k6;
        },
    λ b. rw (
      (present c).1 (b.has_jti, b.has_htm, b.has_htu, b.has_iat, b.has_ath),
      test _ _ b.method,
      test _ _ b.url,
      (in_leeway (unix c.iat) now v.iat_leeway).1 (b.not_late, b.not_early),
      test _ _ b.token,
      b.thumbprint,
      test _ _ b.binding,
    ),
  )

  pub Verified-eq :
      (v : Verifier) (proof : Str) (c : ProofClaims) (key : j.Key)
      → Verified j v proof c key
      → verified_claims j v proof ≡ ok (c, key)
  unfolding verified_claims ◌==◌
  Verified-eq v proof c key w =
      rw (w.parsed, w.signed, w.allowed, w.public_key, w.verifies, w.unmarshals)
