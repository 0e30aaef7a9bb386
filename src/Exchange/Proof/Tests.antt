-- ===== src/Exchange/Proof/Tests.antt =====
-- exchange/dpop.go: the theorem at a signer of one payload.
use mcp_auth_go.Prelude.{
  Str, str, ◌==◌, eq_iff, Bool, true, false, ◌&&◌, Option, none, some, [], ◌∷◌, lookup, insert, ℤ,
  pos, negsuc, unix_seconds, eqb, ◌≡◌, refl, ap, sym, arith, ◌≢◌,
}
use mcp_auth_go.Core.Errors.{Result, ok, fail, new_error}
use mcp_auth_go.Core.SessionId.{hex_digit, hex_encode}
use mcp_auth_go.Dpop.Verifier.{Jws, Verifier, opportunistic, alg_allowed, checked, Input}
use mcp_auth_go.Exchange.Proof.{
  apply_basic, ClientClaims, Signer, ClientDpop, new_client_dpop, proof, apply_base, apply_dpop,
}
use mcp_auth_go.Exchange.Proof.Verified.{read_claims, IsSigner, proof-refused}

abbrev is_one : ℤ → Bool
is_one (pos n) = eqb n 1
is_one (negsuc n) = false

abbrev is_none : Option Str → Bool
is_none none = true
is_none (some s) = false

-- The payload of the one proof.
abbrev sample : ClientClaims
sample = record { htm = str "POST"; htu = str "u"; jti = str "0a"; iat = pos 1; nonce = none }

abbrev is_sample : ClientClaims → Bool
is_sample c =
    c.htm == str "POST" && c.htu == str "u" && c.jti == str "0a" && is_one c.iat && is_none c.nonce

abbrev write_if : Bool → Result Str
write_if true = ok []
write_if false = fail (new_error "json")

abbrev sign_if : Bool → Str → Result Str
sign_if true payload = ok payload
sign_if false payload = fail (new_error "jws")

abbrev signer : Signer
signer = record {
  PrivateKey = Unit {0};
  PublicKey = Unit {0};
  public_key = λ k. ok k;
  marshal = λ c. write_if (is_sample c);
  sign = λ payload typ public key. sign_if (typ == str "dpop+jwt") payload;
}

abbrev jws : Jws
jws = record {
  Key = Unit {0};
  Message = Str;
  parse = λ p. some p;
  signatures = λ m. (str "dpop+jwt", str "ES256", some tt) ∷ [];
  payload = λ m. m;
  is_private_key = λ k. some false;
  verify = λ p alg k. true;
  thumbprint = λ k. some [];
  unmarshal = λ p. some (read_claims sample);
  sha256 = λ s. s;
  base64 = λ s. s;
  parse_url = λ s. none;
  url_string = λ u. u.base;
}

is_one-eq : (i : ℤ) → is_one i ≡ true → i ≡ pos 1
is_one-eq (pos n) h = ap pos (ground arith)
is_one-eq (negsuc n) h = cc

is_none-eq : (o : Option Str) → is_none o ≡ true → o ≡ none
is_none-eq none h = refl
is_none-eq (some s) h = cc

five :
    (a b c d e : Bool)
    → (a && b && c && d && e) ≡ true
    → (a ≡ true) × (b ≡ true) × (c ≡ true) × (d ≡ true) × (e ≡ true)
five true true true true true h = (refl, refl, refl, refl, refl)
five true true true true false h = cc
five true true true false e h = cc
five true true false d e h = cc
five true false c d e h = cc
five false b c d e h = cc

written : (b : Bool) (payload : Str) → write_if b ≡ ok payload → b ≡ true
written true payload h = refl
written false payload h = cc

signed :
    (b : Bool) (payload token : Str) → sign_if b payload ≡ ok token → (b ≡ true) × (token ≡ payload)
signed true payload token h = (refl, cc)
signed false payload token h = cc

sample_reads : (c : ClientClaims) → is_sample c ≡ true → read_claims sample ≡ read_claims c
sample_reads c h =
    let (a, b, j, i, n) =
      five (c.htm == str "POST") (c.htu == str "u") (c.jti == str "0a") (is_one c.iat)
        (is_none c.nonce) h in
    rw
      (
        (eq_iff c.htm (str "POST")).0 a,
        (eq_iff c.htu (str "u")).0 b,
        (eq_iff c.jti (str "0a")).0 j,
        is_one-eq c.iat i,
        is_none-eq c.nonce n,
      )
      refl

abbrev signer-IsSigner : IsSigner signer jws
signer-IsSigner = record {
  embedded = λ k. k;
  is_public = λ k. refl;
  reads = λ c payload h. ap some (sample_reads c (written (is_sample c) payload h));
  parses = λ payload typ token public key h k. (
    token,
    refl,
    ap (λ t. (t, str "ES256", some tt) ∷ [])
        (sym ((eq_iff typ (str "dpop+jwt")).0 (signed _ payload token k).0)),
    (signed _ payload token k).1,
    refl,
  );
}

proof_code : Unit {0}
unfolding proof new_client_dpop apply_basic apply_base apply_dpop hex_encode hex_digit unix_seconds
    alg_allowed lookup insert ◌==◌
proof_code = tt

abbrev client : ClientDpop signer
client = record { base = none; key = tt }

abbrev v : Verifier
v = record {
  mode = opportunistic;
  iat_leeway = pos 60000000000;
  alg_allow = (str "ES256", tt) ∷ [];
  nonce = none;
}

made : proof signer client (ok (10 ∷ [])) (pos 1000000000) (str "POST") (str "u") [] ≡ ok []
unfolding proof_code
made = refl

allowed : alg_allowed v (str "ES256") ≡ true
unfolding proof_code
allowed = refl

abbrev at_resource : Input
at_resource = record {
  proofs = [] ∷ [];
  method = str "POST";
  url = str "u";
  access_token = str "t";
  bound_jkt = [];
}

proof-refused_example : checked jws v [] at_resource (pos 1000000000) ≢ ok (read_claims sample)
proof-refused_example =
    (proof-refused signer jws signer-IsSigner client (ok (10 ∷ [])) (pos 1000000000) (str "POST")
        (str "u") [] [] v made allowed).1
      at_resource (pos 1000000000) (read_claims sample)
