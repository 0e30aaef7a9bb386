-- ===== src/Exchange/Proof/Verified.antt =====
-- exchange/dpop.go and dpop/proof.go: the client's proof before the checks of a resource server.
use mcp_auth_go.Prelude.{
  Str, str, is_empty, true, false, Option, none, some, [], ◌∷◌, Time, unix_seconds, if◌then◌else◌,
  ◌≡◌, ◌≢◌, refl, ap, ◌∙◌,
}
use mcp_auth_go.Core.Errors.{Result, ok}
use mcp_auth_go.Core.Errors.Laws.{>>=-eq-ok}
use mcp_auth_go.Core.SessionId.{hex_encode}
use mcp_auth_go.Dpop.Verifier.{
  Jws, ProofClaims, Verifier, Input, alg_allowed, verified_claims, bound_claims, checked,
}
use mcp_auth_go.Dpop.Verifier.Checks.{Verified, Verified-eq, Bound, bound_claims_iff}
use mcp_auth_go.Exchange.Proof.{ClientClaims, Signer, ClientDpop, proof}

-- The value of the member `nonce`, which is empty where it is absent.
abbrev nonce_text : Option Str → Str
nonce_text none = []
nonce_text (some nonce) = nonce

nonce_text-eq : (nonce : Str) → nonce_text (if is_empty nonce then none else some nonce) ≡ nonce
nonce_text-eq [] = refl
nonce_text-eq (c ∷ nonce) = refl

-- The claims that a reader finds in a client's payload: there is no `ath`.
abbrev pub read_claims : ClientClaims → ProofClaims
read_claims c = record {
  jti = c.jti;
  htm = c.htm;
  htu = c.htu;
  iat = c.iat;
  ath = [];
  nonce = nonce_text c.nonce;
}

-- What jwx and encoding/json promise: a token that one side signs is parsed by the other, with its one
-- signature under ES256, its type, its embedded key, which is public, and its payload; the signature
-- verifies; and the members of a payload are read as they were written.
pub record IsSigner (sg : Signer) (j : Jws) : Type 0 where
  pub embedded : sg.PublicKey → j.Key
  pub is_public : (k : sg.PublicKey) → j.is_private_key (embedded k) ≡ some false
  pub reads :
      (c : ClientClaims) (payload : Str)
      → sg.marshal c ≡ ok payload
      → j.unmarshal payload ≡ some (read_claims c)
  pub parses :
      (payload typ token : Str) (public : sg.PublicKey) (key : sg.PrivateKey)
      → sg.public_key key ≡ ok public
      → sg.sign payload typ public key ≡ ok token
      → (msg : j.Message) × (j.parse token ≡ some msg)
        × (j.signatures msg ≡ (typ, str "ES256", some (embedded public)) ∷ [])
        × (j.payload msg ≡ payload)
        × (j.verify token (str "ES256") (embedded public) ≡ true)

module _ (sg : Signer) (j : Jws) (laws : IsSigner sg j) where
  -- The steps of a proof that is made.
  record Made (d : ClientDpop sg) (random : Result Str) (now : Time) (htm htu nonce token : Str)
      : Type 0 where
    pub public : sg.PublicKey
    pub bytes : Str
    pub payload : Str
    pub claims : ClientClaims
    pub drawn : random ≡ ok bytes
    pub is_claims : claims ≡ record {
      htm = htm;
      htu = htu;
      jti = hex_encode bytes;
      iat = unix_seconds now;
      nonce = if is_empty nonce then none else some nonce;
    }
    pub has_key : sg.public_key d.key ≡ ok public
    pub marshalled : sg.marshal claims ≡ ok payload
    pub signed : sg.sign payload (str "dpop+jwt") public d.key ≡ ok token

  proof-Made :
      (d : ClientDpop sg) (random : Result Str) (now : Time) (htm htu nonce token : Str)
      → proof sg d random now htm htu nonce ≡ ok token
      → Made d random now htm htu nonce token
  unfolding proof
  proof-Made d random now htm htu nonce token h =
      let (public, e1, h1) = >>=-eq-ok (sg.public_key d.key) _ h in
      let (bytes, e2, h2) = >>=-eq-ok random _ h1 in
      let (payload, e3, h3) = >>=-eq-ok (sg.marshal _) _ h2 in
      record {
        public = public;
        bytes = bytes;
        payload = payload;
        claims = _;
        drawn = e2;
        is_claims = refl;
        has_key = e1;
        marshalled = e3;
        signed = h3;
      }

  -- What the server makes of a client's proof, where it allows ES256: the proof is well formed, typed,
  -- signed by the key that it embeds, and read as it was written; but no request of a resource server
  -- takes it, since it is not bound to an access token.
  pub proof-refused :
      (d : ClientDpop sg) (random : Result Str) (now : Time) (htm htu nonce token : Str)
      (v : Verifier)
      → proof sg d random now htm htu nonce ≡ ok token
      → alg_allowed v (str "ES256") ≡ true
      → ((c : ProofClaims) × (key : j.Key) × (verified_claims j v token ≡ ok (c, key))
          × (c.htm ≡ htm)
          × (c.htu ≡ htu)
          × (c.iat ≡ unix_seconds now)
          × (c.nonce ≡ nonce))
        × ((inp : Input) (at : Time) (c : ProofClaims) → checked j v token inp at ≢ ok c)
  unfolding checked
  proof-refused d random now htm htu nonce token v h allowed =
      let made = proof-Made d random now htm htu nonce token h in
      let (msg, parsed, signed, payload, verifies) =
        laws.parses made.payload (str "dpop+jwt") token made.public d.key made.has_key
          made.signed in
      let c = read_claims made.claims in
      let key = laws.embedded made.public in
      let ver : Verified j v token c key = record {
        msg = msg;
        alg = str "ES256";
        parsed = parsed;
        signed = signed;
        allowed = allowed;
        public_key = laws.is_public made.public;
        verifies = verifies;
        unmarshals = ap j.unmarshal payload ∙ laws.reads made.claims made.payload made.marshalled;
      } in
      let e = Verified-eq j v token c key ver in
      (
        (
          c,
          key,
          e,
          ap (λ (x : ClientClaims). x.htm) made.is_claims,
          ap (λ (x : ClientClaims). x.htu) made.is_claims,
          ap (λ (x : ClientClaims). x.iat) made.is_claims,
          ap (λ (x : ClientClaims). nonce_text x.nonce) made.is_claims ∙ nonce_text-eq nonce,
        ),
        λ inp at c' k.
            let (x, f, k1) = >>=-eq-ok (verified_claims j v token) _ k in
            let (u, b, k2) = >>=-eq-ok (bound_claims j v inp at x.0 x.1) _ k1 in
            let bound : Bound j v inp at x.0 x.1 = (bound_claims_iff j v inp at x.0 x.1).0 b in
            let same : ◌≡◌ {A = ProofClaims × j.Key} x (c, key) = cc (e, f) in
            bound.has_ath (ap (λ y. y.0.ath) same),
      )
