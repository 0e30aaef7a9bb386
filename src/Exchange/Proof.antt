-- ===== src/Exchange/Proof.antt =====
-- exchange/clientauth.go and exchange/dpop.go: the authentication of the client to the token endpoint,
-- with its own proof of possession. `Signer` stands for jwx and encoding/json on the client's side;
-- the random bytes of a proof, or the error of reading them, are an argument.
pub mod Verified
mod Tests
use mcp_auth_go.Prelude.{
  Str, str, is_empty, Option, none, some, GoMap, insert, Time, ℤ, unix_seconds, if◌then◌else◌,
}
use mcp_auth_go.Core.Errors.{Result, ok, ◌>>=◌}
use mcp_auth_go.Core.SessionId.{hex_encode}
use mcp_auth_go.Exchange.Forms.{Form}

-- An `*http.Request` for the token endpoint, as far as an authentication reads and changes it.
pub record TokenRequest : Type 0 where
  pub method : Str
  pub url : Str
  pub header : GoMap Str
  pub basic : Option (Str × Str)

-- The interface `ClientAuthenticator`: `Apply` with the form and the server's nonce.
abbrev pub Authenticator : Type 0
Authenticator = TokenRequest → Form → Str → Result TokenRequest

pub record BasicAuth : Type 0 where
  pub client_id : Str
  pub client_secret : Str

unfoldable pub apply_basic : BasicAuth → Authenticator
apply_basic b req form nonce = ok (record req { basic = some (b.client_id, b.client_secret) })

-- The claims of a proof; `nonce` is there where the server gave one.
pub record ClientClaims : Type 0 where
  pub htm : Str
  pub htu : Str
  pub jti : Str
  pub iat : ℤ
  pub nonce : Option Str

pub record Signer : Type 1 where
  pub PrivateKey : Type 0
  pub PublicKey : Type 0
  pub public_key : PrivateKey → Result PublicKey
  pub marshal : ClientClaims → Result Str
  -- `jws.Sign` under ES256, with the headers `typ` and `jwk`.
  pub sign : Str → Str → PublicKey → PrivateKey → Result Str

module _ (sg : Signer) where
  pub record ClientDpop : Type 0 where
    pub base : Option Authenticator
    pub key : sg.PrivateKey

  -- `NewDPoP`, where the key pair is generated, or not.
  unfoldable pub new_client_dpop : Result sg.PrivateKey → Option Authenticator → Result ClientDpop
  new_client_dpop generated base = do key ← generated; ok (record { base = base; key = key })

  unfoldable pub proof : ClientDpop → Result Str → Time → Str → Str → Str → Result Str
  proof d random now htm htu nonce = do
    pub_key ← sg.public_key d.key
    bytes ← random
    payload ← sg.marshal (record {
      htm = htm;
      htu = htu;
      jti = hex_encode bytes;
      iat = unix_seconds now;
      nonce = if is_empty nonce then none else some nonce;
    })
    sg.sign payload (str "dpop+jwt") pub_key d.key

  -- The part of `Apply` for the base.
  unfoldable pub apply_base : Option Authenticator → Authenticator
  apply_base none req form nonce = ok req
  apply_base (some base) req form nonce = base req form nonce

  unfoldable pub apply_dpop : ClientDpop → Result Str → Time → Authenticator
  apply_dpop d random now req form nonce = do
    req' ← apply_base d.base req form nonce
    token ← proof d random now req'.method req'.url nonce
    ok (record req' { header = insert (str "Dpop") token req'.header })
