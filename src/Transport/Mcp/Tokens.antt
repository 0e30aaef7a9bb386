-- ===== src/Transport/Mcp/Tokens.antt =====
-- transport/mcpauth/verifier.go and context.go: the SDK's token verifier, and the claims on their
-- way from a token to a tool handler. `challengeState` is a result, where the program writes it
-- through a pointer in the context.
pub mod Laws
use mcp_auth_go.Prelude.{
  Str, str, Option, none, some, [], ◌∷◌, GoMap, lookup, insert, Time, if◌then◌else◌,
}
use mcp_auth_go.Core.Errors.{
  GoError, verifier_error, as_auth_error, is_error, reject, new_error, Result, ok, fail,
  err_invalid_dpop_proof, err_use_dpop_nonce,
}
use mcp_auth_go.Core.Claims.{Claims}
use mcp_auth_go.Core.Context.{
  Extra, claims, text, TokenInfo, Ctx, with_claims, claims_from, with_raw_token, raw_token_from,
}
use mcp_auth_go.Dpop.Replay.{ReplayCache}
use mcp_auth_go.Dpop.Verifier.{Jws, Verifier, enforce}
use mcp_auth_go.Transport.Wire.{Request, header_values, request_url}
use mcp_auth_go.Transport.Http.{TokenValidator}

abbrev pub claims_extra_key : Str
claims_extra_key = str "github.com/polyglotdev/mcp-auth-go.claims"

abbrev pub raw_token_extra_key : Str
raw_token_extra_key = str "github.com/polyglotdev/mcp-auth-go.raw_token"

-- `sdk_message` is the message of the SDK's `ErrInvalidToken`.
unfoldable pub to_verifier_error : Str → GoError → GoError
to_verifier_error sdk_message err = elim (as_auth_error err) [
  | none ↦ verifier_error sdk_message
  | some e ↦ verifier_error e.message
]

unfoldable pub copy_raw : GoMap Str → GoMap Extra → GoMap Extra
copy_raw [] extra = extra
copy_raw ((k, v) ∷ raw) extra = copy_raw raw (insert k (text v) extra)

unfoldable pub to_token_info : Claims → TokenInfo
to_token_info c = record {
  scopes = c.scopes;
  expiration = c.expires_at;
  user_id = c.subject;
  extra = insert claims_extra_key (claims c) (copy_raw c.raw []);
}

-- The token information that the verifier hands to the SDK.
unfoldable pub verified_info : Claims → Str → TokenInfo
verified_info c token =
    let ti = to_token_info c in
    record ti { extra = insert raw_token_extra_key (text token) ti.extra }

abbrev pub as_claims : Option Extra → Option Claims
as_claims (some (claims c)) = some c
as_claims _ = none

abbrev pub as_raw : Option Extra → Option Str
as_raw (some (text s)) = some s
as_raw _ = none

unfoldable pub claims_from_context : Ctx → Option Claims
claims_from_context ctx = elim (claims_from ctx) [
  | some c ↦ some c
  | none ↦ elim ctx.token_info [
    | none ↦ none
    | some ti ↦ as_claims (lookup claims_extra_key ti.extra)
  ]
]

unfoldable pub raw_token_from_context : Ctx → Option Str
raw_token_from_context ctx = elim (raw_token_from ctx) [
  | some raw ↦ some raw
  | none ↦ elim ctx.token_info [
    | none ↦ none
    | some ti ↦ as_raw (lookup raw_token_extra_key ti.extra)
  ]
]

abbrev pub bridge_claims : Ctx → Option Claims → Ctx
bridge_claims ctx none = ctx
bridge_claims ctx (some c) = with_claims ctx c

abbrev pub bridge_raw : Ctx → Option Str → Ctx
bridge_raw ctx none = ctx
bridge_raw ctx (some raw) = with_raw_token ctx raw

-- The context that `ContextBridge` passes on.
unfoldable pub context_bridge : Ctx → Ctx
context_bridge ctx =
    let ctx' = bridge_claims ctx (claims_from_context ctx) in
    bridge_raw ctx' (raw_token_from_context ctx')

-- The code of `challengeState`, where it is set.
unfoldable pub challenge_code : GoError → Str
challenge_code err =
    if is_error err_use_dpop_nonce err then err_use_dpop_nonce.code else err_invalid_dpop_proof.code

-- What a call of the verifier has as results: the replay cache, the challenge if there is one to
-- make, and the token information or the error.
module _ (j : Jws) (r : ReplayCache) (sdk_message : Str) where
  abbrev pub Verdict : Type 0
  Verdict = r.State × Option Str × Result TokenInfo

  unfoldable pub verify_proof :
      Option Verifier → Str → r.State → Str → Option Request → Claims → Time → Time → Verdict
  verify_proof none base_url st token req c now clock = (st, none, ok (verified_info c token))
  verify_proof (some v) base_url st token none c now clock = (
    st,
    none,
    fail (
        to_verifier_error sdk_message
          (reject err_invalid_dpop_proof (new_error "no request available for dpop check"))),
  )
  verify_proof (some v) base_url st token (some req) c now clock =
      let (st', refusal) =
        enforce j r v st
          (record {
            proofs = header_values req (str "DPoP");
            method = req.method;
            url = request_url req base_url;
            access_token = token;
            bound_jkt = c.confirmation;
          })
          now clock in
      elim refusal [
        | none ↦ (st', none, ok (verified_info c token))
        | some err ↦ (st', some (challenge_code err), fail (to_verifier_error sdk_message err))
      ]

  -- The function that `newVerifierFunc` returns.
  unfoldable pub verify_token :
      TokenValidator
      → Option Verifier
      → Str
      → r.State
      → Ctx
      → Str
      → Option Request
      → Time
      → Time
      → Verdict
  verify_token tv dv base_url st ctx token req now clock = elim (tv.validate ctx token) [
    | fail err ↦ (st, none, fail (to_verifier_error sdk_message err))
    | ok c ↦ verify_proof dv base_url st token req c now clock
  ]

  -- `NewTokenVerifier`.
  unfoldable pub new_token_verifier :
      TokenValidator → r.State → Ctx → Str → Option Request → Time → Time → Verdict
  new_token_verifier tv st ctx token req now clock =
      verify_token tv none [] st ctx token req now clock
