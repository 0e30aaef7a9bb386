-- ===== src/Transport/Mcp/Tokens/Laws.antt =====
-- transport/mcpauth/verifier.go and context.go: what the verifier accepts, and what a handler reads.
use mcp_auth_go.Prelude.{Str, ◌==◌, none, some, lookup, lookup-insert, ◌≡◌, ◌∙◌}
use mcp_auth_go.Core.Claims.{Claims}
use mcp_auth_go.Core.Context.{
  claims, text, Ctx, claims_from, with_claims, with_raw_token, raw_token_from,
}
use mcp_auth_go.Transport.Mcp.Tokens.{
  claims_extra_key, raw_token_extra_key, to_token_info, verified_info, claims_from_context,
  raw_token_from_context, context_bridge,
}

info-claims :
    (c : Claims) (token : Str)
    → lookup claims_extra_key (verified_info c token).extra ≡ some (claims c)
unfolding verified_info to_token_info ◌==◌
info-claims c token =
    lookup-insert raw_token_extra_key claims_extra_key (text token) _
    ∙ lookup-insert claims_extra_key claims_extra_key (claims c) _

info-raw :
    (c : Claims) (token : Str)
    → lookup raw_token_extra_key (verified_info c token).extra ≡ some (text token)
unfolding verified_info ◌==◌
info-raw c token = lookup-insert raw_token_extra_key raw_token_extra_key (text token) _

-- Whatever other claims a token has, a handler that gets the verifier's token information in its
-- context, and no claims of this library, reads from it the very claims and the token that the
-- verifier put there; and behind the bridge it reads them under the library's own keys.
pub context_bridge-verified_info :
    (c : Claims) (token : Str)
    → (let ctx : Ctx = record {
      claims = none;
      raw_token = none;
      token_info = some (verified_info c token);
    } in
        (claims_from_context ctx ≡ some c)
        × (raw_token_from_context ctx ≡ some token)
        × (claims_from (context_bridge ctx) ≡ some c)
        × (raw_token_from (context_bridge ctx) ≡ some token))
unfolding claims_from_context raw_token_from_context context_bridge claims_from raw_token_from
    with_claims with_raw_token
context_bridge-verified_info c token = (
  rw (info-claims c token),
  rw (info-raw c token),
  rw (info-claims c token, info-raw c token),
  rw (info-claims c token, info-raw c token),
)
