-- ===== src/Transport/Mcp/Middleware/Header.antt =====
-- transport/mcpauth/challenge.go: the text of the challenge to a request whose proof is refused.
use mcp_auth_go.Prelude.{
  Str, str, true, false, [], ◌∷◌, ◌++◌, join, ◌≡◌, ◌≢◌, refl, ◌⊎◌, inl, inr, Bool-cases,
}
use mcp_auth_go.Core.Errors.{GoError, is_error, err_use_dpop_nonce, err_invalid_dpop_proof}
use mcp_auth_go.Transport.Wire.{sanitize_quoted}
use mcp_auth_go.Transport.Mcp.Tokens.{challenge_code}
use mcp_auth_go.Transport.Mcp.Challenge.{dpop_challenge}

-- The code of a refusal: whether it asks for a nonce or not.
abbrev pub Coded : GoError → Str → Type 0
Coded err code =
    ((is_error err_use_dpop_nonce err ≡ true) × (code ≡ str "use_dpop_nonce"))
    ⊎ ((is_error err_use_dpop_nonce err ≡ false) × (code ≡ str "invalid_dpop_proof"))

-- The scheme DPoP with the realm, the code, and the URL of the metadata where there is one.
abbrev pub IsChallenge : Str → Str → Str → Type 0
IsChallenge code url value =
    ((url ≡ []) × (value ≡ str "DPoP realm=\"mcp\", error=\"" ++ (code ++ str "\"")))
    ⊎ ((url ≢ [])
        × (value
            ≡ str "DPoP realm=\"mcp\", error=\""
              ++ ((code ++ str "\"")
                  ++ (str ", resource_metadata=\"" ++ (sanitize_quoted url ++ str "\"")))))

pub challenge_code-Coded : (err : GoError) → Coded err (challenge_code err)
unfolding challenge_code err_use_dpop_nonce err_invalid_dpop_proof
challenge_code-Coded err = elim (Bool-cases (is_error err_use_dpop_nonce err)) [
  | inl e ↦ inl (e, rw (e, challenge_code) refl)
  | inr e ↦ inr (e, rw (e, challenge_code) refl)
]

pub dpop_challenge-IsChallenge : (code url : Str) → IsChallenge code url (dpop_challenge code url)
unfolding dpop_challenge join
dpop_challenge-IsChallenge code [] = inl (refl, refl)
dpop_challenge-IsChallenge code (c ∷ url) = inr ((λ e. cc), refl)
