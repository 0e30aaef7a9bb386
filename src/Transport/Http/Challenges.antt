-- ===== src/Transport/Http/Challenges.antt =====
-- transport/http/middleware.go: the text of the header WWW-Authenticate, by the code of the error.
use mcp_auth_go.Prelude.{
  Str, str, ◌==◌, eq_iff, true, false, List, [], ◌∷◌, ◌++◌, join, ◌≡◌, ◌≢◌, refl, sym, subst, ◌⊎◌,
  inl, inr, Bool-cases,
}
use mcp_auth_go.Core.Errors.{
  AuthError, err_invalid_token, err_expired_token, err_insufficient_scope, err_invalid_dpop_proof,
  err_use_dpop_nonce,
}
use mcp_auth_go.Transport.Wire.{sanitize_quoted}
use mcp_auth_go.Transport.Http.{error_params, metadata_params, scheme, build_www_authenticate}

-- The parameter `scope`, where there are scopes to name.
abbrev pub NamesScopes : List Str → List Str → Type 0
NamesScopes scopes params =
    ((scopes ≡ []) × (params ≡ []))
    ⊎ ((scopes ≢ [])
        × (params ≡ (str "scope=\"" ++ (sanitize_quoted (join (str " ") scopes) ++ str "\"")) ∷ []))

-- The scheme, and the parameters on the error, that go with a code.
abbrev pub Explains : Str → List Str → Str → List Str → Type 0
Explains code scopes scheme params =
    ((code ≡ str "invalid_token")
      × (scheme ≡ str "Bearer")
      × (params ≡ str "error=\"invalid_token\"" ∷ []))
    ⊎ (((code ≡ str "expired_token")
          × (scheme ≡ str "Bearer")
          × (params
              ≡ str "error=\"invalid_token\""
                ∷ str "error_description=\"the access token expired\""
                ∷ []))
        ⊎ (((code ≡ str "insufficient_scope")
              × (scheme ≡ str "Bearer")
              × (more : List Str) × NamesScopes scopes more
              × (params ≡ str "error=\"insufficient_scope\"" ∷ more))
            ⊎ (((code ≡ str "invalid_dpop_proof")
                  × (scheme ≡ str "DPoP")
                  × (params ≡ str "error=\"invalid_dpop_proof\"" ∷ []))
                ⊎ (((code ≡ str "use_dpop_nonce")
                      × (scheme ≡ str "DPoP")
                      × (params ≡ str "error=\"use_dpop_nonce\"" ∷ []))
                    ⊎ ((code ≢ str "invalid_token")
                        × (code ≢ str "expired_token")
                        × (code ≢ str "insufficient_scope")
                        × (code ≢ str "invalid_dpop_proof")
                        × (code ≢ str "use_dpop_nonce")
                        × (scheme ≡ str "Bearer")
                        × (params ≡ []))))))

-- The parameter with the URL of the metadata, where there is one.
abbrev pub Refers : Str → List Str → Type 0
Refers url params =
    ((url ≡ []) × (params ≡ []))
    ⊎ ((url ≢ [])
        × (params ≡ (str "resource_metadata=\"" ++ (sanitize_quoted url ++ str "\"")) ∷ []))

-- The scheme, the realm, and then the parameters on the error and on the metadata.
pub record IsChallenge (code url : Str) (scopes : List Str) (value : Str) : Type 0 where
  pub scheme : Str
  pub errors : List Str
  pub metadata : List Str
  pub explains : Explains code scopes scheme errors
  pub refers : Refers url metadata
  pub reads :
      value ≡ scheme ++ (str " " ++ join (str ", ") (str "realm=\"mcp\"" ∷ (errors ++ metadata)))

differs : (a b : Str) → (a == b) ≡ false → a ≢ b
differs a b h e = let t = (eq_iff a b).1 e in cc (t, h)

metadata_params-Refers : (url : Str) → Refers url (metadata_params url)
metadata_params-Refers [] = inl (refl, refl)
metadata_params-Refers (c ∷ url) = inr ((λ e. cc), refl)

insufficient-Explains :
    (scopes : List Str)
    → Explains
        (str "insufficient_scope")
        scopes
        (scheme (str "insufficient_scope"))
        (error_params (str "insufficient_scope") scopes)
unfolding scheme error_params err_invalid_token err_expired_token err_insufficient_scope ◌==◌
insufficient-Explains [] = inr (inr (inl (refl, refl, [], inl (refl, refl), refl)))
insufficient-Explains (s ∷ scopes) = inr (inr (inl (refl, refl, _, inr ((λ e. cc), refl), refl)))

-- Any code but the five.
other-Explains :
    (code : Str) (scopes : List Str)
    → (code == str "invalid_token") ≡ false
    → (code == str "expired_token") ≡ false
    → (code == str "insufficient_scope") ≡ false
    → (code == str "invalid_dpop_proof") ≡ false
    → (code == str "use_dpop_nonce") ≡ false
    → Explains code scopes (scheme code) (error_params code scopes)
unfolding scheme error_params err_invalid_token err_expired_token err_insufficient_scope
    err_invalid_dpop_proof err_use_dpop_nonce
other-Explains code scopes a b c d e = inr (
    inr (
      inr (
        inr (
          inr (
            differs code _ a,
            differs code _ b,
            differs code _ c,
            differs code _ d,
            differs code _ e,
            rw (a, b, c, d, e, scheme) refl,
            rw (a, b, c, d, e, error_params) refl,
          )))))

-- What the challenge says of a code, with the code's text in its place.
at_code :
    (code text : Str) (scopes : List Str)
    → (code == text) ≡ true
    → Explains text scopes (scheme text) (error_params text scopes)
    → Explains code scopes (scheme code) (error_params code scopes)
at_code code text scopes h x =
    subst (λ c. Explains c scopes (scheme c) (error_params c scopes)) (sym ((eq_iff code text).0 h))
      x

code-Explains :
    (code : Str) (scopes : List Str) → Explains code scopes (scheme code) (error_params code scopes)
unfolding scheme error_params err_invalid_token err_expired_token err_insufficient_scope
    err_invalid_dpop_proof err_use_dpop_nonce ◌==◌
code-Explains code scopes = elim (Bool-cases (code == str "invalid_token")) [
  | inl a ↦ at_code code _ scopes a (inl (refl, refl, refl))
  | inr a ↦ elim (Bool-cases (code == str "expired_token")) [
    | inl b ↦ at_code code _ scopes b (inr (inl (refl, refl, refl)))
    | inr b ↦ elim (Bool-cases (code == str "insufficient_scope")) [
      | inl c ↦ at_code code _ scopes c (insufficient-Explains scopes)
      | inr c ↦ elim (Bool-cases (code == str "invalid_dpop_proof")) [
        | inl d ↦ at_code code _ scopes d (inr (inr (inr (inl (refl, refl, refl)))))
        | inr d ↦ elim (Bool-cases (code == str "use_dpop_nonce")) [
          | inl e ↦ at_code code _ scopes e (inr (inr (inr (inr (inl (refl, refl, refl))))))
          | inr e ↦ other-Explains code scopes a b c d e
        ]
      ]
    ]
  ]
]

pub build_www_authenticate-IsChallenge :
    (e : AuthError) (url : Str) (scopes : List Str)
    → IsChallenge e.code url scopes (build_www_authenticate e url scopes)
unfolding build_www_authenticate
build_www_authenticate-IsChallenge e url scopes = record {
  scheme = scheme e.code;
  errors = error_params e.code scopes;
  metadata = metadata_params url;
  explains = code-Explains e.code scopes;
  refers = metadata_params-Refers url;
  reads = refl;
}
