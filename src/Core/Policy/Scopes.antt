-- ===== src/Core/Policy/Scopes.antt =====
-- verifier.go and authorizer.go: `RequireScopes` on a token against `HasScopes` on its claims.
use mcp_auth_go.Prelude.{
  Str, str, true, none, some, List, [], ◌∷◌, GoMap, lookup, insert, is_some, ◌≡◌, refl, sym, ap,
  ◌∙◌, ◌↔◌, ◌⊎◌, inl, inr, All, Has, arith, Option-cases,
}
use mcp_auth_go.Core.Errors.{GoError, errorf, str_arg, reject, err_insufficient_scope}
use mcp_auth_go.Core.Claims.{Token, scopes_from_token, claims_from_token}
use mcp_auth_go.Core.Context.{Ctx}
use mcp_auth_go.Core.Policy.Laws.{lookup-scopes}
use mcp_auth_go.Core.Policy.{
  add_scopes, check_all, token_scopes, require_each, require_scopes, has_scopes,
}

-- The error names the first required scope that is not among those held.
abbrev pub LacksFirst : List Str → GoError → List Str → Type 0
LacksFirst held e [] = ⊥
LacksFirst held e (want ∷ required) =
    ((¬ Has want held)
      × (e ≡ reject err_insufficient_scope (errorf (str "missing scope %q") (str_arg want ∷ []))))
    ⊎ (Has want held × LacksFirst held e required)

token_scopes-add_scopes :
    (scopes : List Str) (have : GoMap (Unit {0}))
    → token_scopes scopes have ≡ add_scopes scopes have
unfolding token_scopes add_scopes
token_scopes-add_scopes [] have = refl
token_scopes-add_scopes (s ∷ scopes) have = token_scopes-add_scopes scopes (insert s tt have)

require_each-check_all :
    (required : List Str) (have : GoMap (Unit {0}))
    → require_each required have ≡ check_all required have
unfolding require_each check_all
require_each-check_all [] have = refl
require_each-check_all (want ∷ required) have = elim (Option-cases (lookup want have)) [
  | inl e ↦ rw (e, require_each, check_all) refl
  | inr (u, e) ↦ rw (e, require_each, check_all) (require_each-check_all required have)
]

-- The set that the loop fills holds the scopes of the token.
held_iff :
    (want : Str) (scopes : List Str)
    → (is_some (lookup want (token_scopes scopes [])) ≡ true) ↔ Has want scopes
held_iff want scopes = rw (token_scopes-add_scopes scopes []) (lookup-scopes want scopes)

require_each_iff :
    (required scopes : List Str)
    → (require_each required (token_scopes scopes []) ≡ none) ↔ All (λ s. Has s scopes) required
unfolding require_each
require_each_iff [] scopes = ground arith
require_each_iff (want ∷ required) scopes =
    ground (arith, held_iff want scopes, require_each_iff required scopes)

require_each-LacksFirst :
    (required scopes : List Str) (e : GoError)
    → (require_each required (token_scopes scopes []) ≡ some e) ↔ LacksFirst scopes e required
unfolding require_each
require_each-LacksFirst [] scopes e = ground arith
require_each-LacksFirst (want ∷ required) scopes e =
    ground (arith, held_iff want scopes, require_each-LacksFirst required scopes e)

-- `RequireScopes` allows a token exactly if each required scope is among those of the token, and
-- refuses it with an error exactly if that error is `insufficient_scope` and names the first required
-- scope that is not; and `HasScopes` answers the same on the claims that are extracted from the token.
pub require_scopes-has_scopes :
    (required : List Str) (ctx : Ctx) (tok : Token)
    → ((require_scopes required ctx tok ≡ none) ↔ All (λ s. Has s (scopes_from_token tok)) required)
      × ((e : GoError)
          → (require_scopes required ctx tok ≡ some e)
            ↔ LacksFirst (scopes_from_token tok) e required)
      × (has_scopes required ctx (claims_from_token tok) ≡ require_scopes required ctx tok)
unfolding require_scopes has_scopes claims_from_token
require_scopes-has_scopes [] ctx tok = (ground arith, λ e. ground arith, refl)
require_scopes-has_scopes (s ∷ required) ctx tok =
    let scopes = scopes_from_token tok in
    (
      require_each_iff (s ∷ required) scopes,
      λ e. require_each-LacksFirst (s ∷ required) scopes e,
      sym (
          require_each-check_all (s ∷ required) (token_scopes scopes [])
          ∙ ap (check_all (s ∷ required)) (token_scopes-add_scopes scopes [])),
    )
