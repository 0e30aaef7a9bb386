-- ===== src/Core/Policy.antt =====
-- verifier.go and authorizer.go: authorization policies over a token or over its claims.
-- `none` is the nil error: the policy allows.
pub mod Laws
pub mod Scopes
pub mod Order
mod Tests
use mcp_auth_go.Prelude.{
  Str, str, ◌==◌, Bool, true, false, Option, none, some, List, [], ◌∷◌, GoMap, lookup, insert,
  if◌then◌else◌,
}
use mcp_auth_go.Core.Errors.{
  GoError, errorf, str_arg, list_arg, new_error, to_error, reject, err_forbidden,
  err_insufficient_scope, first_error,
}
use mcp_auth_go.Core.Claims.{Token, Claims, Value, text, scopes_from_token}
use mcp_auth_go.Core.Context.{Ctx}

abbrev pub ClaimVerifier : Type 0
ClaimVerifier = Ctx → Token → Option GoError

abbrev pub Authorizer : Type 0
Authorizer = Ctx → Claims → Option GoError

-- `have`, a map used as a set, in `HasScopes` and `HasAnyScope`.
unfoldable pub add_scopes : List Str → GoMap (Unit {0}) → GoMap (Unit {0})
add_scopes [] have = have
add_scopes (s ∷ scopes) have = add_scopes scopes (insert s tt have)

-- What `fmt` prints for a missing and for an unequal claim.
abbrev claim_missing : Str → GoError
claim_missing name = errorf (str "claim %q missing") (str_arg name ∷ [])

abbrev claim_differs : Str → Str → GoError
claim_differs name want = errorf (str "claim %q != %q") (str_arg name ∷ str_arg want ∷ [])

abbrev none_of_scopes : List Str → GoError
none_of_scopes scopes = errorf (str "none of the scopes %v present") (list_arg scopes ∷ [])

abbrev missing_scope : Str → GoError
missing_scope want = errorf (str "missing scope %q") (str_arg want ∷ [])

check_claim : Str → Str → Option Value → Option GoError
check_claim name want none = some (reject err_forbidden (claim_missing name))
check_claim name want (some (text got)) =
    if got == want then none else some (reject err_forbidden (claim_differs name want))
check_claim name want (some raw) = some (reject err_forbidden (claim_differs name want))

-- The map's order is that of the list.
unfoldable pub verify_required_string_claims : GoMap Str → ClaimVerifier
unfolding check_claim
verify_required_string_claims [] ctx tok = none
verify_required_string_claims ((name, want) ∷ required) ctx tok =
    first_error (check_claim name want (tok.get name))
      (verify_required_string_claims required ctx tok)

-- The loop of `HasScopes` over the wanted scopes, and that of `HasAnyScope`.
check_all : List Str → GoMap (Unit {0}) → Option GoError
check_all [] have = none
check_all (want ∷ required) have = elim (lookup want have) [
  | none ↦ some (reject err_insufficient_scope (missing_scope want))
  | some _ ↦ check_all required have
]

check_any : List Str → GoMap (Unit {0}) → Bool
check_any [] have = false
check_any (want ∷ scopes) have = elim (lookup want have) [
  | none ↦ check_any scopes have
  | some _ ↦ true
]

-- The two loops of `RequireScopes`.
token_scopes : List Str → GoMap (Unit {0}) → GoMap (Unit {0})
token_scopes [] have = have
token_scopes (s ∷ scopes) have = token_scopes scopes (insert s tt have)

require_each : List Str → GoMap (Unit {0}) → Option GoError
require_each [] have = none
require_each (want ∷ required) have = elim (lookup want have) [
  | none ↦
      some (reject err_insufficient_scope (errorf (str "missing scope %q") (str_arg want ∷ [])))
  | some _ ↦ require_each required have
]

unfoldable pub require_scopes : List Str → ClaimVerifier
unfolding require_each token_scopes
require_scopes [] ctx tok = none
require_scopes (s ∷ required) ctx tok =
    require_each (s ∷ required) (token_scopes (scopes_from_token tok) [])

unfoldable pub has_scopes : List Str → Authorizer
unfolding check_all add_scopes
has_scopes [] ctx c = none
has_scopes (s ∷ required) ctx c = check_all (s ∷ required) (add_scopes c.scopes [])

unfoldable pub has_any_scope : List Str → Authorizer
unfolding check_any add_scopes
has_any_scope [] ctx c = none
has_any_scope (s ∷ scopes) ctx c =
    if check_any (s ∷ scopes) (add_scopes c.scopes [])
    then none
    else some (reject err_insufficient_scope (none_of_scopes (s ∷ scopes)))

unfoldable pub has_claim : Str → Str → Authorizer
has_claim name value ctx c = elim (lookup name c.raw) [
  | none ↦ some (reject err_forbidden (claim_differs name value))
  | some got ↦ if got == value then none else some (reject err_forbidden (claim_differs name value))
]

unfoldable pub all_of : List Authorizer → Authorizer
all_of [] ctx c = none
all_of (a ∷ authorizers) ctx c = first_error (a ctx c) (all_of authorizers ctx c)

unfoldable pub any_of : List Authorizer → Authorizer
any_of [] ctx c = some (reject err_forbidden (new_error "no authorizer allowed the request"))
any_of (a ∷ authorizers) ctx c = elim (a ctx c) [ none ↦ none | some _ ↦ any_of authorizers ctx c ]

unfoldable pub allow_all : Authorizer
allow_all ctx c = none

unfoldable pub deny_all : Authorizer
deny_all ctx c = some (to_error err_forbidden)
