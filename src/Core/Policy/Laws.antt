-- ===== src/Core/Policy/Laws.antt =====
-- verifier.go and authorizer.go: when each policy allows, and how it denies.
use mcp_auth_go.Prelude.{
  Str, eq_iff, true, none, some, List, [], ◌∷◌, GoMap, lookup, insert, lookup-insert, is_some, ◌≡◌,
  ◌↔◌, ◌⊎◌, inl, inr, All, Any, Has, arith, Option-cases,
}
use mcp_auth_go.Core.Errors.{
  GoError, new_error, is_error, reject, err_forbidden, err_insufficient_scope,
}
use mcp_auth_go.Core.Errors.Laws.{is_error-reject}
use mcp_auth_go.Core.Claims.{Claims}
use mcp_auth_go.Core.Context.{Ctx}
use mcp_auth_go.Core.Policy.{
  Authorizer, add_scopes, check_all, check_any, has_scopes, has_any_scope, has_claim, all_of,
  any_of, missing_scope, none_of_scopes,
}

-- The set `have` holds the scopes that went in.
lookup-add_scopes :
    (w : Str) (scopes : List Str) (have : GoMap (Unit {0}))
    → (is_some (lookup w (add_scopes scopes have)) ≡ true)
      ↔ (Has w scopes ⊎ (is_some (lookup w have) ≡ true))
unfolding add_scopes
lookup-add_scopes w [] have = ground arith
lookup-add_scopes w (s ∷ scopes) have =
    ground
      (arith, eq_iff s w, lookup-insert s w tt have, lookup-add_scopes w scopes (insert s tt have))

pub lookup-scopes :
    (w : Str) (scopes : List Str)
    → (is_some (lookup w (add_scopes scopes [])) ≡ true) ↔ Has w scopes
unfolding lookup
lookup-scopes w scopes = ground (arith, lookup-add_scopes w scopes [])

check_all_iff :
    (required scopes : List Str)
    → (check_all required (add_scopes scopes []) ≡ none) ↔ All (λ s. Has s scopes) required
unfolding check_all
check_all_iff [] scopes = ground arith
check_all_iff (w ∷ required) scopes =
    ground (arith, lookup-scopes w scopes, check_all_iff required scopes)

-- The scope that a denial names is a required one that the caller lacks.
check_all-denies :
    (required scopes : List Str) (e : GoError)
    → check_all required (add_scopes scopes []) ≡ some e
    → Any (λ w. (e ≡ reject err_insufficient_scope (missing_scope w)) × ¬ Has w scopes) required
unfolding check_all
check_all-denies [] scopes e h = cc
check_all-denies (w ∷ required) scopes e h =
    ground (arith, lookup-scopes w scopes, check_all-denies required scopes e)

check_any_iff :
    (wanted scopes : List Str)
    → (check_any wanted (add_scopes scopes []) ≡ true) ↔ Any (λ s. Has s scopes) wanted
unfolding check_any
check_any_iff [] scopes = ground arith
check_any_iff (w ∷ wanted) scopes =
    ground (arith, lookup-scopes w scopes, check_any_iff wanted scopes)

-- `HasScopes` allows exactly the callers that hold every required scope; a denial is
-- `insufficient_scope` and its cause names a required scope that the caller lacks.
pub has_scopes_lem :
    (required : List Str) (ctx : Ctx) (c : Claims)
    → ((has_scopes required ctx c ≡ none) ↔ All (λ s. Has s c.scopes) required)
      × ((e : GoError)
          → has_scopes required ctx c ≡ some e
          → Any
              (λ w. (e ≡ reject err_insufficient_scope (missing_scope w)) × ¬ Has w c.scopes)
              required)
unfolding has_scopes
has_scopes_lem [] ctx c = (ground arith, λ e h. cc)
has_scopes_lem (s ∷ required) ctx c =
    (check_all_iff (s ∷ required) c.scopes, check_all-denies (s ∷ required) c.scopes)

-- `HasAnyScope` allows exactly when no scope is wanted or the caller holds one of those wanted;
-- a denial is `insufficient_scope`.
pub has_any_scope_lem :
    (wanted : List Str) (ctx : Ctx) (c : Claims)
    → ((has_any_scope wanted ctx c ≡ none) ↔ ((wanted ≡ []) ⊎ Any (λ s. Has s c.scopes) wanted))
      × ((e : GoError)
          → has_any_scope wanted ctx c ≡ some e
          → is_error err_insufficient_scope e ≡ true)
unfolding has_any_scope
has_any_scope_lem [] ctx c = (ground arith, λ e h. cc)
has_any_scope_lem (s ∷ wanted) ctx c = (
  ground (arith, check_any_iff (s ∷ wanted) c.scopes),
  λ e h. ground (arith, is_error-reject err_insufficient_scope (none_of_scopes (s ∷ wanted))),
)

-- `HasClaim` allows exactly when the raw string claim has the value.
pub has_claim_iff :
    (name value : Str) (ctx : Ctx) (c : Claims)
    → (has_claim name value ctx c ≡ none) ↔ (lookup name c.raw ≡ some value)
unfolding has_claim
has_claim_iff name value ctx c = elim (Option-cases (lookup name c.raw)) [
  | inl e ↦ ground arith
  | inr (got, e) ↦ ground (arith, eq_iff got value)
]

all_of_iff :
    (list : List Authorizer) (ctx : Ctx) (c : Claims)
    → (all_of list ctx c ≡ none) ↔ All (λ a. a ctx c ≡ none) list
unfolding all_of
all_of_iff [] ctx c = ground arith
all_of_iff (a ∷ list) ctx c = ground (arith, all_of_iff list ctx c)

any_of_iff :
    (list : List Authorizer) (ctx : Ctx) (c : Claims)
    → (any_of list ctx c ≡ none) ↔ Any (λ a. a ctx c ≡ none) list
unfolding any_of
any_of_iff [] ctx c = ground arith
any_of_iff (a ∷ list) ctx c = ground (arith, any_of_iff list ctx c)

-- The first denial of a list of authorizers, after authorizers that allow.
abbrev pub DeniesFirst : Ctx → Claims → GoError → List Authorizer → Type 0
DeniesFirst ctx c e [] = ⊥
DeniesFirst ctx c e (a ∷ list) = (a ctx c ≡ some e) ⊎ ((a ctx c ≡ none) × DeniesFirst ctx c e list)

all_of-DeniesFirst :
    (list : List Authorizer) (ctx : Ctx) (c : Claims) (e : GoError)
    → (all_of list ctx c ≡ some e) ↔ DeniesFirst ctx c e list
unfolding all_of
all_of-DeniesFirst [] ctx c e = ground arith
all_of-DeniesFirst (a ∷ list) ctx c e = ground (arith, all_of-DeniesFirst list ctx c e)

any_of-forbidden :
    (list : List Authorizer) (ctx : Ctx) (c : Claims) (e : GoError)
    → any_of list ctx c ≡ some e
    → is_error err_forbidden e ≡ true
unfolding any_of
any_of-forbidden [] ctx c e h =
    ground (arith, is_error-reject err_forbidden (new_error "no authorizer allowed the request"))
any_of-forbidden (a ∷ list) ctx c e h = ground (arith, any_of-forbidden list ctx c e)

-- `AllOf` allows exactly when every authorizer allows, and denies with an error exactly when some
-- authorizer denies with it behind authorizers that allow. `AnyOf` allows exactly when some
-- authorizer allows, and any denial of it is `forbidden`.
pub all_of-any_of :
    (list : List Authorizer) (ctx : Ctx) (c : Claims)
    → ((all_of list ctx c ≡ none) ↔ All (λ a. a ctx c ≡ none) list)
      × ((e : GoError) → (all_of list ctx c ≡ some e) ↔ DeniesFirst ctx c e list)
      × ((any_of list ctx c ≡ none) ↔ Any (λ a. a ctx c ≡ none) list)
      × ((e : GoError) → any_of list ctx c ≡ some e → is_error err_forbidden e ≡ true)
all_of-any_of list ctx c = (
  all_of_iff list ctx c,
  all_of-DeniesFirst list ctx c,
  any_of_iff list ctx c,
  any_of-forbidden list ctx c,
)
