-- ===== src/Core/Policy/Order.antt =====
-- verifier.go: the required claims are visited in the order of a Go map, which is unspecified.
use mathlib.Core.List.{Permᴰ}
use mcp_auth_go.Prelude.{
  Str, eq_iff, Option, none, some, [], ◌∷◌, GoMap, ◌≡◌, ◌↔◌, All, true, arith, subst,
}
use mcp_auth_go.Core.Errors.{GoError, is_error, err_forbidden}
use mcp_auth_go.Core.Errors.Laws.{is_error-reject}
use mcp_auth_go.Core.Claims.{Token, Value, text}
use mcp_auth_go.Core.Context.{Ctx}
use mcp_auth_go.Core.Policy.{
  check_claim, verify_required_string_claims, claim_missing, claim_differs,
}

-- The token carries the claim as a string of the wanted value.
abbrev pub Carries : Token → Str × Str → Type 0
Carries tok (name, want) = tok.get name ≡ some (text want)

check_claim_iff :
    (name want : Str) (v : Option Value) → (check_claim name want v ≡ none) ↔ (v ≡ some (text want))
unfolding check_claim
check_claim_iff name want none = ground arith
check_claim_iff name want (some (text got)) = ground (arith, eq_iff got want)
check_claim_iff name want (some _) = ground arith

check_claim-forbidden :
    (name want : Str) (v : Option Value) (e : GoError)
    → check_claim name want v ≡ some e
    → is_error err_forbidden e ≡ true
unfolding check_claim
check_claim-forbidden name want none e h =
    ground (arith, is_error-reject err_forbidden (claim_missing name))
check_claim-forbidden name want (some (text got)) e h =
    ground (arith, is_error-reject err_forbidden (claim_differs name want))
check_claim-forbidden name want (some _) e h =
    ground (arith, is_error-reject err_forbidden (claim_differs name want))

verify_required_string_claims_iff :
    (required : GoMap Str) (ctx : Ctx) (tok : Token)
    → (verify_required_string_claims required ctx tok ≡ none) ↔ All (Carries tok) required
unfolding verify_required_string_claims
verify_required_string_claims_iff [] ctx tok = ground arith
verify_required_string_claims_iff ((name, want) ∷ required) ctx tok = ground (
  arith,
  check_claim_iff name want (tok.get name),
  verify_required_string_claims_iff required ctx tok,
)

verify_required_string_claims-forbidden :
    (required : GoMap Str) (ctx : Ctx) (tok : Token) (e : GoError)
    → verify_required_string_claims required ctx tok ≡ some e
    → is_error err_forbidden e ≡ true
unfolding verify_required_string_claims
verify_required_string_claims-forbidden [] ctx tok e h = cc
verify_required_string_claims-forbidden ((name, want) ∷ required) ctx tok e h = ground (
  arith,
  check_claim-forbidden name want (tok.get name) e,
  verify_required_string_claims-forbidden required ctx tok e,
)

All-perm : (P : Str × Str → Type 0) {xs ys : GoMap Str} → Permᴰ xs ys → All P xs → All P ys
All-perm P Permᴰ.nil h = h
All-perm P (Permᴰ.cons e p) h = (subst P e h.0, All-perm P p h.1)
All-perm P (Permᴰ.swap e f) h = (subst P f h.1.0, (subst P e h.0, h.1.1))
All-perm P (Permᴰ.trans p q) h = All-perm P q (All-perm P p h)

-- The verifier allows exactly the tokens that carry every required claim as a string of the
-- required value, every denial of it is `forbidden`, and the order in which the map is visited
-- does not change whether it allows.
pub verify_required_string_claims_lem :
    (required : GoMap Str) (ctx : Ctx) (tok : Token)
    → ((verify_required_string_claims required ctx tok ≡ none) ↔ All (Carries tok) required)
      × ((e : GoError)
          → verify_required_string_claims required ctx tok ≡ some e
          → is_error err_forbidden e ≡ true)
      × ((visited : GoMap Str)
          → Permᴰ required visited
          → verify_required_string_claims required ctx tok ≡ none
          → verify_required_string_claims visited ctx tok ≡ none)
verify_required_string_claims_lem required ctx tok = (
  verify_required_string_claims_iff required ctx tok,
  verify_required_string_claims-forbidden required ctx tok,
  λ visited p h.
      (verify_required_string_claims_iff visited ctx tok).1
        (All-perm (Carries tok) p ((verify_required_string_claims_iff required ctx tok).0 h)),
)
