-- ===== src/Core/Policy/Tests.antt =====
-- verifier.go and authorizer.go: the theorems at concrete policies and callers.
use mathlib.Core.List.{Permᴰ}
use mcp_auth_go.Prelude.{
  Str, str, ◌==◌, Option, none, some, List, [], ◌∷◌, GoMap, lookup, insert, pos, ◌≡◌, refl, inl,
  inr, if◌then◌else◌,
}
use mcp_auth_go.Core.Errors.{reject, err_insufficient_scope}
use mcp_auth_go.Core.Claims.{Value, text, Token, Claims, claims_from_token}
use mcp_auth_go.Core.Context.{background}
use mcp_auth_go.Core.Policy.{
  missing_scope, add_scopes, check_all, check_any, verify_required_string_claims, require_scopes,
  has_scopes, has_any_scope, has_claim, all_of, any_of, allow_all, deny_all,
}
use mcp_auth_go.Core.Policy.Laws.{has_scopes_lem, has_any_scope_lem, all_of-any_of}
use mcp_auth_go.Core.Policy.Scopes.{require_scopes-has_scopes}
use mcp_auth_go.Core.Policy.Order.{verify_required_string_claims_lem}

policies : Unit {0}
unfolding add_scopes check_all check_any require_scopes has_scopes has_any_scope has_claim all_of
    any_of allow_all deny_all verify_required_string_claims lookup insert ◌==◌
policies = tt

abbrev reader : Claims
reader = record {
  subject = str "ann";
  email = [];
  issuer = str "https://idp";
  audience = [];
  expires_at = pos 60;
  issued_at = pos 0;
  scopes = str "read" ∷ [];
  confirmation = [];
  raw = (str "tier", str "gold") ∷ [];
}

abbrev gold_get : Str → Option Value
gold_get k =
    if k == str "tier"
    then some (text (str "gold"))
    else if k == str "team"
    then some (text (str "core"))
    else if k == str "scope"
    then some (text (str "read"))
    else none

abbrev gold : Token
gold = record {
  subject = str "ann";
  issuer = str "https://idp";
  audience = [];
  expiration = pos 60;
  issued_at = pos 0;
  get = gold_get;
  private_claims = [];
}

abbrev wanted : List Str
wanted = str "read" ∷ str "write" ∷ []

decisions :
    (has_scopes wanted background reader
      ≡ some (reject err_insufficient_scope (missing_scope (str "write"))))
    × (has_any_scope wanted background reader ≡ none)
    × (has_claim (str "tier") (str "gold") background reader ≡ none)
    × (any_of (deny_all ∷ has_any_scope wanted ∷ []) background reader ≡ none)
unfolding policies
decisions = (refl, refl, refl, refl)

has_scopes_lem_sample : has_scopes (str "read" ∷ []) background reader ≡ none
has_scopes_lem_sample = (has_scopes_lem (str "read" ∷ []) background reader).0.1 (inl refl, tt)

require_scopes-has_scopes_example :
    has_scopes wanted background (claims_from_token gold) ≡ require_scopes wanted background gold
require_scopes-has_scopes_example = (require_scopes-has_scopes wanted background gold).2

has_any_scope_lem_sample : has_any_scope wanted background reader ≡ none
has_any_scope_lem_sample = (has_any_scope_lem wanted background reader).0.1 (inr (inl (inl refl)))

all_of-any_of_sample : any_of (deny_all ∷ allow_all ∷ []) background reader ≡ none
unfolding allow_all
all_of-any_of_sample =
    (all_of-any_of (deny_all ∷ allow_all ∷ []) background reader).2.1 (inr (inl refl))

abbrev tier_team : GoMap Str
tier_team = (str "tier", str "gold") ∷ (str "team", str "core") ∷ []

abbrev team_tier : GoMap Str
team_tier = (str "team", str "core") ∷ (str "tier", str "gold") ∷ []

verify_required_string_claims_lem_sample :
    verify_required_string_claims team_tier background gold ≡ none
unfolding policies
verify_required_string_claims_lem_sample =
    (verify_required_string_claims_lem tier_team background gold).2 team_tier (Permᴰ.swap refl refl)
      refl
