-- ===== src/Core/Claims/Tests.antt =====
-- claims.go: extraction from a sample token, and the theorems at it.
use mcp_auth_go.Prelude.{
  Str, str, ◌==◌, Option, some, [], ◌∷◌, GoMap, lookup, insert, if◌then◌else◌, pos, ◌≡◌, refl,
  ne_of_test,
}
use mcp_auth_go.Core.Claims.{
  Value, text, object, other, done, member, Token, get_member, split_scopes, is_extracted,
  scopes_from_token, claims_from_token,
}
use mcp_auth_go.Core.Claims.Laws.{raw-claims_from_token, confirmation-claims_from_token}

claims_code : Unit {0}
unfolding lookup insert ◌==◌ get_member split_scopes is_extracted scopes_from_token
    claims_from_token
claims_code = tt

abbrev private_of_ann : GoMap Value
private_of_ann =
    (str "email", text (str "a@x.io")) ∷ (str "tier", text (str "gold")) ∷ (str "n", other) ∷ []

abbrev get_of_ann : Str → Option Value
get_of_ann k =
    if k == str "cnf"
    then some (object (member (str "jkt") (text (str "thumb")) done))
    else if k == str "scope"
    then some (text (str " read  write "))
    else lookup k private_of_ann

abbrev pub token_of_ann : Token
token_of_ann = record {
  subject = str "ann";
  issuer = str "https://idp";
  audience = str "https://mcp" ∷ [];
  expiration = pos 60;
  issued_at = pos 0;
  get = get_of_ann;
  private_claims = private_of_ann;
}

extraction :
    (split_scopes (str " read  write ") ≡ str "read" ∷ str "write" ∷ [])
    × ((claims_from_token token_of_ann).scopes ≡ str "read" ∷ str "write" ∷ [])
    × ((claims_from_token token_of_ann).raw ≡ (str "tier", str "gold") ∷ [])
    × ((claims_from_token token_of_ann).confirmation ≡ str "thumb")
unfolding claims_code
extraction = (refl, refl, refl, refl)

raw-claims_from_token_sample :
    lookup (str "tier") (claims_from_token token_of_ann).raw ≡ some (str "gold")
unfolding lookup is_extracted ◌==◌
raw-claims_from_token_sample =
    raw-claims_from_token (str "tier") token_of_ann (refl, (refl, (refl, tt)))

confirmation-claims_from_token_sample : (claims_from_token token_of_ann).confirmation ≡ str "thumb"
unfolding lookup ◌==◌ get_member
confirmation-claims_from_token_sample =
    (confirmation-claims_from_token token_of_ann (str "thumb") (ne_of_test _ _ refl)).1
      (member (str "jkt") (text (str "thumb")) done, refl, refl)
