-- ===== src/Core/Claims/Laws.antt =====
-- claims.go: what `claimsFromToken` copies and what it leaves out.
use mcp_auth_go.Prelude.{
  Str, str, ◌==◌, eq_iff, ◌≡◌, refl, Option, none, some, [], ◌∷◌, GoMap, lookup, lookup-insert,
  IsMap, if◌then◌else◌, arith, ◌↔◌, ◌≢◌, sym,
}
use mcp_auth_go.Core.Claims.{
  Value, text, object, Members, Token, as_text, add_raw, is_extracted, raw_claims,
  claims_from_token, get_member, text_or_empty, jkt_of,
}

-- The string value of a private claim.
abbrev pub string_claim : Option Value → Option Str
string_claim none = none
string_claim (some v) = as_text v

abbrev or_else : Option Str → Option Str → Option Str
or_else none b = b
or_else (some a) b = some a

lookup-add_raw :
    (k j : Str) (v : Option Str) (raw : GoMap Str)
    → lookup k (add_raw j v raw) ≡ (if j == k then or_else v (lookup k raw) else lookup k raw)
unfolding add_raw
lookup-add_raw k j none raw = ground arith
lookup-add_raw k j (some s) raw = lookup-insert j k s raw

lookup-raw_claims :
    (k : Str) (rest : GoMap Value) (raw : GoMap Str)
    → IsMap rest
    → lookup k (raw_claims rest raw) ≡ (
        if is_extracted k
        then lookup k raw
        else or_else (string_claim (lookup k rest)) (lookup k raw))
unfolding lookup raw_claims
lookup-raw_claims k [] raw d = ground arith
lookup-raw_claims k ((j, v) ∷ rest) raw d = ground (
  arith,
  eq_iff j k,
  lookup-add_raw k j (as_text v) raw,
  lookup-raw_claims k rest (if is_extracted j then raw else add_raw j (as_text v) raw) d.1,
)

-- `Raw` holds exactly the string-typed private claims of the token, `email`, `scope` and `scp`
-- left out.
pub raw-claims_from_token :
    (k : Str) (tok : Token)
    → IsMap tok.private_claims
    → lookup k (claims_from_token tok).raw
      ≡ (if is_extracted k then none else string_claim (lookup k tok.private_claims))
unfolding claims_from_token lookup
raw-claims_from_token k tok d = ground (arith, lookup-raw_claims k tok.private_claims [] d)

text_of_text_or_empty :
    (v : Option Value) (b : Str) → b ≢ [] → text_or_empty v ≡ b → v ≡ some (text b)
unfolding text_or_empty
text_of_text_or_empty none b h e = absurd (h (sym e))
text_of_text_or_empty (some (text s)) b h e = cc
text_of_text_or_empty (some _) b h e = absurd (h (sym e))

jkt_of-eq :
    (v : Option Value) (b : Str)
    → b ≢ []
    → jkt_of v ≡ b
    → (m : Members) × (v ≡ some (object m)) × (get_member (str "jkt") m ≡ some (text b))
unfolding jkt_of
jkt_of-eq none b h e = absurd (h (sym e))
jkt_of-eq (some (object m)) b h e =
    (m, refl, text_of_text_or_empty (get_member (str "jkt") m) b h e)
jkt_of-eq (some _) b h e = absurd (h (sym e))

-- A thumbprint that is not empty is the `jkt` string of the token's `cnf` object, and such a
-- string becomes the thumbprint: a token is bound exactly when it says so.
pub confirmation-claims_from_token :
    (tok : Token) (b : Str)
    → b ≢ []
    → ((claims_from_token tok).confirmation ≡ b) ↔ (
        (m : Members) × (tok.get (str "cnf") ≡ some (object m))
        × (get_member (str "jkt") m ≡ some (text b)))
unfolding claims_from_token
confirmation-claims_from_token tok b h =
    (jkt_of-eq (tok.get (str "cnf")) b h, λ (m, e, f). rw (e, jkt_of) (rw (f, text_or_empty)))
