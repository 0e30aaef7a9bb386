-- ===== src/Core/Claims.antt =====
-- claims.go: the typed view of a validated token.
-- `Token` stands for jwx's `jwt.Token`: what its accessors return for one parsed token. `Value` is
-- a decoded JSON value, as far as the program looks into it.
pub mod Split
pub mod Laws
mod Tests
use mcp_auth_go.Prelude.{
  ℕ, suc, ◌+◌, Str, str, ◌==◌, eqb, Bool, ◌||◌, Option, none, some, List, [], ◌∷◌, ◌++◌, Time,
  GoMap, insert, if◌then◌else◌, slice,
}

mutual
  pub data Value : Type 0 where
    text : Str → Value
    array : Values → Value
    object : Members → Value
    other : Value

  pub data Values : Type 0 where
    end : Values
    item : Value → Values → Values

  pub data Members : Type 0 where
    done : Members
    member : Str → Value → Members → Members

pub record Token : Type 0 where
  pub subject : Str
  pub issuer : Str
  pub audience : List Str
  pub expiration : Time
  pub issued_at : Time
  pub get : Str → Option Value
  pub private_claims : GoMap Value

pub record Claims : Type 0 where
  pub subject : Str
  pub email : Str
  pub issuer : Str
  pub audience : List Str
  pub expires_at : Time
  pub issued_at : Time
  pub scopes : List Str
  pub confirmation : Str
  pub raw : GoMap Str

-- `s, ok := v.(string)`.
abbrev pub as_text : Value → Option Str
as_text (text s) = some s
as_text _ = none

unfoldable pub get_member : Str → Members → Option Value
get_member k done = none
get_member k (member j v m) = if j == k then some v else get_member k m

-- The loop of `splitScopes`: `i` counts the bytes read, `start` is where the open piece begins.
unfoldable pub split_loop : Str → Str → ℕ → Option ℕ → List Str → List Str
split_loop s [] i none out = out
split_loop s [] i (some start) out = out ++ slice s start i ∷ []
split_loop s (c ∷ rest) i none out =
    split_loop s rest (suc i) (if eqb c b' ' then none else some i) out
split_loop s (c ∷ rest) i (some start) out =
    split_loop s rest (suc i) (if eqb c b' ' then none else some start)
      (if eqb c b' ' then out ++ slice s start i ∷ [] else out)

unfoldable pub split_scopes : Str → List Str
unfolding split_loop
split_scopes s = split_loop s s 0 none []

-- The string items of an `scp` array.
unfoldable pub string_items : Values → List Str
string_items end = []
string_items (item (text s) vs) = s ∷ string_items vs
string_items (item v vs) = string_items vs

scope_scopes : Option Value → List Str
unfolding split_scopes
scope_scopes (some (text s)) = split_scopes s
scope_scopes _ = []

scp_scopes : Option Value → Option Value → List Str
unfolding scope_scopes string_items
scp_scopes (some (array vs)) scope = string_items vs
scp_scopes _ scope = scope_scopes scope

unfoldable pub scopes_from_token : Token → List Str
unfolding scp_scopes
scopes_from_token tok = scp_scopes (tok.get (str "scp")) (tok.get (str "scope"))

text_or_empty : Option Value → Str
text_or_empty (some (text s)) = s
text_or_empty _ = []

jkt_of : Option Value → Str
unfolding get_member text_or_empty
jkt_of (some (object m)) = text_or_empty (get_member (str "jkt") m)
jkt_of _ = []

unfoldable pub is_extracted : Str → Bool
is_extracted k = k == str "email" || k == str "scope" || k == str "scp"

-- One round of the loop over the private claims.
add_raw : Str → Option Str → GoMap Str → GoMap Str
add_raw k none raw = raw
add_raw k (some s) raw = insert k s raw

unfoldable pub raw_claims : GoMap Value → GoMap Str → GoMap Str
unfolding add_raw is_extracted
raw_claims [] raw = raw
raw_claims ((k, v) ∷ rest) raw =
    raw_claims rest (if is_extracted k then raw else add_raw k (as_text v) raw)

unfoldable pub claims_from_token : Token → Claims
unfolding scopes_from_token text_or_empty jkt_of raw_claims
claims_from_token tok = record {
  subject = tok.subject;
  email = text_or_empty (tok.get (str "email"));
  issuer = tok.issuer;
  audience = tok.audience;
  expires_at = tok.expiration;
  issued_at = tok.issued_at;
  scopes = scopes_from_token tok;
  confirmation = jkt_of (tok.get (str "cnf"));
  raw = raw_claims tok.private_claims [];
}
