-- ===== src/Introspection/Response.antt =====
-- introspection/introspection.go: the response of the endpoint, the `aud` member, and the claims that
-- a response stands for. The decoder of encoding/json is a parameter: `Body` is what it makes of the
-- bytes of a body, with the bytes of `aud` and of the members of the second pass as JSON values.
use mcp_auth_go.Prelude.{
  ◌+◌, ◌%◌, ◌^◌, Str, str, ◌==◌, Bool, true, false, Option, none, some, List, [], ◌∷◌, GoMap,
  insert, lookup, lookup-insert, IsMap, eq_iff, Option-cases, inl, inr, ◌≡◌, refl, arith, any, Time,
  ℤ, pos, negsuc, unix, ◌-ℤ◌, positive, ltb, if◌then◌else◌,
}
use mcp_auth_go.Core.Errors.{GoError, new_error, Result, ok, fail, ◌>>=◌}
use mcp_auth_go.Core.Claims.{Claims}
use mcp_auth_go.Exchange.Strings.{fields}

mutual
  pub data Json : Type 0 where
    null : Json
    text : Str → Json
    array : Items → Json
    other : Json

  pub data Items : Type 0 where
    end : Items
    item : Json → Items → Items

-- The response as the decoder leaves it, before `UnmarshalJSON` has seen `aud`.
pub record Body : Type 0 where
  pub active : Bool
  pub scope : Str
  pub sub : Str
  pub iss : Str
  pub aud : Option Json
  -- The decoder's error for an `aud` that is an array of something else than strings.
  pub aud_error : GoError
  pub exp : ℤ
  pub iat : ℤ
  pub email : Str
  pub jkt : Str
  -- `json.Unmarshal(body, &rest)`, where it succeeds.
  pub members : Option (GoMap Json)

pub record IntrospectionResponse : Type 0 where
  pub active : Bool
  pub scope : Str
  pub sub : Str
  pub iss : Str
  pub aud : List Str
  pub exp : ℤ
  pub iat : ℤ
  pub email : Str
  pub jkt : Str

-- `var s string; json.Unmarshal(raw, &s)`, where it succeeds. A null leaves `s` empty.
unfoldable pub as_string : Json → Option Str
as_string null = some []
as_string (text s) = some s
as_string (array js) = none
as_string other = none

-- `var arr []string; json.Unmarshal(trimmed, &arr)`, where it succeeds.
unfoldable pub as_strings : Items → Option (List Str)
unfolding as_string
as_strings end = some []
as_strings (item j js) =
    let rest = as_strings js in
    elim (as_string j) [
      | none ↦ none
      | some s ↦ elim rest [ none ↦ none | some ss ↦ some (s ∷ ss) ]
    ]

-- `UnmarshalJSON` of `audience`, with the decoder's error for what is not an array of strings.
unfoldable pub unmarshal_aud : GoError → Json → Result (List Str)
unfolding as_strings
unmarshal_aud err null = ok []
unmarshal_aud err (text s) = ok (s ∷ [])
unmarshal_aud err (array js) = elim (as_strings js) [ none ↦ fail err | some ss ↦ ok ss ]
unmarshal_aud err other = fail (new_error "aud must be a string or array of strings")

-- The member `aud`, which is left nil where the body has none.
unfoldable pub aud_of : Body → Result (List Str)
aud_of b = elim b.aud [ none ↦ ok [] | some j ↦ unmarshal_aud b.aud_error j ]

-- `json.Unmarshal(body, &ir)`.
unfoldable pub response : Body → Result IntrospectionResponse
response b = do
  aud ← aud_of b
  ok (record {
    active = b.active;
    scope = b.scope;
    sub = b.sub;
    iss = b.iss;
    aud = aud;
    exp = b.exp;
    iat = b.iat;
    email = b.email;
    jkt = b.jkt;
  })

-- The loop of `audienceContains`.
unfoldable pub audience_contains : List Str → Str → Bool
audience_contains [] want = false
audience_contains (a ∷ auds) want = if a == want then true else audience_contains auds want

unfoldable pub extracted_keys : List Str
extracted_keys =
    str "active"
    ∷ str "scope"
    ∷ str "sub"
    ∷ str "iss"
    ∷ str "aud"
    ∷ str "exp"
    ∷ str "iat"
    ∷ str "nbf"
    ∷ str "email"
    ∷ str "cnf"
    ∷ str "token_type"
    ∷ str "client_id"
    ∷ str "username"
    ∷ str "jti"
    ∷ str "error"
    ∷ str "error_description"
    ∷ []

-- `_, skip := extractedKeys[k]`.
unfoldable pub skips : Str → Bool
skips k = any (λ x. x == k) extracted_keys

-- One round of the second pass.
unfoldable pub capture : Str → Json → GoMap Str → GoMap Str
capture k j raw =
    if skips k then raw else elim (as_string j) [ none ↦ raw | some s ↦ insert k s raw ]

-- The loop of the second pass.
unfoldable pub capture_all : GoMap Json → GoMap Str → GoMap Str
capture_all [] raw = raw
capture_all ((k, j) ∷ rest) raw = capture_all rest (capture k j raw)

-- `time.Time{}`, the first instant of the year 1.
unfoldable pub zero_time : Time
zero_time = unix (negsuc 62135596799)

-- `time.Unix(sec, 0)` for `0 < sec`, whose count of seconds from the year 1 wraps around at 64 bits.
unfoldable pub unix64 : ℤ → Time
unix64 (negsuc n) = unix (negsuc n)
unix64 (pos n) =
    let r = (n + 62135596800) % 2 ^ 64 in
    if ltb r (2 ^ 63)
    then unix (pos r -ℤ pos 62135596800)
    else unix (pos r -ℤ pos (2 ^ 64 + 62135596800))

-- `if sec > 0 { t = time.Unix(sec, 0) }`.
unfoldable pub instant : ℤ → Time
instant sec = if positive sec then unix64 sec else zero_time

unfoldable pub claims_of : IntrospectionResponse → Option (GoMap Json) → Claims
claims_of r members = record {
  subject = r.sub;
  email = r.email;
  issuer = r.iss;
  audience = r.aud;
  expires_at = instant r.exp;
  issued_at = instant r.iat;
  scopes = fields r.scope;
  confirmation = r.jkt;
  raw = elim members [ none ↦ [] | some rest ↦ capture_all rest [] ];
}

lookup-capture :
    (k i : Str) (j : Json) (raw : GoMap Str)
    → lookup k (capture i j raw) ≡ (
        if i == k
        then (if skips k
            then lookup k raw
            else elim (as_string j) [ none ↦ lookup k raw | some s ↦ some s ])
        else lookup k raw)
unfolding capture
lookup-capture k i j raw = elim (Option-cases (as_string j)) [
  | inl e ↦ rw e (ground (arith, eq_iff i k))
  | inr (s, e) ↦ rw e (ground (arith, eq_iff i k, lookup-insert i k s raw))
]

-- What a member of the response leaves in `Raw`: the member's string, or the empty string for a null,
-- unless its name is one that the validator extracts or drops; and nothing else is there.
pub lookup-capture_all :
    (k : Str) (m : GoMap Json) (raw : GoMap Str)
    → IsMap m
    → lookup k (capture_all m raw) ≡ elim (lookup k m) [
      | none ↦ lookup k raw
      | some j ↦
          if skips k
          then lookup k raw
          else elim (as_string j) [ none ↦ lookup k raw | some s ↦ some s ]
    ]
unfolding capture_all capture lookup
lookup-capture_all k [] raw d = refl
lookup-capture_all k ((i, j) ∷ m) raw d =
    ground
      (arith, eq_iff i k, lookup-capture_all k m (capture i j raw) d.1, lookup-capture k i j raw)
