-- ===== src/Transport/Http/Bearer.antt =====
-- transport/http/middleware.go: the bearer token of a request, and the header on when to retry.
use mcp_auth_go.Prelude.{
  ℕ, suc, ◌+◌, ◌*◌, ◌≤◌, Str, str, eq_iff, eq_refl, is_empty, is_empty_iff, false, some, List, [],
  ◌∷◌, ◌++◌, map, take, drop, take-append, drop-append, take-drop-append, length, length-append,
  leb, lookup, lookup-insert, Duration, pos, pos_part, ◌<ℤ◌, ◌≤ℤ◌, second, ◌≡◌, ◌≢◌, refl, sym, ap,
  subst, ◌∙◌, ◌↔◌, arith,
}
use mcp_auth_go.Core.Errors.{ok}
use mcp_auth_go.Transport.Wire.{
  Request, header_get, decimal, Response, trim_space, reversed, trim_white,
}
use mcp_auth_go.Transport.Http.{fold, prefix, extract_bearer, ceil_seconds, set_retry_after}

-- The header is a scheme that reads `bearer ` in any case, and a text that is the token without
-- the white space around it.
pub record HoldsBearer (r : Request) (token : Str) : Type 0 where
  pub scheme : Str
  pub rest : Str
  pub whole : header_get r (str "Authorization") ≡ scheme ++ rest
  pub bearer : map fold scheme ≡ map fold prefix
  pub trimmed : trim_space rest ≡ token
  pub present : token ≢ []

length-map {ℓ κ} : {A : Type ℓ} {B : Type κ} (f : A → B) (l : List A) → length (map f l) ≡ length l
length-map f [] = refl
length-map f (x ∷ l) = ap suc (length-map f l)

not_empty : (s t : Str) → length s ≡ 7 → is_empty (s ++ t) ≡ false
not_empty [] t h = absurd (omega (arith, h))
not_empty (c ∷ s) t h = refl

present-test : (s : Str) → s ≢ [] → is_empty s ≡ false
present-test s h = ground (arith, is_empty_iff s)

nonempty-rest : (s : Str) → trim_space s ≢ [] → 1 ≤ length s
unfolding trim_space reversed trim_white
nonempty-rest [] h = absurd (h refl)
nonempty-rest (c ∷ s) h = omega arith

too_short : (s t : Str) → length s ≡ 7 → 1 ≤ length t → leb (length (s ++ t)) 7 ≡ false
too_short s t h k = ground (arith, length-append s t)

extract_bearer-eq :
    (r : Request) (scheme rest : Str)
    → header_get r (str "Authorization") ≡ scheme ++ rest
    → map fold scheme ≡ map fold prefix
    → trim_space rest ≢ []
    → extract_bearer r ≡ ok (trim_space rest)
unfolding extract_bearer
extract_bearer-eq r scheme rest whole bearer present =
    let len : length scheme ≡ 7 = sym (length-map fold scheme) ∙ ap length bearer in
    let t : take 7 (scheme ++ rest) ≡ scheme =
      ap (λ n. take n (scheme ++ rest)) (sym len) ∙ take-append scheme rest in
    let d : drop 7 (scheme ++ rest) ≡ rest =
      ap (λ n. drop n (scheme ++ rest)) (sym len) ∙ drop-append scheme rest in
    rw (
      whole,
      not_empty scheme rest len,
      too_short scheme rest len (nonempty-rest rest present),
      t,
      d,
      (eq_iff (map fold scheme) (map fold prefix)).1 bearer,
      present-test (trim_space rest) present,
    )

holds_bearer : (r : Request) (token : Str) → extract_bearer r ≡ ok token → HoldsBearer r token
unfolding extract_bearer
holds_bearer r token h =
    let header = header_get r (str "Authorization") in
    record {
      scheme = take 7 header;
      rest = drop 7 header;
      whole = sym (take-drop-append 7 header);
      bearer = ground (arith, eq_iff (map fold (take 7 header)) (map fold prefix));
      trimmed = ground arith;
      present = λ e. ground (arith, is_empty_iff (trim_space (drop 7 header)));
    }

-- A request yields a bearer token exactly when its Authorization header is the scheme Bearer, in any
-- case, a space, and the token with white space around it; and the token is not empty.
pub extract_bearer_iff :
    (r : Request) (token : Str) → (extract_bearer r ≡ ok token) ↔ HoldsBearer r token
extract_bearer_iff r token = (
  holds_bearer r token,
  λ b.
      extract_bearer-eq r b.scheme b.rest b.whole b.bearer
        (subst (λ t. t ≢ []) (sym b.trimmed) b.present)
      ∙ ap ok b.trimmed,
)

-- The response to a positive wait says to retry after that many seconds, rounded up to a whole
-- number, which is one at least.
pub set_retry_after_lem :
    (d : Duration) (w : Response)
    → pos 0 <ℤ d
    → (n : ℕ) × (lookup (str "Retry-After") (set_retry_after d w).headers ≡ some (decimal n))
      × (1 ≤ n)
      × (d ≤ℤ pos (n * second))
      × (pos (n * second) <ℤ pos (pos_part d + second))
unfolding set_retry_after
set_retry_after_lem d w h = (
  ceil_seconds d,
  ground (
    arith,
    eq_refl (str "Retry-After"),
    lookup-insert (str "Retry-After") (str "Retry-After") (decimal (ceil_seconds d)) w.headers,
  ),
  ground arith,
  ground arith,
  ground arith,
)
