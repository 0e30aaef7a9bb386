-- ===== src/Core/Validator/Routing.antt =====
-- multivalidator.go: the table of issuers, and which issuer's checks a token has passed.
use mcp_auth_go.Prelude.{
  ℕ, suc, Str, eq_iff, eq_refl, is_empty_iff, is_some, false, none, some, List, [], ◌∷◌, GoMap,
  lookup, insert, lookup-insert, ◌≡◌, ◌∙◌, ◌≢◌, ◌↔◌, ◌⊎◌, inl, inr, All, Any, arith, Option-cases,
  is_nil, none_of_is_some,
}
use mcp_auth_go.Core.Errors.{Result, ok, fail, fail_if}
use mcp_auth_go.Core.Errors.Laws.{>>=-eq-ok, fail_if-eq-ok, Result-cases}
use mcp_auth_go.Core.Claims.{Token, Claims}
use mcp_auth_go.Core.Context.{Ctx}
use mcp_auth_go.Core.Validator.{
  Jwx, ValidatorConfig, Validator, MultiValidator, new_validator, validate, wrap_issuer,
  add_issuers, new_multi_validator, unverified, route, validate_multi,
}
use mcp_auth_go.Core.Validator.Laws.{validate_lem, new_validator-bounds}

not_nil {ℓ} : {A : Type ℓ} (xs : List A) → is_nil xs ≡ false → xs ≢ []
not_nil [] h = cc
not_nil (x ∷ xs) h = λ e. cc

from_table :
    (P : ValidatorConfig → Type 0) (iss : Str) (v : Validator) (issuers : List ValidatorConfig)
    → (lookup iss [] ≡ some v) ⊎ Any P issuers
    → Any P issuers
unfolding lookup
from_table P iss v issuers (inl e) = cc
from_table P iss v issuers (inr a) = a

Any-map :
    {A : Type 0} (P Q : A → Type 0) (xs : List A) → ((x : A) → P x → Q x) → Any P xs → Any Q xs
Any-map P Q [] f h = h
Any-map P Q (x ∷ xs) f (inl p) = inl (f x p)
Any-map P Q (x ∷ xs) f (inr p) = inr (Any-map P Q xs f p)

module _ (j : Jwx) where
  -- The entry of an issuer is the validator built from its configuration.
  abbrev pub Serves : GoMap Validator → ValidatorConfig → Type 0
  Serves m ic = (v : Validator) × (lookup ic.issuer m ≡ some v) × (new_validator j ic ≡ ok v)

  -- An entry comes from the configuration of its issuer.
  abbrev pub Configured : Str → Validator → ValidatorConfig → Type 0
  Configured iss v ic = (ic.issuer ≡ iss) × (new_validator j ic ≡ ok v)

  wrap_issuer-eq-ok :
      (i : ℕ) (iss : Str) (r : Result Validator) (v : Validator)
      → wrap_issuer i iss r ≡ ok v
      → r ≡ ok v
  wrap_issuer-eq-ok i iss (ok w) v h = h
  wrap_issuer-eq-ok i iss (fail e) v h = cc

  -- One round of the loop.
  add_issuers_step :
      (i : ℕ) (ic : ValidatorConfig) (rest : List ValidatorConfig) (m m' : GoMap Validator)
      → add_issuers j i (ic ∷ rest) m ≡ ok m'
      → (v : Validator) × (lookup ic.issuer m ≡ none)
        × (new_validator j ic ≡ ok v)
        × (add_issuers j (suc i) rest (insert ic.issuer v m) ≡ ok m')
  unfolding add_issuers
  add_issuers_step i ic rest m m' h =
      let (_, dup, h1) = >>=-eq-ok (fail_if (is_some (lookup ic.issuer m)) _) _ h in
      let (v, made, h2) = >>=-eq-ok (wrap_issuer i ic.issuer (new_validator j ic)) _ h1 in
      (
        v,
        none_of_is_some _ (fail_if-eq-ok _ _ _ dup),
        wrap_issuer-eq-ok i ic.issuer (new_validator j ic) v made,
        h2,
      )

  -- The loop keeps what the table holds.
  add_issuers-keeps :
      (i : ℕ) (rest : List ValidatorConfig) (m m' : GoMap Validator) (iss : Str) (v : Validator)
      → add_issuers j i rest m ≡ ok m'
      → lookup iss m ≡ some v
      → lookup iss m' ≡ some v
  unfolding add_issuers
  add_issuers-keeps i [] m m' iss v h e = ground arith
  add_issuers-keeps i (ic ∷ rest) m m' iss v h e =
      let (w, new, made, h') = add_issuers_step i ic rest m m' h in
      add_issuers-keeps (suc i) rest (insert ic.issuer w m) m' iss v h'
        (ground (arith, eq_iff ic.issuer iss, lookup-insert ic.issuer iss w m))

  add_issuers-Serves :
      (i : ℕ) (rest : List ValidatorConfig) (m m' : GoMap Validator)
      → add_issuers j i rest m ≡ ok m'
      → All (Serves m') rest
  add_issuers-Serves i [] m m' h = tt
  add_issuers-Serves i (ic ∷ rest) m m' h =
      let (w, new, made, h') = add_issuers_step i ic rest m m' h in
      (
        (
          w,
          add_issuers-keeps (suc i) rest (insert ic.issuer w m) m' ic.issuer w h'
              (ground (arith, eq_refl ic.issuer, lookup-insert ic.issuer ic.issuer w m)),
          made,
        ),
        add_issuers-Serves (suc i) rest (insert ic.issuer w m) m' h',
      )

  add_issuers-Configured :
      (i : ℕ) (rest : List ValidatorConfig) (m m' : GoMap Validator) (iss : Str) (v : Validator)
      → add_issuers j i rest m ≡ ok m'
      → lookup iss m' ≡ some v
      → (lookup iss m ≡ some v) ⊎ Any (Configured iss v) rest
  unfolding add_issuers
  add_issuers-Configured i [] m m' iss v h e = inl (ground arith)
  add_issuers-Configured i (ic ∷ rest) m m' iss v h e =
      let (w, new, made, h') = add_issuers_step i ic rest m m' h in
      ground (
        arith,
        eq_iff ic.issuer iss,
        lookup-insert ic.issuer iss w m,
        add_issuers-Configured (suc i) rest (insert ic.issuer w m) m' iss v h' e,
      )

  -- A table that was built has an entry for every configured issuer, which is the validator built
  -- from its configuration, has no other entry, and was built from at least one issuer.
  pub new_multi_validator-table :
      (issuers : List ValidatorConfig) (m : MultiValidator)
      → new_multi_validator j issuers ≡ ok m
      → (issuers ≢ [])
        × All (Serves m.by_issuer) issuers
        × ((iss : Str) (v : Validator)
            → lookup iss m.by_issuer ≡ some v
            → Any (Configured iss v) issuers)
  unfolding new_multi_validator
  new_multi_validator-table issuers m h =
      let (_, some_issuer, h1) = >>=-eq-ok (fail_if (is_nil issuers) _) _ h in
      let (t, filled, h2) = >>=-eq-ok (add_issuers j 0 issuers []) _ h1 in
      let same : m.by_issuer ≡ t = ground arith in
      (
        not_nil issuers (fail_if-eq-ok _ _ _ some_issuer),
        rw same (add_issuers-Serves 0 issuers [] t filled),
        λ iss v e.
            from_table (Configured iss v) iss v issuers
              (add_issuers-Configured 0 issuers [] t iss v filled (rw same at e)),
      )

  -- What a configured issuer's validator has checked of an accepted bearer.
  abbrev pub AcceptedBy : Ctx → Str → Claims → Str → ValidatorConfig → Type 0
  AcceptedBy ctx bearer c iss ic =
      (ic.issuer ≡ iss)
      × ((v : Validator) × (new_validator j ic ≡ ok v) × (validate j v ctx bearer ≡ ok c))

  -- What an accepted bearer has passed through.
  abbrev pub Routed : MultiValidator → Ctx → Str → Claims → Token → Type 0
  Routed m ctx bearer c tok =
      (v : Validator) × (lookup tok.issuer m.by_issuer ≡ some v) × (validate j v ctx bearer ≡ ok c)

  validate_multi-Routed :
      (m : MultiValidator) (ctx : Ctx) (bearer : Str) (c : Claims)
      → validate_multi j m ctx bearer ≡ ok c
      → (tok : Token) × (j.parse_insecure bearer ≡ ok tok) × Routed m ctx bearer c tok
  unfolding validate_multi unverified route
  validate_multi-Routed m ctx bearer c h = elim (Result-cases (j.parse_insecure bearer)) [
    | inr (d, bad) ↦ absurd (ground arith)
    | inl (tok, read) ↦ elim (Option-cases (lookup tok.issuer m.by_issuer)) [
      | inl missing ↦ absurd (ground arith)
      | inr (v, found) ↦ (tok, read, (v, found, ground arith))
    ]
  ]

  Routed-validate_multi :
      (m : MultiValidator) (ctx : Ctx) (bearer : Str) (c : Claims) (tok : Token) (v : Validator)
      → j.parse_insecure bearer ≡ ok tok
      → bearer ≢ []
      → tok.issuer ≢ []
      → lookup tok.issuer m.by_issuer ≡ some v
      → validate j v ctx bearer ≡ ok c
      → validate_multi j m ctx bearer ≡ ok c
  unfolding validate_multi unverified route
  Routed-validate_multi m ctx bearer c tok v read b i found valid =
      ground (arith, is_empty_iff bearer, is_empty_iff tok.issuer)

  Serves-AcceptedBy :
      (t : GoMap Validator) (ctx : Ctx) (bearer : Str) (c : Claims) (iss : Str)
      (issuers : List ValidatorConfig)
      → All (Serves t) issuers
      → Any (AcceptedBy ctx bearer c iss) issuers
      → (v : Validator) × (lookup iss t ≡ some v) × (validate j v ctx bearer ≡ ok c) × (iss ≢ [])
  Serves-AcceptedBy t ctx bearer c iss [] a h = absurd h
  Serves-AcceptedBy t ctx bearer c iss (ic ∷ issuers) a (inr h) =
      Serves-AcceptedBy t ctx bearer c iss issuers a.1 h
  Serves-AcceptedBy t ctx bearer c iss (ic ∷ issuers) ((w, found, made), a)
        (inl (e, (v, new, valid))) =
      let same : v ≡ w = cc in
      (v, rw (← e) (rw same found), valid, λ n. (new_validator-bounds j ic v new).3 (e ∙ n))

  -- A multi-issuer validator accepts a bearer with claims `c` exactly when the bearer parses
  -- without verification and the validator of a configured issuer, the one named by the token's
  -- issuer claim, accepts it with `c`.
  pub validate_multi_iff :
      (issuers : List ValidatorConfig) (m : MultiValidator) (ctx : Ctx) (bearer : Str) (c : Claims)
      → new_multi_validator j issuers ≡ ok m
      → (validate_multi j m ctx bearer ≡ ok c) ↔ (
          (tok : Token) × (j.parse_insecure bearer ≡ ok tok)
          × Any (AcceptedBy ctx bearer c tok.issuer) issuers)
  validate_multi_iff issuers m ctx bearer c h =
      let table = new_multi_validator-table issuers m h in
      (
        λ valid.
            let (tok, read, (v, found, checked)) = validate_multi-Routed m ctx bearer c valid in
            (
              tok,
              read,
              Any-map (Configured tok.issuer v) (AcceptedBy ctx bearer c tok.issuer) issuers
                  (λ ic (e, made). (e, (v, made, checked))) (table.2 tok.issuer v found),
            ),
        λ (tok, read, accepted).
            let (v, found, checked, named) =
              Serves-AcceptedBy m.by_issuer ctx bearer c tok.issuer issuers table.1 accepted in
            Routed-validate_multi m ctx bearer c tok v read
              (((validate_lem j v ctx bearer).0 c).0 checked).present named found checked,
      )
