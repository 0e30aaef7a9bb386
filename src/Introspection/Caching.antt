-- ===== src/Introspection/Caching.antt =====
-- introspection/introspection.go: how long a verdict is served without the endpoint being asked.
use mcp_auth_go.Prelude.{
  Str, Bool, true, false, Option, none, some, [], delete, Time, ◌-ℤ◌, before, positive,
  if◌then◌else◌, ◌≡◌, ◌≢◌, refl, sym, ap, ◌∙◌, arith,
}
use mcp_auth_go.Core.Errors.{ok}
use mcp_auth_go.Core.Claims.{Claims}
use mcp_auth_go.Introspection.Response.{Body, IntrospectionResponse, claims_of, instant, unix64}
use mcp_auth_go.Introspection.Cache.{
  IntrospectionCache, MemoryCache, memory_cache, get, set, is_fresh, get-set,
}
use mcp_auth_go.Introspection.Answers.{Answered, Passes, do_introspect_iff}
use mcp_auth_go.Introspection.Verdicts.{introspect-miss, introspect-hit, conclude-passed}
use mcp_auth_go.Introspection.{
  Validator, token_form, do_introspect, look, keep_verdict, conclude, ask, introspect,
}

-- A call that the endpoint's answer lets pass.
module _ (ch : IntrospectionCache) (digest : Str → Str) {W : Type 0} where
  pub introspect-passed :
      (v : Validator W) (w : W) (st : Option ch.State) (bearer : Str) (now clock : Time)
      (resp : IntrospectionResponse) (body : Body)
      → bearer ≢ []
      → (look ch digest st clock bearer).1 ≡ none
      → Answered v w (token_form bearer v.hint) resp body
      → Passes v resp now
      → introspect ch digest v w st bearer now clock ≡ (
        (do_introspect v w (token_form bearer v.hint)).0,
        keep_verdict ch digest
            (look ch digest st clock bearer).0
            bearer
            resp
            (claims_of resp body.members),
        ok (claims_of resp body.members),
      )
  unfolding ask
  introspect-passed v w st bearer now clock resp body present miss answer p =
      let st' = (look ch digest st clock bearer).0 in
      let done = (do_introspect_iff v w (token_form bearer v.hint) resp body).1 answer in
      let c : conclude ch digest v st' bearer (do_introspect v w (token_form bearer v.hint)).1 now
          ≡ (
            keep_verdict ch digest st' bearer resp (claims_of resp body.members),
            ok (claims_of resp body.members),
          ) =
        rw done (conclude-passed ch digest v st' bearer resp body now p) in
      introspect-miss ch digest v w st bearer now clock present miss
      ∙ rw (ap (λ x. x.0) c, ap (λ x. x.1) c) refl

module _ (digest : Str → Str) where
  abbrev pub stored : MemoryCache → Time → Str → IntrospectionResponse → Body → MemoryCache
  stored c clock bearer resp body =
      set (get c clock (digest bearer)).0 (digest bearer) (claims_of resp body.members)

  keep-stored :
      (c : MemoryCache) (clock : Time) (bearer : Str) (resp : IntrospectionResponse) (body : Body)
      → positive resp.exp ≡ true
      → keep_verdict memory_cache digest
          (look memory_cache digest (some c) clock bearer).0
          bearer
          resp
          (claims_of resp body.members)
        ≡ some (stored c clock bearer resp body)
  unfolding keep_verdict look
  keep-stored c clock bearer resp body e = rw e refl

  get-leeway : (c : MemoryCache) (key : Str) (now : Time) → (get c now key).0.leeway ≡ c.leeway
  unfolding get
  get-leeway c key now = ground arith

  fresh-stored :
      (c : MemoryCache) (clock clock' : Time) (bearer : Str) (resp : IntrospectionResponse)
      (body : Body)
      → positive resp.exp ≡ true
      → is_fresh (get c clock (digest bearer)).0 clock' (claims_of resp body.members)
        ≡ before clock' (unix64 resp.exp -ℤ c.leeway)
  unfolding is_fresh claims_of instant
  fresh-stored c clock clock' bearer resp body e = rw (e, get-leeway c (digest bearer) clock) refl

  -- The cache without its entry for the token.
  abbrev pub forget : MemoryCache → Str → MemoryCache
  forget c bearer = record c { items = delete (digest bearer) c.items }

  look-stored :
      (c : MemoryCache) (clock clock' : Time) (bearer : Str) (resp : IntrospectionResponse)
      (body : Body)
      → positive resp.exp ≡ true
      → (let c' = stored c clock bearer resp body in
          get c' clock' (digest bearer) ≡ (
            if before clock' (unix64 resp.exp -ℤ c.leeway)
            then (c', some (claims_of resp body.members))
            else (forget c' bearer, none)))
  unfolding set
  look-stored c clock clock' bearer resp body e =
      let c0 = (get c clock (digest bearer)).0 in
      rw (sym (fresh-stored c clock clock' bearer resp body e))
        (get-set c0 (digest bearer) (claims_of resp body.members) clock')

  module _ {W : Type 0} where
    again :
        (v : Validator W) (w2 : W) (c' rest : MemoryCache) (claims : Claims) (bearer : Str)
        (now' clock' : Time) (young : Bool)
        → bearer ≢ []
        → get c' clock' (digest bearer) ≡ (if young then (c', some claims) else (rest, none))
        → introspect memory_cache digest v w2 (some c') bearer now' clock' ≡ (
            if young
            then (w2, some c', ok claims)
            else ask memory_cache digest v w2 (some rest) bearer now')
    unfolding look
    again v w2 c' rest claims bearer now' clock' true present found =
        introspect-hit memory_cache digest v w2 (some c') bearer now' clock' claims present
          (ap (λ x. x.1) found)
        ∙ rw (ap (λ x. x.0) found) refl
    again v w2 c' rest claims bearer now' clock' false present found =
        introspect-miss memory_cache digest v w2 (some c') bearer now' clock' present
          (ap (λ x. x.1) found)
        ∙ rw (ap (λ x. x.0) found) refl

    -- A cached token whose response had an expiry is accepted with the same claims and without the
    -- endpoint being asked as long as the leeway before that expiry has not begun; from then on the
    -- entry is removed, and the endpoint decides again.
    pub introspect-introspect :
        (v : Validator W) (w w2 : W) (c : MemoryCache) (bearer : Str) (now clock now' clock' : Time)
        (resp : IntrospectionResponse) (body : Body)
        → bearer ≢ []
        → (get c clock (digest bearer)).1 ≡ none
        → Answered v w (token_form bearer v.hint) resp body
        → Passes v resp now
        → positive resp.exp ≡ true
        → (let first = introspect memory_cache digest v w (some c) bearer now clock in
            let c' = stored c clock bearer resp body in
            (first.1 ≡ some c')
            × (first.2 ≡ ok (claims_of resp body.members))
            × (introspect memory_cache digest v w2 first.1 bearer now' clock' ≡ (
                if before clock' (unix64 resp.exp -ℤ c.leeway)
                then (w2, first.1, first.2)
                else ask memory_cache digest v w2 (some (forget c' bearer)) bearer now')))
    unfolding look
    introspect-introspect v w w2 c bearer now clock now' clock' resp body present miss answer p e =
        let c' = stored c clock bearer resp body in
        let d =
          introspect-passed memory_cache digest v w (some c) bearer now clock resp body present miss
            answer p in
        let s1 = ap (λ x. x.1) d ∙ keep-stored c clock bearer resp body e in
        let s2 = ap (λ x. x.2) d in
        (
          s1,
          s2,
          rw (s1, s2)
              (again v w2 c' (forget c' bearer) (claims_of resp body.members) bearer now' clock' _
                present (look-stored c clock clock' bearer resp body e)),
        )
