-- ===== src/Introspection/Entries.antt =====
-- introspection: what a call of `Validate` leaves in the cache, and what it finds there.
use mcp_auth_go.Prelude.{
  Str, eq_iff, Option, none, some, [], ◌∷◌, lookup, lookup-insert, lookup-delete, Time, Duration,
  ◌≡◌, ◌≢◌, refl, sym, ap, subst, ◌∙◌, ◌⊎◌, inl, inr, arith, Option-cases,
}
use mcp_auth_go.Core.Errors.{Result, ok, fail}
use mcp_auth_go.Core.Errors.Laws.{Result-cases}
use mcp_auth_go.Core.Claims.{Claims}
use mcp_auth_go.Introspection.Response.{Body, IntrospectionResponse, claims_of}
use mcp_auth_go.Introspection.Cache.{MemoryCache, memory_cache, new_memory_cache, get, set}
use mcp_auth_go.Introspection.Answers.{do_introspect_iff, verdict_iff}
use mcp_auth_go.Introspection.Verdicts.{
  Accepted, introspect-miss, introspect-hit, introspect_iff, conclude-passed, conclude-refused,
}
use mcp_auth_go.Introspection.{
  Validator, token_form, do_introspect, verdict, look, keep_verdict, conclude, ask, introspect,
}

-- What the cache, if there is one, holds for a key.
abbrev pub entry : Option MemoryCache → Str → Option Claims
entry none k = none
entry (some c) k = lookup k c.items

-- No cache, or a new one with this leeway.
abbrev pub new_cache : Option Duration → Option MemoryCache
new_cache none = none
new_cache (some leeway) = some (new_memory_cache leeway)

module _ (digest : Str → Str) where
  entry-look :
      (st : Option MemoryCache) (clock : Time) (bearer k : Str) (claims : Claims)
      → entry (look memory_cache digest st clock bearer).0 k ≡ some claims
      → entry st k ≡ some claims
  unfolding look get
  entry-look none clock bearer k claims h = h
  entry-look (some c) clock bearer k claims h =
      ground (arith, lookup-delete (digest bearer) k c.items)

  look-entry :
      (st : Option MemoryCache) (clock : Time) (bearer : Str) (claims : Claims)
      → (look memory_cache digest st clock bearer).1 ≡ some claims
      → entry st (digest bearer) ≡ some claims
  unfolding look get
  look-entry none clock bearer claims h = h
  look-entry (some c) clock bearer claims h = ground arith

  entry-keep :
      (st : Option MemoryCache) (bearer : Str) (resp : IntrospectionResponse) (new claims : Claims)
      (k : Str)
      → entry (keep_verdict memory_cache digest st bearer resp new) k ≡ some claims
      → (entry st k ≡ some claims) ⊎ ((digest bearer ≡ k) × (new ≡ claims))
  unfolding keep_verdict set
  entry-keep none bearer resp new claims k h = inl h
  entry-keep (some c) bearer resp new claims k h =
      ground (arith, eq_iff (digest bearer) k, lookup-insert (digest bearer) k new c.items)

  module _ {W : Type 0} (v : Validator W) where
    entry-conclude :
        (w : W) (st : Option MemoryCache) (bearer : Str)
        (res : Result (IntrospectionResponse × Body)) (now : Time) (k : Str) (claims : Claims)
        → (do_introspect v w (token_form bearer v.hint)).1 ≡ res
        → entry (conclude memory_cache digest v st bearer res now).0 k ≡ some claims
        → (entry st k ≡ some claims) ⊎ ((digest bearer ≡ k) × Accepted v w bearer now claims)
    unfolding conclude
    entry-conclude w st bearer (fail e) now k claims s h = inl h
    entry-conclude w st bearer (ok (resp, body)) now k claims s h =
        elim (Result-cases (verdict v resp now)) [
          | inl (passed, e) ↦
              let p = (verdict_iff v resp now).0 e in
              let new = claims_of resp body.members in
              let d =
                ap (λ x. x.0) (conclude-passed memory_cache digest v st bearer resp body now p) in
              let stored = subst (λ x. entry x k ≡ some claims) d h in
              elim (entry-keep st bearer resp new claims k stored) [
                | inl old ↦ inl old
                | inr (at, same) ↦ inr (
                  at,
                  (
                    resp,
                    body,
                    (do_introspect_iff v w (token_form bearer v.hint) resp body).0 s,
                    p,
                    sym same,
                  ),
                )
              ]
          | inr (err, e) ↦
              let d =
                ap (λ x. x.0)
                  (conclude-refused memory_cache digest v st bearer resp body now err e) in
              inl (subst (λ x. entry x k ≡ some claims) d h)
        ]

    -- The cache after a call holds what it held before, and what the call accepted.
    pub entry-introspect :
        (w : W) (st : Option MemoryCache) (bearer : Str) (now clock : Time) (k : Str)
        (claims : Claims)
        → entry (introspect memory_cache digest v w st bearer now clock).1 k ≡ some claims
        → (entry st k ≡ some claims) ⊎ ((digest bearer ≡ k) × Accepted v w bearer now claims)
    unfolding introspect ask
    entry-introspect w st [] now clock k claims h = inl h
    entry-introspect w st (c ∷ rest) now clock k claims h =
        let bearer = c ∷ rest in
        let present : bearer ≢ [] = (λ e. cc) in
        let looked = look memory_cache digest st clock bearer in
        elim (Option-cases looked.1) [
          | inl miss ↦
              let d =
                ap (λ x. x.1)
                  (introspect-miss memory_cache digest v w st bearer now clock present miss) in
              let stored = subst (λ x. entry x k ≡ some claims) d h in
              elim (entry-conclude w looked.0 bearer _ now k claims refl stored) [
                | inl old ↦ inl (entry-look st clock bearer k claims old)
                | inr new ↦ inr new
              ]
          | inr (found, hit) ↦
              let d =
                ap (λ x. x.1)
                  (introspect-hit memory_cache digest v w st bearer now clock found present hit) in
              inl (entry-look st clock bearer k claims (subst (λ x. entry x k ≡ some claims) d h))
        ]

    -- An accepted token was accepted by the endpoint, or its claims are in the cache.
    pub source_of :
        (w : W) (st : Option MemoryCache) (bearer : Str) (now clock : Time) (claims : Claims)
        → (introspect memory_cache digest v w st bearer now clock).2 ≡ ok claims
        → (bearer ≢ [])
          × (Accepted v w bearer now claims ⊎ (entry st (digest bearer) ≡ some claims))
    unfolding introspect
    source_of w st [] now clock claims h = cc
    source_of w st (c ∷ rest) now clock claims h =
        let bearer = c ∷ rest in
        let present : bearer ≢ [] = (λ e. cc) in
        elim (Option-cases (look memory_cache digest st clock bearer).1) [
          | inl miss ↦
              let (to, from) =
                introspect_iff memory_cache digest v w st bearer now clock claims miss in
              (present, inl (to h).1)
          | inr (found, hit) ↦
              let d =
                ap (λ x. x.2)
                  (introspect-hit memory_cache digest v w st bearer now clock found present hit) in
              let same : found ≡ claims = cc (d, h) in
              (present, inr (look-entry st clock bearer found hit ∙ ap some same))
        ]
