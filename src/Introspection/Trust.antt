-- ===== src/Introspection/Trust.antt =====
-- introspection: where the claims of an accepted token come from, over a run of calls with a cache.
use mcp_auth_go.Prelude.{
  Str, Option, none, some, List, [], ◌∷◌, lookup, Time, Duration, ◌≡◌, ◌≢◌, ◌⊎◌, inl, inr, Has,
}
use mcp_auth_go.Core.Errors.{ok}
use mcp_auth_go.Core.Claims.{Claims}
use mcp_auth_go.Introspection.Response.{claims_of}
use mcp_auth_go.Introspection.Cache.{MemoryCache, memory_cache, new_memory_cache}
use mcp_auth_go.Introspection.Entries.{entry, new_cache, source_of, entry-introspect}
use mcp_auth_go.Introspection.Verdicts.{Accepted}
use mcp_auth_go.Introspection.{Validator, introspect}

-- A call of `Validate`.
pub record Call : Type 0 where
  pub bearer : Str
  pub now : Time
  pub clock : Time

module _ (digest : Str → Str) where
  module _ {W : Type 0} (v : Validator W) where
    Accepted-audience :
        (w : W) (bearer : Str) (now : Time) (claims : Claims)
        → Accepted v w bearer now claims
        → (claims.issuer ≡ v.issuer) × Has v.audience claims.audience
    unfolding claims_of
    Accepted-audience w bearer now claims (resp, body, a, (active, iss, aud, young), e) =
        rw e (iss, aud)

    -- The world and the cache after a run of calls, of which the latest stands first.
    unfoldable pub run : W → Option MemoryCache → List Call → W × Option MemoryCache
    run w st [] = (w, st)
    run w st (c ∷ earlier) =
        let (w', st') = run w st earlier in
        let (w'', st'', result) = introspect memory_cache digest v w' st' c.bearer c.now c.clock in
        (w'', st'')

    -- Some call of the run asked for a token with this digest, and the endpoint's answer to it was
    -- accepted with these claims.
    unfoldable pub Granted : W → Option MemoryCache → List Call → Str → Claims → Type 0
    Granted w st [] k claims = ⊥
    Granted w st (c ∷ earlier) k claims =
        ((digest c.bearer ≡ k) × Accepted v (run w st earlier).0 c.bearer c.now claims)
        ⊎ Granted w st earlier k claims

    entry-run :
        (w : W) (leeway : Option Duration) (calls : List Call) (k : Str) (claims : Claims)
        → entry (run w (new_cache leeway) calls).1 k ≡ some claims
        → Granted w (new_cache leeway) calls k claims
    unfolding run Granted new_memory_cache lookup
    entry-run w none [] k claims h = cc
    entry-run w (some leeway) [] k claims h = cc
    entry-run w leeway (c ∷ earlier) k claims h =
        let (w', st') = run w (new_cache leeway) earlier in
        elim (entry-introspect digest v w' st' c.bearer c.now c.clock k claims h) [
          | inl old ↦ inr (entry-run w leeway earlier k claims old)
          | inr new ↦ inl new
        ]

    Granted-audience :
        (w : W) (st : Option MemoryCache) (calls : List Call) (k : Str) (claims : Claims)
        → Granted w st calls k claims
        → (claims.issuer ≡ v.issuer) × Has v.audience claims.audience
    unfolding Granted
    Granted-audience w st [] k claims h = absurd h
    Granted-audience w st (c ∷ earlier) k claims h = elim h [
      | inl (at, new) ↦ Accepted-audience (run w st earlier).0 c.bearer c.now claims new
      | inr old ↦ Granted-audience w st earlier k claims old
    ]

    -- Whenever a token is accepted, after any run of calls that began with no cache or a new one, the
    -- endpoint has accepted it with these claims: it does so now, or it did so in an earlier call
    -- for a token with the same digest. In particular the claims name the configured issuer and audience.
    pub introspect-Granted :
        (w : W) (leeway : Option Duration) (calls : List Call) (c : Call) (claims : Claims)
        → (let (w', st') = run w (new_cache leeway) calls in
            (introspect memory_cache digest v w' st' c.bearer c.now c.clock).2 ≡ ok claims)
        → (c.bearer ≢ [])
          × (Accepted v (run w (new_cache leeway) calls).0 c.bearer c.now claims
              ⊎ Granted w (new_cache leeway) calls (digest c.bearer) claims)
          × (claims.issuer ≡ v.issuer)
          × Has v.audience claims.audience
    introspect-Granted w leeway calls c claims h =
        let (w', st') = run w (new_cache leeway) calls in
        let (present, source) = source_of digest v w' st' c.bearer c.now c.clock claims h in
        elim source [
          | inl new ↦
              let (iss, aud) = Accepted-audience w' c.bearer c.now claims new in
              (present, inl new, iss, aud)
          | inr old ↦
              let granted = entry-run w leeway calls (digest c.bearer) claims old in
              let (iss, aud) =
                Granted-audience w (new_cache leeway) calls (digest c.bearer) claims granted in
              (present, inr granted, iss, aud)
        ]
