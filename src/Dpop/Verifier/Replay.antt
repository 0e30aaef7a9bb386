-- ===== src/Dpop/Verifier/Replay.antt =====
-- dpop/verifier.go over dpop/replay.go: one proof on two requests, with the cache in memory.
use mcp_auth_go.Prelude.{
  Str, true, false, none, List, [], ◌∷◌, Time, ◌+ℤ◌, ◌≤ℤ◌, before, unix, ltb_ℤ_iff, ◌≡◌, refl, sym,
  ap, subst, ◌∙◌, ◌≢◌, inl, inr, All, arith,
}
use mcp_auth_go.Core.Errors.{Result, ok}
use mcp_auth_go.Dpop.Replay.{MemoryReplayCache, memory_replay_cache}
use mcp_auth_go.Dpop.Replay.SingleUse.{Sight, see, sights, served, seen_before_twice}
use mcp_auth_go.Dpop.Verifier.{
  Jws, ProofClaims, Verifier, Input, strip_url, verified_claims, enforce,
}
use mcp_auth_go.Dpop.Verifier.Checks.{Verified-eq}
use mcp_auth_go.Dpop.Verifier.Enforcement.{enforce_admits}

claims_of_ok {ℓ κ} :
    {A : Type ℓ} {B : Type κ} (a b : A) (x y : B)
    → ◌≡◌ {A = Result (A × B)} (ok (a, x)) (ok (b, y))
    → a ≡ b
claims_of_ok a b x y h = cc

-- The expiry with which a proof is recorded.
abbrev pub expiry : Verifier → ProofClaims → Time
expiry v c = unix c.iat +ℤ v.iat_leeway

-- The lookup of a proof's key for the replay cache.
abbrev pub sight : Jws → Verifier → Time → ProofClaims → Sight
sight j v clock c = record { now = clock; jti = c.jti; htu = strip_url j c.htu; exp = expiry v c }

heads : (a b : Str) → a ∷ [] ≡ b ∷ [] → a ≡ b
heads a b h = cc

not_later : (clock exp : Time) → before clock exp ≢ true → exp ≤ℤ clock
not_later clock exp h = ground (arith, ltb_ℤ_iff clock exp)

-- An admitted proof was unseen, and is not late.
admitted :
    (j : Jws) (v : Verifier) (proof : Str) (c : ProofClaims) (key : j.Key)
    (st st' : MemoryReplayCache) (inp : Input) (now clock : Time)
    → verified_claims j v proof ≡ ok (c, key)
    → inp.proofs ≡ proof ∷ []
    → inp.bound_jkt ≢ []
    → enforce j memory_replay_cache v st inp now clock ≡ (st', none)
    → (see st (sight j v clock c) ≡ (st', false)) × (now ≤ℤ expiry v c)
admitted j v proof c key st st' inp now clock read one bound h =
    elim ((enforce_admits j memory_replay_cache v st st' inp now clock).0 h) [
      | inl (unbound, _, _) ↦ absurd (bound unbound)
      | inr (_, proof', one', d, (k, w, b), _, unseen) ↦
          let same_proof : proof' ≡ proof = heads _ _ (sym one' ∙ one) in
          let w' : verified_claims j v proof ≡ ok (d, k) =
            subst (λ p. verified_claims j v p ≡ ok (d, k)) same_proof
              (Verified-eq j v proof' d k w) in
          let d_c : d ≡ c = claims_of_ok d c k key (sym w' ∙ read) in
          subst (λ x. (see st (sight j v clock x) ≡ (st', false)) × (now ≤ℤ expiry v x)) d_c
            (unseen, b.not_late)
    ]

-- With the cache in memory, after any history, one proof admits two requests with bound tokens
-- only at the edge: when the cache's clock has reached the proof's expiry `iat + leeway`, and the
-- verifier's has not passed it. Between them the cache may answer any lookups before that expiry.
pub enforce_twice :
    (j : Jws) (v : Verifier) (proof : Str) (c : ProofClaims) (key : j.Key)
    (history between : List Sight) (st st' : MemoryReplayCache) (inp inp' : Input)
    (now clock now' clock' : Time)
    → verified_claims j v proof ≡ ok (c, key)
    → inp.proofs ≡ proof ∷ []
    → inp'.proofs ≡ proof ∷ []
    → inp.bound_jkt ≢ []
    → inp'.bound_jkt ≢ []
    → before clock (expiry v c) ≡ true
    → All (λ s. before s.now (expiry v c) ≡ true) between
    → enforce j memory_replay_cache v (served history) inp now clock ≡ (st, none)
    → enforce j memory_replay_cache v (sights st between) inp' now' clock' ≡ (st', none)
    → (expiry v c ≤ℤ clock') × (now' ≤ℤ expiry v c)
enforce_twice j v proof c key history between st st' inp inp' now clock now' clock' read one one'
      bound bound' young later h h' =
    let (first, _) = admitted j v proof c key (served history) st inp now clock read one bound h in
    let (again, in_time) =
      admitted j v proof c key (sights st between) st' inp' now' clock' read one' bound' h' in
    (
      not_later clock' (expiry v c) (λ early.
          let seen =
            seen_before_twice history (sight j v clock c) between (sight j v clock' c) young
              (ap (λ x. x.1) first) later refl early in
          let same_state : (see (served history) (sight j v clock c)).0 ≡ st =
            ap (λ x. x.0) first in
          let unseen : (see (sights st between) (sight j v clock' c)).1 ≡ false =
            ap (λ x. x.1) again in
          let seen' : (see (sights st between) (sight j v clock' c)).1 ≡ true =
            subst (λ x. (see (sights x between) (sight j v clock' c)).1 ≡ true) same_state seen in
          cc (seen', unseen)),
      in_time,
    )
