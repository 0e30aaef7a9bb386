-- ===== src/Dpop/Verifier/Answers.antt =====
-- dpop/verifier.go: how `Enforce` answers the requests that it does not admit.
use mcp_auth_go.Prelude.{
  ◌==◌, Str, String, is_empty_iff, true, false, Option, none, some, [], ◌∷◌, Time, ◌≡◌, refl, sym,
  subst, ◌∙◌, ◌≢◌, ◌↔◌, ◌⊎◌, inl, inr, arith,
}
use mcp_auth_go.Core.Errors.{
  GoError, Result, fail, is_error, is_cause, err_invalid_dpop_proof, err_use_dpop_nonce,
}
use mcp_auth_go.Dpop.Replay.{ReplayCache}
use mcp_auth_go.Dpop.Verifier.{
  Jws, ProofClaims, Verifier, Input, bad_proof, bad_nonce, nonce_missing, checked, replay_check,
  check_proof, enforce,
}
use mcp_auth_go.Dpop.Verifier.Refusals.{Sound, checked-fail, checked-nonce}
use mcp_auth_go.Dpop.Nonce.{NonceSource}
use mcp_auth_go.Dpop.Verifier.Enforcement.{
  replay_check-refuses, refused-ne, refused-eq, enforce-unbound, enforce-single, enforce-cases,
}

-- The error asks for a nonce, or calls the proof invalid; it is not both.
abbrev pub Challenges : GoError → Type 0
Challenges e = (is_error err_use_dpop_nonce e ≡ true) × (is_error err_invalid_dpop_proof e ≡ false)

abbrev pub Disproves : GoError → Type 0
Disproves e = (is_error err_invalid_dpop_proof e ≡ true) × (is_error err_use_dpop_nonce e ≡ false)

bad-Disproves : (e : GoError) (reason : String) → e ≡ bad_proof reason → Disproves e
unfolding is_error is_cause err_invalid_dpop_proof err_use_dpop_nonce ◌==◌
bad-Disproves e reason eq = rw eq (refl, refl)

nonce-Challenges : (e : GoError) → e ≡ bad_nonce → Challenges e
unfolding is_error is_cause err_invalid_dpop_proof err_use_dpop_nonce ◌==◌
nonce-Challenges e eq = rw eq (refl, refl)

bad-ne : (reason : String) → bad_proof reason ≢ bad_nonce
bad-ne reason h =
    let (a, b) = bad-Disproves (bad_proof reason) reason refl in
    let (c, d) = nonce-Challenges (bad_proof reason) h in cc (a, d)

nonce_missing_iff :
    (nonces : Option NonceSource) (nonce : Str) (now : Time)
    → (nonce_missing nonces nonce now ≡ true) ↔ (
        (source : NonceSource) × (nonces ≡ some source)
        × ((nonce ≡ []) ⊎ (source.validate nonce now ≡ false)))
nonce_missing_iff none nonce now = (λ h. cc, λ (source, e, amiss). cc)
nonce_missing_iff (some source) nonce now = (
  λ h. (source, refl, ground (arith, is_empty_iff nonce)),
  λ (s, e, amiss).
      let same : s ≡ source = cc in
      let amiss' : (nonce ≡ []) ⊎ (source.validate nonce now ≡ false) =
        subst (λ x. (nonce ≡ []) ⊎ (x.validate nonce now ≡ false)) same amiss in
      ground (arith, is_empty_iff nonce),
)

module _ (j : Jws) where
  module _ (r : ReplayCache) where
    replay_check-fail :
        (v : Verifier) (st : r.State) (clock : Time) (res : Result ProofClaims) (e : GoError)
        → res ≡ fail e
        → replay_check j r v st clock res ≡ (st, some e)
    unfolding replay_check
    replay_check-fail v st clock res e h = rw (h, replay_check) refl

    -- The token is bound, and its only proof is sound but for its nonce, which the configured source
    -- misses or does not accept.
    abbrev pub Stale : Verifier → Input → Time → Type 1
    Stale v inp now =
        (inp.bound_jkt ≢ [])
        × (proof : Str) × (inp.proofs ≡ proof ∷ [])
        × (c : ProofClaims) × Sound j v proof inp now c
        × (source : NonceSource) × (v.nonce ≡ some source)
        × ((c.nonce ≡ []) ⊎ (source.validate c.nonce now ≡ false))

    enforce-Stale :
        (v : Verifier) (st : r.State) (inp : Input) (now clock : Time)
        → Stale v inp now
        → enforce j r v st inp now clock ≡ (st, some bad_nonce)
    unfolding check_proof
    enforce-Stale v st inp now clock (b, proof, p, c, sound, source, e, amiss) =
        let missing = (nonce_missing_iff v.nonce c.nonce now).1 (source, e, amiss) in
        enforce-single j r v st inp now clock proof b p
        ∙ replay_check-fail v st clock _ bad_nonce (checked-nonce j v proof inp now c sound missing)

    refuses_otherwise :
        (v : Verifier) (st st' : r.State) (inp : Input) (now clock : Time) (e : GoError)
        (reason : String)
        → enforce j r v st inp now clock ≡ (st', some e)
        → e ≡ bad_proof reason
        → (¬ Stale v inp now) × Disproves e
    refuses_otherwise v st st' inp now clock e reason h bad = (
      λ s.
          let same = refused-eq j r st st' _ e (sym (enforce-Stale v st inp now clock s) ∙ h) in
          bad-ne reason (sym bad ∙ same),
      bad-Disproves e reason bad,
    )

    -- A request that `Enforce` does not admit gets one of two errors. If its token is bound and its
    -- only proof is sound, but has no nonce or one that the configured source does not accept, the error
    -- is `use_dpop_nonce` and not `invalid_dpop_proof`, and the replay cache stays as it is; in any
    -- other case it is `invalid_dpop_proof` and not `use_dpop_nonce`.
    pub enforce_refuses :
        (v : Verifier) (st st' : r.State) (inp : Input) (now clock : Time) (e : GoError)
        → enforce j r v st inp now clock ≡ (st', some e)
        → (Stale v inp now × Challenges e × (st' ≡ st)) ⊎ ((¬ Stale v inp now) × Disproves e)
    unfolding check_proof
    enforce_refuses v st st' inp now clock e h = elim (enforce-cases j r v st inp now clock) [
      | inl (u, m) ↦
          absurd (refused-ne j r st' st e (sym h ∙ enforce-unbound j r v st inp now clock u m))
      | inr (inl (b, proof, p)) ↦
          elim (replay_check-refuses j r v st st' clock (checked j v proof inp now) e
            (sym (enforce-single j r v st inp now clock proof b p) ∙ h)) [
              | inl (reason, bad) ↦ inr (refuses_otherwise v st st' inp now clock e reason h bad)
              | inr (failed, same_st) ↦ elim (checked-fail j v proof inp now e failed) [
                | inl (reason, bad) ↦ inr (refuses_otherwise v st st' inp now clock e reason h bad)
                | inr (eq, c, sound, missing) ↦
                    let (source, has, amiss) = (nonce_missing_iff v.nonce c.nonce now).0 missing in
                    inl
                      ((b, proof, p, c, sound, source, has, amiss), nonce-Challenges e eq, same_st)
              ]
            ]
      | inr (inr (reason, eq)) ↦ inr (
          refuses_otherwise v st st' inp now clock e reason h
            (refused-eq j r st st' _ e (sym eq ∙ h)))
    ]
