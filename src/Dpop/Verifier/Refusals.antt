-- ===== src/Dpop/Verifier/Refusals.antt =====
-- dpop/proof.go: when all stateless checks pass, and the errors of those that fail.
use mcp_auth_go.Prelude.{
  Str, String, Bool, true, false, Option, none, some, Time, ◌≡◌, refl, subst, ◌↔◌, ◌⊎◌, inl, inr,
}
use mcp_auth_go.Core.Errors.{GoError, Result, ok, fail, ◌>>=◌, fail_if}
use mcp_auth_go.Core.Errors.Laws.{>>=-eq-ok, fail_if-eq-ok}
use mcp_auth_go.Dpop.Verifier.{
  Jws, ProofClaims, Verifier, Input, bad_proof, bad_nonce, required, nonce_missing, verified_claims,
  bound_claims, checked,
}
use mcp_auth_go.Dpop.Verifier.Checks.{
  Verified, Bound, verified_claims-Verified, bound_claims_iff, Verified-eq,
}

-- The proof passes the checks that need no state but, perhaps, that of its nonce.
abbrev pub Sound : (j : Jws) → Verifier → Str → Input → Time → ProofClaims → Type 1
Sound j v proof inp now c = (key : j.Key) × Verified j v proof c key × Bound j v inp now c key

-- All failures of a chain of steps are refusals of the proof.
unfoldable Refuses {ℓ} : {A : Type ℓ} → Result A → Type ℓ
Refuses r = (e : GoError) → r ≡ fail e → (reason : String) × (e ≡ bad_proof reason)

>>=-eq-fail {ℓ κ} :
    {A : Type ℓ} {B : Type κ} (r : Result A) (rest : A → Result B) {e : GoError}
    → (r >>= rest) ≡ fail e
    → (r ≡ fail e) ⊎ ((a : A) × (r ≡ ok a) × (rest a ≡ fail e))
>>=-eq-fail (fail e) rest h = inl cc
>>=-eq-fail (ok a) rest h = inr (a, refl, h)

fail_if-eq-fail : (b : Bool) (e e' : GoError) → fail_if b e ≡ fail e' → (b ≡ true) × (e' ≡ e)
fail_if-eq-fail true e e' h = (refl, cc)
fail_if-eq-fail false e e' h = cc

Refuses->>= {ℓ κ} :
    {A : Type ℓ} {B : Type κ} (r : Result A) (rest : A → Result B)
    → Refuses r
    → ((a : A) → Refuses (rest a))
    → Refuses (r >>= rest)
unfolding Refuses
Refuses->>= (fail e) rest h k = λ e' eq. h e' cc
Refuses->>= (ok a) rest h k = k a

Refuses-fail_if : (b : Bool) (reason : String) → Refuses (fail_if b (bad_proof reason))
unfolding Refuses
Refuses-fail_if true reason = λ e eq. (reason, cc)
Refuses-fail_if false reason = λ e eq. cc

Refuses-required {ℓ} : {A : Type ℓ} (o : Option A) (reason : String) → Refuses (required o reason)
unfolding Refuses
Refuses-required none reason = λ e eq. (reason, cc)
Refuses-required (some a) reason = λ e eq. cc

Refuses-ok {ℓ} : {A : Type ℓ} (a : A) → Refuses (ok a)
unfolding Refuses
Refuses-ok a = λ e eq. cc

module _ (j : Jws) where
  verified_claims-Refuses : (v : Verifier) (proof : Str) → Refuses (verified_claims j v proof)
  unfolding verified_claims
  verified_claims-Refuses v proof =
      search (Refuses->>=, Refuses-fail_if, Refuses-required, Refuses-ok) depth 24 fits 2000

  bound_claims-Refuses :
      (v : Verifier) (inp : Input) (now : Time) (c : ProofClaims) (key : j.Key)
      → Refuses (bound_claims j v inp now c key)
  unfolding bound_claims
  bound_claims-Refuses v inp now c key =
      search (Refuses->>=, Refuses-fail_if, Refuses-required) depth 24 fits 2000

  -- The stateless checks pass exactly for a sound proof whose nonce is not missing.
  pub checked_iff :
      (v : Verifier) (proof : Str) (inp : Input) (now : Time) (c : ProofClaims)
      → (checked j v proof inp now ≡ ok c)
        ↔ (Sound j v proof inp now c × (nonce_missing v.nonce c.nonce now ≡ false))
  unfolding checked
  checked_iff v proof inp now c = (
    λ h.
        let ((d, key), h1, k1) = >>=-eq-ok (verified_claims j v proof) _ h in
        let (_, h2, k2) = >>=-eq-ok (bound_claims j v inp now d key) _ k1 in
        let (_, h3, k3) = >>=-eq-ok (fail_if (nonce_missing v.nonce d.nonce now) _) _ k2 in
        let e : d ≡ c = cc in
        subst (λ x. Sound j v proof inp now x × (nonce_missing v.nonce x.nonce now ≡ false)) e
          (
            (
              key,
              verified_claims-Verified j v proof d key h1,
              (bound_claims_iff j v inp now d key).0 h2,
            ),
            fail_if-eq-ok _ _ _ h3,
          ),
    λ ((key, w, b), n).
        rw (Verified-eq j v proof c key w, (bound_claims_iff j v inp now c key).1 b, n),
  )

  -- They fail with a refusal of the proof, or, for a sound one, with a challenge for a nonce.
  pub checked-fail :
      (v : Verifier) (proof : Str) (inp : Input) (now : Time) (e : GoError)
      → checked j v proof inp now ≡ fail e
      → ((reason : String) × (e ≡ bad_proof reason))
        ⊎ ((e ≡ bad_nonce)
            × (c : ProofClaims) × Sound j v proof inp now c
            × (nonce_missing v.nonce c.nonce now ≡ true))
  unfolding checked Refuses
  checked-fail v proof inp now e h = elim (>>=-eq-fail (verified_claims j v proof) _ h) [
    | inl h1 ↦ inl (verified_claims-Refuses v proof e h1)
    | inr ((c, key), h1, k1) ↦ elim (>>=-eq-fail (bound_claims j v inp now c key) _ k1) [
      | inl h2 ↦ inl (bound_claims-Refuses v inp now c key e h2)
      | inr (_, h2, k2) ↦
          elim (>>=-eq-fail (fail_if (nonce_missing v.nonce c.nonce now) bad_nonce) _ k2) [
            | inl h3 ↦
                let (missing, eq) = fail_if-eq-fail _ _ _ h3 in
                inr (
                  eq,
                  c,
                  (
                    key,
                    verified_claims-Verified j v proof c key h1,
                    (bound_claims_iff j v inp now c key).0 h2,
                  ),
                  missing,
                )
            | inr (_, _, k3) ↦ inl cc
          ]
    ]
  ]

  -- A sound proof whose nonce is missing fails with the challenge.
  pub checked-nonce :
      (v : Verifier) (proof : Str) (inp : Input) (now : Time) (c : ProofClaims)
      → Sound j v proof inp now c
      → nonce_missing v.nonce c.nonce now ≡ true
      → checked j v proof inp now ≡ fail bad_nonce
  unfolding checked
  checked-nonce v proof inp now c (key, w, b) n =
      rw (Verified-eq j v proof c key w, (bound_claims_iff j v inp now c key).1 b, n)
