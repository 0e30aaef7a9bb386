-- ===== src/Dpop/Verifier/Enforcement.antt =====
-- dpop/verifier.go: which requests `Enforce` admits, and how it answers the others.
use mcp_auth_go.Prelude.{
  Str, String, is_empty, is_empty_iff, Bool, true, false, Option, none, some, List, [], ◌∷◌, Time,
  ◌+ℤ◌, unix, if◌then◌else◌, ◌≡◌, refl, sym, subst, ◌∙◌, ◌≢◌, ◌↔◌, ◌⊎◌, inl, inr, arith, Bool-cases,
}
use mcp_auth_go.Core.Errors.{GoError, Result, ok, fail}
use mcp_auth_go.Dpop.Replay.{ReplayCache}
use mcp_auth_go.Dpop.Verifier.{
  Jws, Mode, opportunistic, require, ProofClaims, Verifier, Input, bad_proof, nonce_missing,
  strip_url, checked, replay_check, check_proof, enforce,
}
use mcp_auth_go.Dpop.Verifier.Refusals.{Sound, checked_iff}

not_empty : (s : Str) → s ≢ [] → is_empty s ≡ false
not_empty [] h = absurd (h refl)
not_empty (a ∷ s) h = refl

is_some_str : (s : Str) → is_empty s ≡ false → s ≢ []
is_some_str s h = λ e. ground (arith, is_empty_iff s)

Mode-cases : (m : Mode) → (m ≡ opportunistic) ⊎ (m ≡ require)
Mode-cases opportunistic = inl refl
Mode-cases require = inr refl

proofs-cases :
    (l : List Str)
    → (l ≡ [])
      ⊎ (((proof : Str) × (l ≡ proof ∷ []))
          ⊎ ((a : Str) × (b : Str) × (more : List Str) × (l ≡ a ∷ b ∷ more)))
proofs-cases [] = inl refl
proofs-cases (a ∷ []) = inr (inl (a, refl))
proofs-cases (a ∷ b ∷ more) = inr (inr (a, b, more, refl))

module _ (j : Jws) where
  module _ (r : ReplayCache) where
    seen-admits :
        (x : r.State × Bool) (st' : r.State) (e : GoError)
        → ◌≡◌ {A = r.State × Option GoError} (x.0, if x.1 then some e else none) (st', none)
        → x ≡ (st', false)
    seen-admits (st, true) st' e h = cc
    seen-admits (st, false) st' e h = cc

    seen-refuses :
        (x : r.State × Bool) (st' : r.State) (e e' : GoError)
        → ◌≡◌ {A = r.State × Option GoError} (x.0, if x.1 then some e else none) (st', some e')
        → e' ≡ e
    seen-refuses (st, true) st' e e' h = cc
    seen-refuses (st, false) st' e e' h = cc

    pub replay_check-refuses :
        (v : Verifier) (st st' : r.State) (clock : Time) (res : Result ProofClaims) (e : GoError)
        → replay_check j r v st clock res ≡ (st', some e)
        → ((reason : String) × (e ≡ bad_proof reason)) ⊎ ((res ≡ fail e) × (st' ≡ st))
    unfolding replay_check
    replay_check-refuses v st st' clock (fail e') e h = inr (cc, cc)
    replay_check-refuses v st st' clock (ok c) e h =
        inl ("dpop proof replayed", seen-refuses _ st' _ e h)

    -- The replay cache admits this proof: it has not seen its key, and records it.
    abbrev pub Unseen : Verifier → r.State → Time → ProofClaims → r.State → Type 0
    Unseen v st clock c st' =
        r.seen_before st clock c.jti (strip_url j c.htu) (unix c.iat +ℤ v.iat_leeway) ≡ (st', false)

    pub refused-ne :
        (st st' : r.State) (e : GoError)
        → ◌≢◌ {A = r.State × Option GoError} (st, some e) (st', none)
    refused-ne st st' e = λ h. cc

    pub refused-eq :
        (st st' : r.State) (e e' : GoError)
        → ◌≡◌ {A = r.State × Option GoError} (st, some e) (st', some e')
        → e' ≡ e
    refused-eq st st' e e' h = cc

    replay_check-admits :
        (v : Verifier) (st st' : r.State) (clock : Time) (res : Result ProofClaims)
        → (replay_check j r v st clock res ≡ (st', none))
          ↔ ((c : ProofClaims) × (res ≡ ok c) × Unseen v st clock c st')
    unfolding replay_check
    replay_check-admits v st st' clock (fail e) = (λ h. cc, λ x. cc (x.1))
    replay_check-admits v st st' clock (ok c) = (
      λ h. (c, refl, seen-admits _ st' _ h),
      λ (d, h, k).
          let c_eq : d ≡ c = cc in
          let k' : Unseen v st clock c st' = subst (λ x. Unseen v st clock x st') c_eq k in rw k',
    )

    pub enforce-unbound :
        (v : Verifier) (st : r.State) (inp : Input) (now clock : Time)
        → inp.bound_jkt ≡ []
        → v.mode ≡ opportunistic
        → enforce j r v st inp now clock ≡ (st, none)
    unfolding enforce
    enforce-unbound v st inp now clock e m = rw (e, m)

    pub enforce-single :
        (v : Verifier) (st : r.State) (inp : Input) (now clock : Time) (proof : Str)
        → inp.bound_jkt ≢ []
        → inp.proofs ≡ proof ∷ []
        → enforce j r v st inp now clock ≡ check_proof j r v st proof inp now clock
    unfolding enforce
    enforce-single v st inp now clock proof e m = simp (not_empty _ e, m)

    -- The three ways through `Enforce`.
    pub enforce-cases :
        (v : Verifier) (st : r.State) (inp : Input) (now clock : Time)
        → ((inp.bound_jkt ≡ []) × (v.mode ≡ opportunistic))
          ⊎ (((inp.bound_jkt ≢ []) × (proof : Str) × (inp.proofs ≡ proof ∷ []))
              ⊎ ((reason : String) × (enforce j r v st inp now clock
                    ≡ (st, some (bad_proof reason)))))
    unfolding enforce
    enforce-cases v st inp now clock = elim (Bool-cases (is_empty inp.bound_jkt)) [
      | inl e ↦ elim (Mode-cases v.mode) [
        | inl m ↦ inl ((is_empty_iff inp.bound_jkt).0 e, m)
        | inr m ↦ inr (inr ("dpop binding required but token is unbound", rw (e, m)))
      ]
      | inr e ↦ elim (proofs-cases inp.proofs) [
        | inl p ↦ inr (inr ("bound token presented without a dpop proof", rw (e, p)))
        | inr (inl (proof, p)) ↦ inr (inl (is_some_str _ e, proof, p))
        | inr (inr (a, b, more, p)) ↦ inr (inr ("more than one dpop proof header", rw (e, p)))
      ]
    ]

    -- The token is unbound and the mode opportunistic, and the cache stays; or the token is bound, and
    -- the only proof is sound, has its nonce and is unseen.
    abbrev pub Admissible : Verifier → r.State → r.State → Input → Time → Time → Type 1
    Admissible v st st' inp now clock =
        ((inp.bound_jkt ≡ []) × (v.mode ≡ opportunistic) × (st' ≡ st))
        ⊎ ((inp.bound_jkt ≢ [])
            × (proof : Str) × (inp.proofs ≡ proof ∷ [])
            × (c : ProofClaims) × Sound j v proof inp now c
            × (nonce_missing v.nonce c.nonce now ≡ false)
            × Unseen v st clock c st')

    -- `Enforce` admits a request exactly in two cases. Its token is unbound and the mode is
    -- opportunistic, and then the replay cache stays as it is; or the token is bound and there is
    -- exactly one proof header, with a sound proof whose nonce is not missing and which the replay
    -- cache has not seen before, and then the cache is the one that the lookup leaves.
    pub enforce_admits :
        (v : Verifier) (st st' : r.State) (inp : Input) (now clock : Time)
        → (enforce j r v st inp now clock ≡ (st', none)) ↔ Admissible v st st' inp now clock
    unfolding check_proof
    enforce_admits v st st' inp now clock = (
      λ h. elim (enforce-cases v st inp now clock) [
        | inl (u, m) ↦ inl (u, m, cc (h, enforce-unbound v st inp now clock u m))
        | inr (inl (b, proof, p)) ↦
            let k =
              (replay_check-admits v st st' clock (checked j v proof inp now)).0
                (sym (enforce-single v st inp now clock proof b p) ∙ h) in
            let (c, k1, unseen) = k in
            let (sound, fresh) = (checked_iff j v proof inp now c).0 k1 in
            inr (b, proof, p, c, sound, fresh, unseen)
        | inr (inr (reason, eq)) ↦ absurd (refused-ne st st' _ (sym eq ∙ h))
      ],
      λ h. elim h [
        | inl (u, m, e) ↦ enforce-unbound v st inp now clock u m ∙ cc (e)
        | inr (b, proof, p, c, sound, fresh, unseen) ↦
            enforce-single v st inp now clock proof b p
            ∙ (replay_check-admits v st st' clock _).1
                (c, (checked_iff j v proof inp now c).1 (sound, fresh), unseen)
      ],
    )
