-- ===== src/Dpop/Replay/Keys.antt =====
-- dpop/replay.go: when two proofs share a key of the cache.
use mcp_auth_go.Prelude.{ℕ, Str, [], ◌∷◌, ◌++◌, ◌≡◌, refl, ◌↔◌, subst, Lacks}
use mcp_auth_go.Dpop.Replay.{replay_key}

not-Lacks : (c : ℕ) (s t : Str) → ¬ Lacks c (s ++ c ∷ t)
not-Lacks c [] t h = h.0 refl
not-Lacks c (d ∷ s) t h = not-Lacks c s t h.1

-- Where neither htu holds a bar, two proofs share a key exactly when they agree in jti and htu.
pub replay_key_iff :
    (jti jti' htu htu' : Str)
    → Lacks b'|' htu
    → Lacks b'|' htu'
    → (replay_key jti htu ≡ replay_key jti' htu') ↔ ((jti ≡ jti') × (htu ≡ htu'))
replay_key_iff jti jti' htu htu' l l' = (split jti jti', λ h. cc (h.0, h.1))
  where
    split :
        (jti jti' : Str) → replay_key jti htu ≡ replay_key jti' htu' → (jti ≡ jti') × (htu ≡ htu')
    split [] [] e = (refl, cc)
    split [] (c ∷ jti') e = absurd (not-Lacks b'|' jti' htu' (subst (Lacks b'|') (cc) l))
    split (c ∷ jti) [] e = absurd (not-Lacks b'|' jti htu (subst (Lacks b'|') (cc) l'))
    split (c ∷ jti) (d ∷ jti') e = let (p, q) = split jti jti' (cc) in (cc, q)
