-- ===== src/Transport/Wire/Laws.antt =====
-- transport/http/middleware.go: quoted strings hold nothing that ends them.
use mcp_auth_go.Prelude.{ℕ, ◌<◌, Str, [], ◌∷◌, ◌≡◌, ◌≢◌, refl, subst, arith, All, ◌↔◌}
use mcp_auth_go.Transport.Wire.{is_quotable, sanitize_quoted}

-- A printable byte that is neither a double quote nor a backslash.
abbrev pub Quotable : ℕ → Type 0
Quotable c = (c ≢ 34) × (c ≢ 92) × (31 < c) × (c ≢ 127)

sanitize_quoted-id : (s : Str) → All Quotable s → sanitize_quoted s ≡ s
unfolding sanitize_quoted is_quotable
sanitize_quoted-id [] h = refl
sanitize_quoted-id (c ∷ s) (h, k) = ground (arith, sanitize_quoted-id s k)

sanitize_quoted-All : (s : Str) → All Quotable (sanitize_quoted s)
unfolding sanitize_quoted is_quotable
sanitize_quoted-All [] = tt
sanitize_quoted-All (c ∷ s) = ground (arith, sanitize_quoted-All s)

-- A sanitised text holds no double quote, no backslash and no control byte, so that it cannot end
-- the quoted string it is put in; and the texts that stay as they are are those without such bytes.
pub sanitize_quoted_lem :
    (s : Str) → All Quotable (sanitize_quoted s) × ((sanitize_quoted s ≡ s) ↔ All Quotable s)
sanitize_quoted_lem s = (
  sanitize_quoted-All s,
  (λ e. subst (λ t. All Quotable t) e (sanitize_quoted-All s), sanitize_quoted-id s),
)
