-- ===== src/Prelude/Text.antt =====
-- A Go string is its sequence of bytes. The literals of the program are ASCII.
use Prim.Native.Nat.{ℕ, zero, suc, ◌-◌}
use Prim.Native.Char.{code}
use Prim.Native.String.{String}
use mathlib.Core.Path.{◌≡◌, refl, ap}
use mathlib.Core.Logic.{◌↔◌, ◌≢◌}
use mathlib.Core.Bool.{Bool, true, false, ◌&&◌}
use mathlib.Core.List.{List, [], ◌∷◌, ◌++◌}
use native.Mathlib.Omega.{arith}
use mcp_auth_go.Prelude.Tests.{eqb}
use mcp_auth_go.Prelude.Lists.{length}

abbrev pub Str : Type 0
Str = List ℕ

-- A literal.
abbrev pub str : String → Str
str String.[] = []
str (String.◌∷◌ c s) = code c ∷ str s

-- `s == t`.
infix 50 ◌==◌
unfoldable pub ◌==◌ : Str → Str → Bool
[] == [] = true
[] == (d ∷ t) = false
(c ∷ s) == [] = false
(c ∷ s) == (d ∷ t) = eqb c d && s == t

eq_of_test : (s t : Str) → (s == t) ≡ true → s ≡ t
unfolding ◌==◌
eq_of_test [] [] h = refl
eq_of_test [] (d ∷ t) h = cc
eq_of_test (c ∷ s) [] h = cc
eq_of_test (c ∷ s) (d ∷ t) h = ground (arith, eq_of_test s t)

pub eq_refl : (s : Str) → (s == s) ≡ true
unfolding ◌==◌
eq_refl [] = refl
eq_refl (c ∷ s) = ground (arith, eq_refl s)

pub eq_iff : (s t : Str) → ((s == t) ≡ true) ↔ (s ≡ t)
eq_iff s t = (eq_of_test s t, λ e. rw e (eq_refl t))

-- `s == ""`.
abbrev pub is_empty : Str → Bool
is_empty [] = true
is_empty (c ∷ s) = false

abbrev pub take : ℕ → Str → Str
take zero s = []
take (suc n) [] = []
take (suc n) (c ∷ s) = c ∷ take n s

abbrev pub drop : ℕ → Str → Str
drop zero s = s
drop (suc n) [] = []
drop (suc n) (c ∷ s) = drop n s

-- `s[a:b]`, for `a <= b <= len(s)`.
abbrev pub slice : Str → ℕ → ℕ → Str
slice s a b = take (b - a) (drop a s)

-- `strings.Join(parts, sep)`.
unfoldable pub join : Str → List Str → Str
join sep [] = []
join sep (s ∷ []) = s
join sep (s ∷ t ∷ parts) = s ++ (sep ++ join sep (t ∷ parts))

-- No byte of `s` is `c`.
abbrev pub Lacks : ℕ → Str → Type 0
Lacks c [] = Unit
Lacks c (d ∷ s) = (d ≢ c) × Lacks c s

pub is_empty_iff : (s : Str) → (is_empty s ≡ true) ↔ (s ≡ [])
is_empty_iff [] = (λ h. refl, λ h. refl)
is_empty_iff (c ∷ s) = (λ h. cc, λ h. cc)

pub ne_of_test : (s t : Str) → (s == t) ≡ false → s ≢ t
ne_of_test s t h = λ e. cc (h, (eq_iff s t).1 e)

pub take-append : (s t : Str) → take (length s) (s ++ t) ≡ s
take-append [] t = refl
take-append (c ∷ s) t = ap (◌∷◌ c) (take-append s t)

pub drop-append : (s t : Str) → drop (length s) (s ++ t) ≡ t
drop-append [] t = refl
drop-append (c ∷ s) t = drop-append s t

pub take-drop-append : (n : ℕ) (s : Str) → take n s ++ drop n s ≡ s
take-drop-append zero s = refl
take-drop-append (suc n) [] = refl
take-drop-append (suc n) (c ∷ s) = ap (◌∷◌ c) (take-drop-append n s)
