-- ===== src/Prelude/Int.antt =====
-- Signed integers over the native numbers, under the library's names, and Go's instants and
-- durations as numbers of nanoseconds.
use Prim.Native.Nat.{ℕ, suc, ◌+◌, ◌-◌, ◌*◌, ◌/◌, ◌≤◌}
use mathlib.Core.Path.{◌≡◌}
use mathlib.Core.Logic.{◌↔◌}
use mathlib.Core.Bool.{Bool, true}
use native.Mathlib.Omega.{arith}
use mcp_auth_go.Prelude.Tests.{ltb, leb, if◌then◌else◌}

-- `negsuc n` is -(n + 1).
pub data ℤ : Type 0 where
  pos : ℕ → ℤ
  negsuc : ℕ → ℤ

abbrev pub pos_part : ℤ → ℕ
pos_part (pos n) = n
pos_part (negsuc n) = 0

abbrev pub neg_part : ℤ → ℕ
neg_part (pos n) = 0
neg_part (negsuc n) = suc n

abbrev pub sub_ℕ : ℕ → ℕ → ℤ
sub_ℕ a b = if leb b a then pos (a - b) else negsuc (b - a - 1)

infixl 65 ◌+ℤ◌ ◌-ℤ◌
infix 50 ◌≤ℤ◌ ◌<ℤ◌
unfoldable pub ◌+ℤ◌ : ℤ → ℤ → ℤ
a +ℤ b = sub_ℕ (pos_part a + pos_part b) (neg_part a + neg_part b)

unfoldable pub ◌-ℤ◌ : ℤ → ℤ → ℤ
a -ℤ b = sub_ℕ (pos_part a + neg_part b) (neg_part a + pos_part b)

abbrev pub ◌≤ℤ◌ : ℤ → ℤ → Type 0
a ≤ℤ b = pos_part a + neg_part b ≤ pos_part b + neg_part a

abbrev pub ◌<ℤ◌ : ℤ → ℤ → Type 0
a <ℤ b = suc (pos_part a + neg_part b) ≤ pos_part b + neg_part a

-- The test `a < b`.
abbrev pub ltb_ℤ : ℤ → ℤ → Bool
ltb_ℤ a b = ltb (pos_part a + neg_part b) (pos_part b + neg_part a)

-- The test `0 < a`.
abbrev pub positive : ℤ → Bool
positive a = ltb (neg_part a) (pos_part a)

pub +ℤ_parts :
    (a b : ℤ)
    → pos_part (a +ℤ b) + neg_part a + neg_part b ≡ neg_part (a +ℤ b) + pos_part a + pos_part b
unfolding ◌+ℤ◌
+ℤ_parts a b = ground arith

pub -ℤ_parts :
    (a b : ℤ)
    → pos_part (a -ℤ b) + neg_part a + pos_part b ≡ neg_part (a -ℤ b) + pos_part a + neg_part b
unfolding ◌-ℤ◌
-ℤ_parts a b = ground arith

pub eq_of_parts : (a b : ℤ) → pos_part a + neg_part b ≡ pos_part b + neg_part a → a ≡ b
eq_of_parts a b h = ground arith

pub ltb_ℤ_iff : (a b : ℤ) → (ltb_ℤ a b ≡ true) ↔ (a <ℤ b)
ltb_ℤ_iff a b = (λ h. ground arith, λ h. ground arith)

-- Instants are nanoseconds from the Unix epoch, durations are nanoseconds.
abbrev pub Time : Type 0
Time = ℤ

abbrev pub Duration : Type 0
Duration = ℤ

abbrev pub second : ℕ
second = 1000000000

-- The range of a `time.Duration`.
abbrev pub max_duration : ℤ
max_duration = pos 9223372036854775807

abbrev pub min_duration : ℤ
min_duration = negsuc 9223372036854775807

-- `t.Sub(u)`, which saturates.
unfoldable pub sub : Time → Time → Duration
unfolding ◌-ℤ◌
sub t u =
    let d = t -ℤ u in
    if ltb_ℤ max_duration d then max_duration else if ltb_ℤ d min_duration then min_duration else d

-- Below the largest duration a saturated difference compares like the true one.
pub sub_iff :
    (d : Duration) (t u : Time)
    → d <ℤ max_duration
    → min_duration ≤ℤ d
    → (ltb_ℤ d (sub t u) ≡ true) ↔ (d +ℤ u <ℤ t)
unfolding sub
sub_iff d t u h k = (
  λ e. ground (arith, -ℤ_parts t u, +ℤ_parts d u),
  λ e. ground (arith, -ℤ_parts t u, +ℤ_parts d u),
)

-- `t.Before(u)` and `t.After(u)`.
abbrev pub before : Time → Time → Bool
before t u = ltb_ℤ t u

abbrev pub after : Time → Time → Bool
after t u = ltb_ℤ u t

-- `time.Unix(sec, 0)`.
unfoldable pub unix : ℤ → Time
unix (pos n) = pos (n * second)
unix (negsuc n) = negsuc (n * second + (second - 1))

-- `t.Unix()`, which rounds down.
unfoldable pub unix_seconds : Time → ℤ
unix_seconds (pos n) = pos (n / second)
unix_seconds (negsuc n) = negsuc (n / second)

pub unix-unix_seconds :
    (t : Time) → (unix (unix_seconds t) ≤ℤ t) × (t <ℤ unix (unix_seconds t) +ℤ pos second)
unfolding unix unix_seconds ◌+ℤ◌
unix-unix_seconds (pos n) = (omega arith, ground arith)
unix-unix_seconds (negsuc n) = (omega arith, ground arith)
