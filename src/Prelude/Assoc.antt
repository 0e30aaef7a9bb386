-- ===== src/Prelude/Assoc.antt =====
-- A Go map with string keys, as an association list.
use Prim.Native.Nat.{ℕ, suc, ◌+◌, ◌≤◌}
use mathlib.Core.Path.{◌≡◌, refl}
use mathlib.Core.Bool.{Bool, false, ◌&&◌, not}
use mathlib.Core.Option.{Option, none, some}
use mathlib.Core.List.{List, [], ◌∷◌}
use native.Mathlib.Omega.{arith}
use mcp_auth_go.Prelude.Tests.{if◌then◌else◌}
use mcp_auth_go.Prelude.Text.{Str, ◌==◌, eq_iff}

abbrev pub GoMap {ℓ} : Type ℓ → Type ℓ
GoMap V = List (Str × V)

module _ {ℓ} {V : Type ℓ} where
  -- `v, ok := m[k]`.
  unfoldable pub lookup : Str → GoMap V → Option V
  lookup key ((at, v) ∷ rest) = if at == key then some v else lookup key rest
  lookup key [] = none

  -- `m[k] = v`.
  unfoldable pub insert : Str → V → GoMap V → GoMap V
  insert key v ((at, old) ∷ rest) =
      if at == key then (at, v) ∷ rest else (at, old) ∷ insert key v rest
  insert key v [] = (key, v) ∷ []

  -- `delete(m, k)`.
  unfoldable pub delete : Str → GoMap V → GoMap V
  delete k [] = []
  delete k ((j, w) ∷ m) = if j == k then delete k m else (j, w) ∷ delete k m

  -- `for k, v := range m { if p(k, v) { delete(m, k) } }`.
  unfoldable pub delete_if : (V → Bool) → GoMap V → GoMap V
  delete_if p [] = []
  delete_if p ((j, w) ∷ m) = if p w then delete_if p m else (j, w) ∷ delete_if p m

  -- How many entries of a map pass a test.
  unfoldable pub count_if : (V → Bool) → GoMap V → ℕ
  count_if p [] = 0
  count_if p ((j, w) ∷ m) = if p w then suc (count_if p m) else count_if p m

  pub lookup-insert :
      (key asked : Str) (v : V) (m : GoMap V)
      → lookup asked (insert key v m) ≡ (if key == asked then some v else lookup asked m)
  unfolding insert lookup
  lookup-insert key asked v ((at, old) ∷ rest) =
      let later = lookup-insert key asked v rest in
      ground (arith, later, eq_iff at asked, eq_iff at key, eq_iff key asked)
  lookup-insert key asked v [] = refl

  pub lookup-delete :
      (k j : Str) (m : GoMap V) → lookup j (delete k m) ≡ (if k == j then none else lookup j m)
  unfolding lookup delete
  lookup-delete k j [] = ground arith
  lookup-delete k j ((i, w) ∷ m) =
      ground (arith, eq_iff k j, eq_iff i k, eq_iff i j, lookup-delete k j m)

  -- The keys of a map are distinct.
  abbrev pub IsMap : GoMap V → Type ℓ
  IsMap [] = Unit
  IsMap ((k, v) ∷ m) = (lookup k m ≡ none) × IsMap m

  pub lookup-delete_if :
      (p : V → Bool) (k : Str) (m : GoMap V)
      → IsMap m
      → lookup k (delete_if p m)
        ≡ elim (lookup k m) [ none ↦ none | some v ↦ if p v then none else some v ]
  unfolding lookup delete_if
  lookup-delete_if p k [] d = refl
  lookup-delete_if p k ((j, w) ∷ m) d = ground (arith, eq_iff j k, lookup-delete_if p k m d.1)

  pub insert-IsMap : (k : Str) (v : V) (m : GoMap V) → IsMap m → IsMap (insert k v m)
  unfolding insert lookup
  insert-IsMap k v [] d = (refl, tt)
  insert-IsMap k v ((j, w) ∷ m) d =
      ground (arith, eq_iff j k, eq_iff k j, lookup-insert k j v m, insert-IsMap k v m d.1)

  pub delete-IsMap : (k : Str) (m : GoMap V) → IsMap m → IsMap (delete k m)
  unfolding delete lookup
  delete-IsMap k [] d = tt
  delete-IsMap k ((j, w) ∷ m) d =
      ground (arith, eq_iff j k, lookup-delete k j m, delete-IsMap k m d.1)

  pub delete_if-IsMap : (p : V → Bool) (m : GoMap V) → IsMap m → IsMap (delete_if p m)
  unfolding delete_if lookup
  delete_if-IsMap p [] d = tt
  delete_if-IsMap p ((j, w) ∷ m) d =
      ground (arith, lookup-delete_if p j m d.1, delete_if-IsMap p m d.1)

  pub count_if-insert-le :
      (p : V → Bool) (k : Str) (v : V) (m : GoMap V)
      → count_if p (insert k v m) ≤ count_if p m + (if p v then 1 else 0)
  unfolding insert count_if
  count_if-insert-le p k v [] = ground arith
  count_if-insert-le p k v ((j, w) ∷ m) = ground (arith, count_if-insert-le p k v m)

  pub count_if-delete-le :
      (p : V → Bool) (k : Str) (m : GoMap V) → count_if p (delete k m) ≤ count_if p m
  unfolding delete count_if
  count_if-delete-le p k [] = omega arith
  count_if-delete-le p k ((j, w) ∷ m) = ground (arith, count_if-delete-le p k m)

  pub count_if-delete_if-le :
      (p q : V → Bool) (m : GoMap V) → count_if p (delete_if q m) ≤ count_if p m
  unfolding delete_if count_if
  count_if-delete_if-le p q [] = omega arith
  count_if-delete_if-le p q ((j, w) ∷ m) = ground (arith, count_if-delete_if-le p q m)

  -- What is counted after a sweep.
  pub count_if-delete_if :
      (p q : V → Bool) (m : GoMap V)
      → count_if p (delete_if q m) ≡ count_if (λ v. p v && not (q v)) m
  unfolding delete_if count_if
  count_if-delete_if p q [] = refl
  count_if-delete_if p q ((j, w) ∷ m) = ground (arith, count_if-delete_if p q m)

  -- A new key adds one entry.
  pub count_if-insert :
      (p : V → Bool) (k : Str) (v : V) (m : GoMap V)
      → lookup k m ≡ none
      → count_if p (insert k v m) ≡ count_if p m + (if p v then 1 else 0)
  unfolding insert count_if lookup
  count_if-insert p k v [] h = ground arith
  count_if-insert p k v ((j, w) ∷ m) h = ground (arith, count_if-insert p k v m)

  -- A key that is there keeps the count, where the test does not tell the two values apart.
  pub count_if-insert_same :
      (p : V → Bool) (k : Str) (v w : V) (m : GoMap V)
      → lookup k m ≡ some w
      → p w ≡ p v
      → count_if p (insert k v m) ≡ count_if p m
  unfolding insert count_if lookup
  count_if-insert_same p k v w [] h e = cc
  count_if-insert_same p k v w ((j, u) ∷ m) h e = ground (arith, count_if-insert_same p k v w m)

  pub delete_if_none : (p : V → Bool) (m : GoMap V) → ((v : V) → p v ≡ false) → delete_if p m ≡ m
  unfolding delete_if
  delete_if_none p [] h = refl
  delete_if_none p ((j, w) ∷ m) h = ground (arith, h w, delete_if_none p m h)
