-- ===== src/Exchange/Strings/Order.antt =====
-- exchange/exchanger.go: `cacheKey` does not depend on the order of the scopes.
use mcp_auth_go.Prelude.{Str, true, false, List, [], ◌∷◌, ◌≡◌, refl, ◌∙◌, arith}
use mathlib.Core.List.{Perm, Permᴰ}
use mathlib.Core.Logic.{∥∥₁_elim}
use mcp_auth_go.Exchange.Strings.{str_leb, insert_sorted, sort_strings}

str_leb_total : (s t : Str) → str_leb s t ≡ false → str_leb t s ≡ true
unfolding str_leb
str_leb_total [] t h = cc
str_leb_total (c ∷ s) [] h = refl
str_leb_total (c ∷ s) (d ∷ t) h = ground (arith, str_leb_total s t)

str_leb_antisym : (s t : Str) → str_leb s t ≡ true → str_leb t s ≡ true → s ≡ t
unfolding str_leb
str_leb_antisym [] [] h k = refl
str_leb_antisym [] (d ∷ t) h k = cc
str_leb_antisym (c ∷ s) [] h k = cc
str_leb_antisym (c ∷ s) (d ∷ t) h k = ground (arith, str_leb_antisym s t)

str_leb_trans : (s t u : Str) → str_leb s t ≡ true → str_leb t u ≡ true → str_leb s u ≡ true
unfolding str_leb
str_leb_trans [] t u h k = refl
str_leb_trans (c ∷ s) [] u h k = cc
str_leb_trans (c ∷ s) (d ∷ t) [] h k = cc
str_leb_trans (c ∷ s) (d ∷ t) (e ∷ u) h k = ground (arith, str_leb_trans s t u)

insert_sorted_comm :
    (a b : Str) (l : List Str)
    → insert_sorted a (insert_sorted b l) ≡ insert_sorted b (insert_sorted a l)
unfolding insert_sorted
insert_sorted_comm a b [] =
    ground (arith, str_leb_total a b, str_leb_antisym a b, str_leb_total b a)
insert_sorted_comm a b (t ∷ ts) = ground (
  arith,
  insert_sorted_comm a b ts,
  str_leb_total a b,
  str_leb_antisym a b,
  str_leb_trans a b t,
  str_leb_trans b a t,
)

sort-Permᴰ : (xs ys : List Str) → Permᴰ xs ys → sort_strings xs ≡ sort_strings ys
unfolding sort_strings
sort-Permᴰ xs ys Permᴰ.nil = refl
sort-Permᴰ xs ys (Permᴰ.cons {l₁ = l} {l₂ = m} e p) = cc (e, sort-Permᴰ l m p)
sort-Permᴰ xs ys (Permᴰ.swap {a = a} {b = b} {l = l} e f) =
    cc (e, f, insert_sorted_comm a b (sort_strings l))
sort-Permᴰ xs ys (Permᴰ.trans {l₂ = m} p q) = sort-Permᴰ xs m p ∙ sort-Permᴰ m ys q

pub sort_strings-Perm : (xs ys : List Str) → Perm xs ys → sort_strings xs ≡ sort_strings ys
sort_strings-Perm xs ys p = ∥∥₁_elim p (hlevel) (sort-Permᴰ xs ys)
