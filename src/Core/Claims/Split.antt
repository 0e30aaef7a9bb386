-- ===== src/Core/Claims/Split.antt =====
-- claims.go: `splitScopes` against reading the text byte by byte.
use mathlib.Core.List.{append-nil, append_assoc}
use mcp_auth_go.Prelude.{
  ℕ, suc, ◌+◌, ◌-◌, Str, str, eqb, ◌≡◌, refl, sym, ap, ◌∙◌, ◌≢◌, false, Option, none, some, List,
  [], ◌∷◌, ◌++◌, if◌then◌else◌, slice, take-append, drop-append, length, length-append, join, Lacks,
  All, arith, Bool-cases, inl, inr,
}
use mcp_auth_go.Core.Claims.{split_loop, split_scopes}

-- A scope of the list: not empty, and without a space.
abbrev pub IsScope : Str → Type 0
IsScope s = (s ≢ []) × Lacks b' ' s

abbrev flush : Str → List Str
flush [] = []
flush (c ∷ cur) = (c ∷ cur) ∷ []

-- The pieces of `cur ++ s`, of which `cur` has been read.
pub words_from : Str → Str → List Str
words_from cur [] = flush cur
words_from cur (c ∷ s) =
    let closed = flush cur ++ words_from [] s in
    let longer = words_from (cur ++ c ∷ []) s in if eqb c b' ' then closed else longer

slice-append :
    (s p cur rest : Str) (i : ℕ)
    → s ≡ p ++ (cur ++ rest)
    → i ≡ length p + length cur
    → slice s (length p) i ≡ cur
slice-append s p cur rest i e h =
    let width : i - length p ≡ length cur = omega arith in
    rw (e, width, drop-append p (cur ++ rest)) (take-append cur rest)

-- Where the open piece `cur` begins, after the bytes `p`.
abbrev start_of : Str → Str → Option ℕ
start_of p [] = none
start_of p (c ∷ cur) = some (length p)

-- `p` lies behind the open piece `cur`, and `rest` is still to be read.
split_loop-words_from :
    (s rest p cur : Str) (i : ℕ) (start : Option ℕ) (out : List Str)
    → s ≡ p ++ (cur ++ rest)
    → i ≡ length p + length cur
    → start ≡ start_of p cur
    → split_loop s rest i start out ≡ out ++ words_from cur rest
unfolding split_loop words_from
split_loop-words_from s [] p [] i start out e h b = rw b (sym (append-nil out))
split_loop-words_from s [] p (c ∷ cur) i start out e h b =
    rw (b, slice-append s p (c ∷ cur) [] i e h) refl
split_loop-words_from s (c ∷ rest) p [] i start out e h b = elim (Bool-cases (eqb c b' ')) [
  | inl space ↦
      rw (b, space)
        (split_loop-words_from s rest (p ++ c ∷ []) [] (suc i) none out
          (e ∙ sym (append_assoc p (c ∷ []) rest)) (omega (arith, length-append p (c ∷ []))) refl)
  | inr byte ↦
      rw (b, byte)
        (split_loop-words_from s rest p (c ∷ []) (suc i) (some i) out e (omega arith)
          (ap some (omega arith)))
]
split_loop-words_from s (c ∷ rest) p (d ∷ cur) i start out e h b = elim (Bool-cases (eqb c b' ')) [
  | inl space ↦
      rw (b, space, slice-append s p (d ∷ cur) (c ∷ rest) i e h)
        (split_loop-words_from s rest (p ++ ((d ∷ cur) ++ c ∷ [])) [] (suc i) none
            (out ++ (d ∷ cur) ∷ [])
            (e
              ∙ ap (◌++◌ p) (sym (append_assoc (d ∷ cur) (c ∷ []) rest))
              ∙ sym (append_assoc p ((d ∷ cur) ++ c ∷ []) rest))
            (omega (arith, length-append p ((d ∷ cur) ++ c ∷ []), length-append cur (c ∷ []))) refl
          ∙ append_assoc out ((d ∷ cur) ∷ []) (words_from [] rest))
  | inr byte ↦
      rw (b, byte)
        (split_loop-words_from s rest p ((d ∷ cur) ++ c ∷ []) (suc i) (some (length p)) out
          (e ∙ ap (◌++◌ p) (sym (append_assoc (d ∷ cur) (c ∷ []) rest)))
          (omega (arith, length-append cur (c ∷ []))) refl)
]

-- Reading the whole text.
pub split_scopes-words_from : (s : Str) → split_scopes s ≡ words_from [] s
unfolding split_scopes
split_scopes-words_from s = split_loop-words_from s s [] [] 0 none [] refl refl refl

flush-IsScope : (cur : Str) → Lacks b' ' cur → All IsScope (flush cur)
flush-IsScope [] h = tt
flush-IsScope (c ∷ cur) h = (((λ e. cc), h), tt)

All-append : (P : Str → Type 0) (xs ys : List Str) → All P xs → All P ys → All P (xs ++ ys)
All-append P [] ys h k = k
All-append P (x ∷ xs) ys h k = (h.0, All-append P xs ys h.1 k)

Lacks-append : (c : ℕ) (s t : Str) → Lacks c s → Lacks c t → Lacks c (s ++ t)
Lacks-append c [] t h k = k
Lacks-append c (d ∷ s) t h k = (h.0, Lacks-append c s t h.1 k)

words_from-IsScope : (cur s : Str) → Lacks b' ' cur → All IsScope (words_from cur s)
unfolding words_from
words_from-IsScope cur [] h = flush-IsScope cur h
words_from-IsScope cur (c ∷ s) h = elim (Bool-cases (eqb c b' ')) [
  | inl space ↦ rw space (
      All-append IsScope (flush cur) (words_from [] s) (flush-IsScope cur h)
        (words_from-IsScope [] s tt))
  | inr byte ↦
      rw byte
        (words_from-IsScope (cur ++ c ∷ []) s (Lacks-append b' ' cur (c ∷ []) h (ground arith, tt)))
]

-- Reading a word and then a rest that is empty or begins with a space.
words_from-append :
    (cur w rest : Str) → Lacks b' ' w → words_from cur (w ++ rest) ≡ words_from (cur ++ w) rest
unfolding words_from
words_from-append cur [] rest h = rw (append-nil cur)
words_from-append cur (c ∷ w) rest h =
    let byte : eqb c b' ' ≡ false = ground arith in
    rw byte (
      words_from-append (cur ++ c ∷ []) w rest h.1
      ∙ ap (λ k. words_from k rest) (append_assoc cur (c ∷ []) w))

flush_word : (w : Str) → w ≢ [] → flush w ≡ w ∷ []
flush_word [] h = absurd (h refl)
flush_word (c ∷ w) h = refl

words_from-join : (ws : List Str) → All IsScope ws → words_from [] (join (str " ") ws) ≡ ws
unfolding words_from join
words_from-join [] h = refl
words_from-join (w ∷ []) h =
    ap (words_from []) (sym (append-nil w)) ∙ words_from-append [] w [] h.0.1 ∙ flush_word w h.0.0
words_from-join (w ∷ v ∷ ws) h =
    words_from-append [] w (b' ' ∷ join (str " ") (v ∷ ws)) h.0.1
    ∙ rw (flush_word w h.0.0) (ap (◌∷◌ w) (words_from-join (v ∷ ws) h.1))

-- Every scope that `splitScopes` returns, whatever the text, is non-empty and holds no space; and
-- scopes that are so, joined by single spaces, are given back in their order. Only the space separates:
-- a scope may hold a tab or a line break.
pub split_scopes_lem :
    ((s : Str) → All IsScope (split_scopes s))
    × ((ws : List Str) → All IsScope ws → split_scopes (join (str " ") ws) ≡ ws)
split_scopes_lem = (
  λ s. rw (split_scopes-words_from s) (words_from-IsScope [] s tt),
  λ ws h. split_scopes-words_from (join (str " ") ws) ∙ words_from-join ws h,
)
