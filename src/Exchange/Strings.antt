-- ===== src/Exchange/Strings.antt =====
-- exchange/exchanger.go: `sort.Strings` and `strings.Fields`, as the exchange uses them.
pub mod Order
use mcp_auth_go.Prelude.{
  ℕ, suc, ltb, Str, is_empty, Bool, true, false, ◌&&◌, ◌||◌, List, [], ◌∷◌, ◌++◌, eqb, length, drop,
  if◌then◌else◌,
}
use mcp_auth_go.Transport.Wire.{white_runes, white}

-- The order of strings, by their bytes.
unfoldable pub str_leb : Str → Str → Bool
str_leb [] t = true
str_leb (c ∷ s) [] = false
str_leb (c ∷ s) (d ∷ t) = let rest = str_leb s t in if ltb c d then true else eqb c d && rest

-- `sort.Strings`.
unfoldable pub insert_sorted : Str → List Str → List Str
insert_sorted s [] = s ∷ []
insert_sorted s (t ∷ ts) =
    let rest = insert_sorted s ts in if str_leb s t then s ∷ t ∷ ts else t ∷ rest

unfoldable pub sort_strings : List Str → List Str
sort_strings [] = []
sort_strings (s ∷ ss) = insert_sorted s (sort_strings ss)

-- `strings.Fields`, with a bound on its steps and the field read so far.
unfoldable pub fields_from : ℕ → Str → Str → List Str
fields_from (suc n) word (c ∷ s) =
    let k = white white_runes (c ∷ s) in
    let rest =
      fields_from n (if eqb k 0 then word ++ c ∷ [] else [])
        (if eqb k 0 then s else drop k (c ∷ s)) in
    if eqb k 0 || is_empty word then rest else word ∷ rest
fields_from _ word s = if is_empty word then [] else word ∷ []

unfoldable pub fields : Str → List Str
fields s = fields_from (suc (length s)) [] s
