-- ===== src/Transport/Wire.antt =====
-- transport/http/middleware.go: the byte strings that both adapters build, and requests, headers and
-- responses as far as the program reads and writes them.
pub mod Laws
use mcp_auth_go.Prelude.{
  ℕ, zero, suc, ◌+◌, Str, String, str, ◌==◌, is_empty, Bool, ◌||◌, ◌&&◌, not, Option, none, some,
  List, [], ◌∷◌, ◌++◌, map, length, take, drop, eqb, ltb, GoMap, lookup, insert, if◌then◌else◌,
}
use mcp_auth_go.Core.Errors.{AuthError}

-- `http.Request`: its header maps a canonical name to its values.
pub record Request : Type 0 where
  pub method : Str
  pub header : GoMap (List Str)
  pub path : Str
  pub host : Str
  pub tls : Bool

-- `r.Header.Values(name)` and `r.Header.Get(name)`.
unfoldable pub header_values : Request → Str → List Str
header_values r name = elim (lookup name r.header) [ none ↦ [] | some vs ↦ vs ]

unfoldable pub header_get : Request → Str → Str
header_get r name = elim (header_values r name) [ [] ↦ [] | v ∷ vs ↦ v ]

-- The value of a response header; `decimal n` is the digits of `n`.
pub data HeaderValue : Type 0 where
  text : Str → HeaderValue
  decimal : ℕ → HeaderValue

-- The body of a response: `json e` is what `json.Encoder` makes of the error `e`, whose cause has no
-- tag, and `document` is what `json.Marshal` made of the metadata.
pub data Body : Type 0 where
  no_body : Body
  plain : Str → Body
  json : AuthError → Body
  document : Body

-- What has been written to an `http.ResponseWriter`.
pub record Response : Type 0 where
  pub status : Option ℕ
  pub headers : GoMap HeaderValue
  pub body : Body

abbrev pub new_response : Response
new_response = record { status = none; headers = []; body = no_body }

-- `w.Header().Set(name, value)`.
abbrev pub set_header : String → HeaderValue → Response → Response
set_header name value w = record w { headers = insert (str name) value w.headers }

-- `w.WriteHeader(status)`, of which the first call counts.
abbrev pub write_header : ℕ → Response → Response
write_header code w = record w { status = elim w.status [ none ↦ some code | some s ↦ some s ] }

abbrev pub write_body : Body → Response → Response
write_body body w = record w { body = body }

-- `http.Error(w, message, code)`.
abbrev pub http_error : String → ℕ → Response → Response
http_error message code w = write_body (plain (str message ++ 10 ∷ [])) (
    write_header code (
      set_header "X-Content-Type-Options" (text (str "nosniff"))
        (set_header "Content-Type" (text (str "text/plain; charset=utf-8")) w)))

-- A byte that a quoted string keeps.
unfoldable pub is_quotable : ℕ → Bool
is_quotable c = not (eqb c 34 || eqb c 92 || ltb c 32 || eqb c 127)

unfoldable pub sanitize_quoted : Str → Str
sanitize_quoted [] = []
sanitize_quoted (c ∷ s) = let rest = sanitize_quoted s in if is_quotable c then c ∷ rest else rest

-- `strings.TrimRight(s, "/")` and `strings.TrimLeft(s, "/")`.
unfoldable pub trim_right_slash : Str → Str
trim_right_slash [] = []
trim_right_slash (c ∷ s) =
    let rest = trim_right_slash s in if eqb c b'/' && is_empty rest then [] else c ∷ rest

unfoldable pub trim_left_slash : Str → Str
trim_left_slash [] = []
trim_left_slash (c ∷ s) = if eqb c b'/' then trim_left_slash s else c ∷ s

unfoldable pub request_url : Request → Str → Str
request_url r base_url =
    if not (is_empty base_url)
    then trim_right_slash base_url ++ r.path
    else (if r.tls then str "https" else str "http") ++ (str "://" ++ (r.host ++ r.path))

-- The white space of `unicode.IsSpace`, each rune by its UTF-8 bytes.
abbrev pub white_runes : List Str
white_runes =
    (9 ∷ [])
    ∷ (10 ∷ [])
    ∷ (11 ∷ [])
    ∷ (12 ∷ [])
    ∷ (13 ∷ [])
    ∷ (32 ∷ [])
    ∷ (194 ∷ 133 ∷ [])
    ∷ (194 ∷ 160 ∷ [])
    ∷ (225 ∷ 154 ∷ 128 ∷ [])
    ∷ (226 ∷ 128 ∷ 128 ∷ [])
    ∷ (226 ∷ 128 ∷ 129 ∷ [])
    ∷ (226 ∷ 128 ∷ 130 ∷ [])
    ∷ (226 ∷ 128 ∷ 131 ∷ [])
    ∷ (226 ∷ 128 ∷ 132 ∷ [])
    ∷ (226 ∷ 128 ∷ 133 ∷ [])
    ∷ (226 ∷ 128 ∷ 134 ∷ [])
    ∷ (226 ∷ 128 ∷ 135 ∷ [])
    ∷ (226 ∷ 128 ∷ 136 ∷ [])
    ∷ (226 ∷ 128 ∷ 137 ∷ [])
    ∷ (226 ∷ 128 ∷ 138 ∷ [])
    ∷ (226 ∷ 128 ∷ 168 ∷ [])
    ∷ (226 ∷ 128 ∷ 169 ∷ [])
    ∷ (226 ∷ 128 ∷ 175 ∷ [])
    ∷ (226 ∷ 129 ∷ 159 ∷ [])
    ∷ (227 ∷ 128 ∷ 128 ∷ [])
    ∷ []

unfoldable pub reversed : Str → Str → Str
reversed [] acc = acc
reversed (c ∷ s) acc = reversed s (c ∷ acc)

-- The length of the first of the runes that `s` starts with, 0 if there is none.
unfoldable pub white : List Str → Str → ℕ
white [] s = 0
white (rune ∷ runes) s = if take (length rune) s == rune then length rune else white runes s

-- The first argument bounds the runes that are cut off.
unfoldable pub trim_white : ℕ → List Str → Str → Str
trim_white zero runes s = s
trim_white (suc n) runes s =
    let k = white runes s in let rest = trim_white n runes (drop k s) in if eqb k 0 then s else rest

-- `strings.TrimSpace(s)`.
unfoldable pub trim_space : Str → Str
trim_space s =
    let left = trim_white (length s) white_runes s in
    reversed
      (trim_white (length left) (map (λ rune. reversed rune []) white_runes) (reversed left [])) []
