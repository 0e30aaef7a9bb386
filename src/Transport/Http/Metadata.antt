-- ===== src/Transport/Http/Metadata.antt =====
-- transport/http/metadata.go: the well-known location and its handler.
use mcp_auth_go.Prelude.{
  Str, str, ◌==◌, eq_iff, is_empty, false, ◌&&◌, not, some, ◌++◌, if◌then◌else◌, ◌≡◌, ◌≢◌, ap, ◌⊎◌,
  inl, inr, arith, Bool-cases, ne_of_test,
}
use mcp_auth_go.Transport.Wire.{
  Request, text, document, no_body, Response, new_response, set_header, write_header, write_body,
  http_error, trim_left_slash, trim_right_slash,
}

abbrev pub metadata_path : Str
metadata_path = str "/.well-known/oauth-protected-resource"

unfoldable pub metadata_path_for : Str → Str
metadata_path_for resource_path =
    let trimmed = trim_right_slash (trim_left_slash resource_path) in
    if is_empty trimmed then metadata_path else metadata_path ++ (str "/" ++ trimmed)

-- The handler that `MetadataHandler` returns.
unfoldable pub metadata_handler : Response → Request → Response
metadata_handler w r =
    let served = write_header 200 (
      set_header "Cache-Control" (text (str "public, max-age=3600"))
        (set_header "Content-Type" (text (str "application/json")) w)) in
    if not (r.method == str "GET") && not (r.method == str "HEAD")
    then http_error "method not allowed" 405 (set_header "Allow" (text (str "GET, HEAD")) w)
    else if r.method == str "HEAD"
    then served
    else write_body document served

other : (r : Request) → r.method ≡ str "GET" → (r.method == str "HEAD") ≡ false
unfolding ◌==◌
other r e = ap (λ m. m == str "HEAD") e

-- The document for GET, its headers alone for HEAD, and a refusal for other methods.
abbrev pub MetadataAnswer : Request → Response → Type 0
MetadataAnswer r w =
    ((r.method ≡ str "GET") × (w.status ≡ some 200) × (w.body ≡ document))
    ⊎ (((r.method ≡ str "HEAD") × (w.status ≡ some 200) × (w.body ≡ no_body))
        ⊎ ((r.method ≢ str "GET")
            × (r.method ≢ str "HEAD")
            × (w.status ≡ some 405)
            × (w.body ≢ document)))

-- On a new response, the handler answers GET with status 200 and the document, HEAD with status 200
-- and no body, and every other method with status 405 and without the document.
pub metadata_handler_lem : (r : Request) → MetadataAnswer r (metadata_handler new_response r)
unfolding metadata_handler
metadata_handler_lem r = elim (Bool-cases (r.method == str "GET")) [
  | inl g ↦ inl ((eq_iff _ _).0 g, ground arith, ground (arith, other r ((eq_iff _ _).0 g)))
  | inr g ↦ elim (Bool-cases (r.method == str "HEAD")) [
    | inl h ↦ inr (inl ((eq_iff _ _).0 h, ground arith, ground arith))
    | inr h ↦ inr (inr (ne_of_test _ _ g, ne_of_test _ _ h, ground arith, λ x. ground arith))
  ]
]
