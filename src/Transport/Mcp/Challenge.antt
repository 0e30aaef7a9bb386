-- ===== src/Transport/Mcp/Challenge.antt =====
-- transport/mcpauth/challenge.go: the writer that puts the DPoP challenge on a response.
-- `w.st` is read when the header is written: its code is an argument, `none` where it is not a DPoP
-- challenge.
use mcp_auth_go.Prelude.{
  ℕ, Str, str, ◌==◌, is_empty, Bool, true, false, ◌&&◌, Option, none, some, ◌∷◌, ◌++◌, lookup,
  lookup-insert, Time, eqb, leb, ltb, is_some, join, if◌then◌else◌, ◌≡◌, refl, arith,
}
use mcp_auth_go.Core.Errors.{err_use_dpop_nonce}
use mcp_auth_go.Dpop.Verifier.{Verifier, issue_nonce, nonce_configured}
use mcp_auth_go.Transport.Wire.{text, decimal, Body, Response, set_header, write_header, write_body}
use mcp_auth_go.Transport.Http.{param, metadata_params, hand_nonce}

unfoldable pub dpop_challenge : Str → Str → Str
dpop_challenge code resource_metadata_url =
    str "DPoP "
    ++ join (str ", ")
        (param "realm" (str "mcp") ∷ param "error" code ∷ metadata_params resource_metadata_url)

-- `h.Get(name) == ""`.
unfoldable pub lacks_header : Str → Response → Bool
lacks_header name w = elim (lookup name w.headers) [
  | none ↦ true
  | some (text v) ↦ is_empty v
  | some (decimal n) ↦ false
]

pub record ChallengeWriter : Type 0 where
  pub response : Response
  pub wrote_header : Bool

module _ (dv : Verifier) (resource_metadata_url : Str) where
  -- The challenge of a 401.
  unfoldable pub challenge : Str → Time → Response → Response
  challenge code now w =
      let w' =
        set_header "Cache-Control" (text (str "no-store"))
          (set_header "WWW-Authenticate" (text (dpop_challenge code resource_metadata_url)) w) in
      if code == err_use_dpop_nonce.code then hand_nonce dv now w' else w'

  -- The nonce of a success.
  unfoldable pub rotate : Time → Response → Response
  rotate now w =
      if is_empty (issue_nonce dv now)
      then w
      else let w' = set_header "DPoP-Nonce" (text (issue_nonce dv now)) w in
        if lacks_header (str "Cache-Control") w'
        then set_header "Cache-Control" (text (str "no-store")) w'
        else w'

  unfoldable pub inject : Option Str → Time → ℕ → Response → Response
  inject st now code w =
      if is_some st && eqb code 401
      then elim st [ none ↦ w | some c ↦ challenge c now w ]
      else if leb 200 code && ltb code 300 && nonce_configured dv
      then rotate now w
      else w

  unfoldable pub write_status : Option Str → Time → ℕ → ChallengeWriter → ChallengeWriter
  write_status st now code cw = record {
    response =
        write_header code (if cw.wrote_header then cw.response else inject st now code cw.response);
    wrote_header = true;
  }

  unfoldable pub write : Option Str → Time → Body → ChallengeWriter → ChallengeWriter
  write st now body cw =
      let cw' = if cw.wrote_header then cw else write_status st now 200 cw in
      record cw' { response = write_body body cw'.response }

  pub challenge-header :
      (code : Str) (now : Time) (w : Response)
      → lookup (str "WWW-Authenticate") (challenge code now w).headers
        ≡ some (text (dpop_challenge code resource_metadata_url))
  unfolding challenge ◌==◌
  challenge-header code now w = ground (
    arith,
    lookup-insert (str "DPoP-Nonce") (str "WWW-Authenticate") (text (issue_nonce dv now))
        (set_header "Cache-Control" (text (str "no-store")) (
          set_header "WWW-Authenticate" (text (dpop_challenge code resource_metadata_url))
            w)).headers,
    lookup-insert (str "Cache-Control") (str "WWW-Authenticate") (text (str "no-store"))
        (set_header "WWW-Authenticate" (text (dpop_challenge code resource_metadata_url))
          w).headers,
    lookup-insert (str "WWW-Authenticate") (str "WWW-Authenticate")
        (text (dpop_challenge code resource_metadata_url)) w.headers,
  )

  -- The first status 401 of a request whose proof was refused carries the DPoP challenge with its
  -- code, whatever challenge was there before; and no later status or body changes any header.
  pub write_status_lem :
      (code : Str) (now later : Time) (cw : ChallengeWriter) (status : ℕ) (body : Body)
      → cw.wrote_header ≡ false
      → (let first = write_status (some code) now 401 cw in
          (lookup (str "WWW-Authenticate") first.response.headers
            ≡ some (text (dpop_challenge code resource_metadata_url)))
          × ((write_status (some code) later status first).response.headers
              ≡ first.response.headers)
          × ((write (some code) later body first).response.headers ≡ first.response.headers))
  unfolding write_status inject write
  write_status_lem code now later cw status body fresh =
      (rw fresh (challenge-header code now cw.response), refl, refl)
