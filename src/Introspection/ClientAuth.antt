-- ===== src/Introspection/ClientAuth.antt =====
-- introspection/clientauth.go: the request to the endpoint, and its authentication.
use mcp_auth_go.Prelude.{Str, str, Option, some, GoMap, insert}
use mcp_auth_go.Core.Errors.{Result, ok}
use mcp_auth_go.Exchange.Forms.{Form}

-- An `*http.Request` that posts a form: its URL, its headers, the credentials of `SetBasicAuth`, and
-- the form that its body encodes.
pub record HttpRequest : Type 0 where
  pub url : Str
  pub header : GoMap Str
  pub basic : Option (Str × Str)
  pub form : Form

-- The interface `ClientAuthenticator`: `Apply` changes the request and the form.
abbrev pub ClientAuthenticator : Type 0
ClientAuthenticator = HttpRequest → Result HttpRequest

-- `BasicAuth` and `FormPost` have the same fields.
pub record Credentials : Type 0 where
  pub client_id : Str
  pub client_secret : Str

unfoldable pub basic_auth : Credentials → ClientAuthenticator
basic_auth b req = ok (record req { basic = some (b.client_id, b.client_secret) })

unfoldable pub form_post : Credentials → ClientAuthenticator
form_post f req = ok (record req {
  form =
      insert (str "client_secret") f.client_secret (insert (str "client_id") f.client_id req.form);
})
