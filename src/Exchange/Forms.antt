-- ===== src/Exchange/Forms.antt =====
-- exchange/request.go and exchange/exchanger.go: requests, and the forms that are posted for them.
use mcp_auth_go.Prelude.{
  Str, String, str, is_empty, is_nil, List, [], GoMap, insert, join, if◌then◌else◌,
}

pub record Request : Type 0 where
  pub subject_token : Str
  pub subject : Str
  pub audience : Str
  pub resource : Str
  pub scope : List Str
  pub actor_token : Str
  pub subject_token_type : Str
  pub requested_token_type : Str

-- The form of a request, one value for each name.
abbrev pub Form : Type 0
Form = GoMap Str

abbrev pub or_default : Str → Str → Str
or_default s d = if is_empty s then d else s

-- `if value != "" { form.Set(name, value) }`.
abbrev pub set_if : String → Str → Form → Form
set_if name value form = if is_empty value then form else insert (str name) value form

abbrev pub grant_type_token_exchange : Str
grant_type_token_exchange = str "urn:ietf:params:oauth:grant-type:token-exchange"

abbrev pub grant_type_jwt_bearer : Str
grant_type_jwt_bearer = str "urn:ietf:params:oauth:grant-type:jwt-bearer"

abbrev pub token_type_access_token : Str
token_type_access_token = str "urn:ietf:params:oauth:token-type:access_token"

-- The form of `Exchange`.
unfoldable pub exchange_form : Request → Form
exchange_form req =
    let base : Form =
      insert (str "subject_token_type") (or_default req.subject_token_type token_type_access_token)
        (insert (str "subject_token") req.subject_token
          (insert (str "grant_type") grant_type_token_exchange [])) in
    let form = set_if "resource" req.resource (
      set_if "audience" req.audience
        (set_if "requested_token_type" req.requested_token_type base)) in
    let scoped =
      if is_nil req.scope then form else insert (str "scope") (join (str " ") req.scope) form in
    if is_empty req.actor_token
    then scoped
    else insert (str "actor_token_type") token_type_access_token
        (insert (str "actor_token") req.actor_token scoped)

unfoldable pub assertion_form : Str → List Str → Form
assertion_form assertion scope =
    let form : Form =
      insert (str "assertion") assertion (insert (str "grant_type") grant_type_jwt_bearer []) in
    if is_nil scope then form else insert (str "scope") (join (str " ") scope) form
