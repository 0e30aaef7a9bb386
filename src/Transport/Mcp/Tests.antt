-- ===== src/Transport/Mcp/Tests.antt =====
-- transport/mcpauth and audit: the theorems at a gate that guards one of two tools. The world is the
-- list of the events recorded.
use mcp_auth_go.Prelude.{str, none, some, List, [], ◌∷◌, lookup, pos, ◌≡◌, refl, false}
use mcp_auth_go.Core.Claims.{Claims}
use mcp_auth_go.Core.Context.{Ctx}
use mcp_auth_go.Core.Policy.{deny_all}
use mcp_auth_go.Audit.{Event, tool_call, denied}
use mcp_auth_go.Dpop.Verifier.{Verifier, opportunistic}
use mcp_auth_go.Transport.Wire.{new_response, no_body, text}
use mcp_auth_go.Transport.Mcp.Tokens.{claims_from_context, verified_info}
use mcp_auth_go.Transport.Mcp.Tokens.Laws.{context_bridge-verified_info}
use mcp_auth_go.Transport.Mcp.Gate.{
  call_tool_params, other_params, Tool, list_tools_result, Handler, ToolGate, gate,
}
use mcp_auth_go.Transport.Mcp.Gate.Laws.{CallAnswer, gate_call-cases, gate-list}
use mcp_auth_go.Transport.Mcp.Challenge.{
  ChallengeWriter, dpop_challenge, write_status, write_status_lem,
}

abbrev ann : Claims
ann = record {
  subject = str "ann";
  email = [];
  issuer = str "https://a";
  audience = [];
  expires_at = pos 60;
  issued_at = pos 0;
  scopes = [];
  confirmation = [];
  raw = [];
}

abbrev tools : List Tool
tools = record { name = str "open"; body = [] } ∷ record { name = str "shut"; body = [] } ∷ []

abbrev guard : ToolGate (List Event)
guard = record {
  policies = (str "shut", some deny_all) ∷ [];
  default = none;
  audit = some (λ w e. e ∷ w);
}

abbrev server : Handler (List Event)
server w ctx method req = (w, some (list_tools_result [] [] tools), none)

abbrev caller : Ctx
caller = record { claims = some ann; raw_token = none; token_info = none }

gate_call-cases_example :
    CallAnswer guard server
      (pos 1)
      []
      caller
      (str "shut")
      []
      (gate guard server (pos 1) [] caller (str "tools/call") (call_tool_params (str "shut") []))
gate_call-cases_example = gate_call-cases guard server (pos 1) [] caller (str "shut") []

gate-list_example : gate guard server (pos 1) [] caller (str "tools/list") (other_params []) ≡ (
  [],
  some (
      list_tools_result [] []
        (gate-list guard server (pos 1) [] [] caller (other_params []) [] [] tools refl).0),
  none,
)
gate-list_example =
    (gate-list guard server (pos 1) [] [] caller (other_params []) [] [] tools refl).1

context_bridge-verified_info_example :
    claims_from_context
      (record { claims = none; raw_token = none; token_info = some (verified_info ann (str "t1")) })
    ≡ some ann
context_bridge-verified_info_example = (context_bridge-verified_info ann (str "t1")).0

abbrev verifier : Verifier
verifier = record {
  mode = opportunistic;
  iat_leeway = pos 60000000000;
  alg_allow = [];
  nonce = none;
}

abbrev writer : ChallengeWriter
writer = record { response = new_response; wrote_header = false }

write_status_lem_sample :
    lookup
      (str "WWW-Authenticate")
      (write_status verifier [] (some (str "use_dpop_nonce")) (pos 1) 401 writer).response.headers
    ≡ some (text (dpop_challenge (str "use_dpop_nonce") []))
write_status_lem_sample =
    (write_status_lem verifier [] (str "use_dpop_nonce") (pos 1) (pos 2) writer 200 no_body refl).0

abbrev opened : Event
opened = record {
  action = tool_call;
  outcome = denied;
  reason_code = str "forbidden";
  tool = str "open";
  subject = str "ann";
  issuer = [];
  audience = [];
  scopes = [];
  email = str "ann@a";
  time = pos 1;
}
