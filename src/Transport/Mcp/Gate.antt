-- ===== src/Transport/Mcp/Gate.antt =====
-- transport/mcpauth/toolgate.go: the authorization of tool calls and the filter of tool lists.
-- `W` is the world that sinks and handlers change. `now` is the instant that the gate's clock reads.
pub mod Policies
pub mod Records
pub mod Laws
use mcp_auth_go.Prelude.{
  Str, str, ◌==◌, Option, none, some, List, [], GoMap, lookup, Time, keep, is_some, not,
  if◌then◌else◌,
}
use mcp_auth_go.Core.Errors.{GoError, errorf, new_error, as_auth_error}
use mcp_auth_go.Core.Claims.{Claims}
use mcp_auth_go.Core.Context.{Ctx}
use mcp_auth_go.Core.Policy.{Authorizer}
use mcp_auth_go.Audit.{Event, tool_call, Outcome, granted, denied, Sink}
use mcp_auth_go.Transport.Mcp.Tokens.{claims_from_context}

-- `mcp.Request`, by its parameters: those of a tool call, by the tool's name and the arguments, or
-- others.
pub data Params : Type 0 where
  call_tool_params : Str → Str → Params
  other_params : Str → Params

pub record Tool : Type 0 where
  pub name : Str
  pub body : Str

-- `mcp.Result`: a list of tools, with its meta data and its cursor, or another one.
pub data McpResult : Type 0 where
  list_tools_result : Str → Str → List Tool → McpResult
  other_result : Str → McpResult

-- `mcp.MethodHandler` in the world `W`; the result and the error may be nil.
abbrev pub Handler : Type 0 → Type 0
Handler W = W → Ctx → Str → Params → W × Option McpResult × Option GoError

-- A policy of the map may be a nil function.
pub record ToolGate (W : Type 0) : Type 0 where
  pub policies : GoMap (Option Authorizer)
  pub default : Option Authorizer
  pub audit : Option (Sink W)

unfoldable pub err_unauthenticated : GoError
err_unauthenticated = new_error "forbidden: request is not authenticated"

unfoldable pub reason_of : GoError → Str
reason_of err = elim (as_auth_error err) [ none ↦ str "forbidden" | some e ↦ e.code ]

unfoldable pub denial : GoError → GoError
denial err = elim (as_auth_error err) [
  | none ↦ new_error "forbidden"
  | some e ↦ errorf e.message []
]

unfoldable pub tool_event : Claims → Str → Outcome → Str → Time → Event
tool_event claims tool outcome reason now = record {
  action = tool_call;
  outcome = outcome;
  reason_code = reason;
  tool = tool;
  subject = claims.subject;
  issuer = claims.issuer;
  audience = [];
  scopes = claims.scopes;
  email = claims.email;
  time = now;
}

unfoldable pub unauthenticated_event : Str → Time → Event
unauthenticated_event tool now = record {
  action = tool_call;
  outcome = denied;
  reason_code = str "unauthenticated";
  tool = tool;
  subject = [];
  issuer = [];
  audience = [];
  scopes = [];
  email = [];
  time = now;
}

module _ {W : Type 0} where
  unfoldable pub policy_for : ToolGate W → Str → Option Authorizer
  policy_for g tool = elim (lookup tool g.policies) [ some p ↦ p | none ↦ g.default ]

  unfoldable pub evaluate : ToolGate W → Ctx → Claims → Str → Option GoError
  evaluate g ctx claims tool = elim (policy_for g tool) [
    | none ↦ none
    | some policy ↦ policy ctx claims
  ]

  unfoldable pub record_event : ToolGate W → W → Event → W
  record_event g w e = elim g.audit [ none ↦ w | some sink ↦ sink w e ]

  unfoldable pub gate_call : ToolGate W → Handler W → Time → Handler W
  gate_call g next now w ctx method (other_params p) = next w ctx method (other_params p)
  gate_call g next now w ctx method (call_tool_params tool args) = elim (claims_from_context ctx) [
    | none ↦ (record_event g w (unauthenticated_event tool now), none, some err_unauthenticated)
    | some claims ↦ elim (evaluate g ctx claims tool) [
      | some err ↦ (
        record_event g w (tool_event claims tool denied (reason_of err) now),
        none,
        some (denial err),
      )
      | none ↦
          next (record_event g w (tool_event claims tool granted [] now)) ctx method
            (call_tool_params tool args)
    ]
  ]

  -- The tools of a list that a caller sees.
  unfoldable pub visible : ToolGate W → Ctx → List Tool → List Tool
  visible g ctx tools = elim (claims_from_context ctx) [
    | none ↦ []
    | some claims ↦ keep (λ tool. not (is_some (evaluate g ctx claims tool.name))) tools
  ]

  unfoldable pub filter_result : ToolGate W → Ctx → Option McpResult → Option McpResult
  filter_result g ctx (some (list_tools_result meta cursor tools)) =
      some (list_tools_result meta cursor (visible g ctx tools))
  filter_result g ctx res = res

  unfoldable pub filter_list : ToolGate W → Handler W → Handler W
  filter_list g next w ctx method req =
      let (w', res, err) = next w ctx method req in
      (w', (if is_some err then res else filter_result g ctx res), err)

  -- `Middleware`.
  unfoldable pub gate : ToolGate W → Handler W → Time → Handler W
  gate g next now w ctx method req =
      if method == str "tools/call"
      then gate_call g next now w ctx method req
      else if method == str "tools/list"
      then filter_list g next w ctx method req
      else next w ctx method req
