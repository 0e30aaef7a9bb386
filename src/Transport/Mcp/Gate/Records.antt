-- ===== src/Transport/Mcp/Gate/Records.antt =====
-- transport/mcpauth/toolgate.go: what is recorded of a call, and what a refused caller is told.
use mcp_auth_go.Prelude.{Str, str, none, some, [], Time, ◌≡◌, refl, ◌⊎◌, inl, inr, Option-cases}
use mcp_auth_go.Core.Errors.{GoError, AuthError, errorf, new_error, as_auth_error}
use mcp_auth_go.Core.Claims.{Claims}
use mcp_auth_go.Audit.{Event, tool_call, Outcome, denied, Sink}
use mcp_auth_go.Transport.Mcp.Gate.{
  ToolGate, reason_of, denial, tool_event, unauthenticated_event, record_event,
}

-- The event says this of a call of the tool by a caller with these claims.
pub record Tells (claims : Claims) (tool : Str) (outcome : Outcome) (reason : Str) (now : Time)
    (e : Event) : Type 0 where
  pub action : e.action ≡ tool_call
  pub decided : e.outcome ≡ outcome
  pub why : e.reason_code ≡ reason
  pub called : e.tool ≡ tool
  pub subject : e.subject ≡ claims.subject
  pub issuer : e.issuer ≡ claims.issuer
  pub scopes : e.scopes ≡ claims.scopes
  pub email : e.email ≡ claims.email
  pub time : e.time ≡ now

-- The event says this of a call of the tool by a caller without claims.
pub record TellsUnknown (tool : Str) (now : Time) (e : Event) : Type 0 where
  pub action : e.action ≡ tool_call
  pub decided : e.outcome ≡ denied
  pub why : e.reason_code ≡ str "unauthenticated"
  pub called : e.tool ≡ tool
  pub subject : e.subject ≡ []
  pub time : e.time ≡ now

-- What is recorded and what the caller is told of a refusal: the code and the message of the first of
-- the library's errors in its chain, without its cause; and `forbidden` where there is none.
abbrev pub Disclosed : GoError → Str → GoError → Type 0
Disclosed err reason answer =
    ((e : AuthError) × (as_auth_error err ≡ some e)
      × (reason ≡ e.code)
      × (answer ≡ errorf e.message []))
    ⊎ ((as_auth_error err ≡ none) × (reason ≡ str "forbidden") × (answer ≡ new_error "forbidden"))

pub refusal-Disclosed : (err : GoError) → Disclosed err (reason_of err) (denial err)
unfolding reason_of denial
refusal-Disclosed err = elim (Option-cases (as_auth_error err)) [
  | inl e ↦ inr (e, rw (e, reason_of) refl, rw (e, denial) refl)
  | inr (a, e) ↦ inl (a, e, rw (e, reason_of) refl, rw (e, denial) refl)
]

pub tool_event-Tells :
    (claims : Claims) (tool : Str) (outcome : Outcome) (reason : Str) (now : Time)
    → Tells claims tool outcome reason now (tool_event claims tool outcome reason now)
unfolding tool_event
tool_event-Tells claims tool outcome reason now = record {
  action = refl;
  decided = refl;
  why = refl;
  called = refl;
  subject = refl;
  issuer = refl;
  scopes = refl;
  email = refl;
  time = refl;
}

pub unauthenticated_event-TellsUnknown :
    (tool : Str) (now : Time) → TellsUnknown tool now (unauthenticated_event tool now)
unfolding unauthenticated_event
unauthenticated_event-TellsUnknown tool now = record {
  action = refl;
  decided = refl;
  why = refl;
  called = refl;
  subject = refl;
  time = refl;
}

module _ {W : Type 0} where
  -- The event goes to the gate's sink, and nothing happens where there is none.
  abbrev pub Recorded : ToolGate W → W → Event → W → Type 0
  Recorded g w e w' =
      ((g.audit ≡ none) × (w' ≡ w)) ⊎ ((sink : Sink W) × (g.audit ≡ some sink) × (w' ≡ sink w e))

  pub record_event-Recorded :
      (g : ToolGate W) (w : W) (e : Event) → Recorded g w e (record_event g w e)
  unfolding record_event
  record_event-Recorded g w e = elim (Option-cases g.audit) [
    | inl a ↦ inl (a, rw (a, record_event) refl)
    | inr (sink, a) ↦ inr (sink, a, rw (a, record_event) refl)
  ]
