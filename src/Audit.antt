-- ===== src/Audit.antt =====
-- audit/event.go and audit/sink.go: events, what of them is exported, and sinks.
-- A sink is what recording an event does to the world `W`.
pub mod Labels
pub mod Otel
use mcp_auth_go.Prelude.{
  Str, str, is_empty, is_nil, Option, none, some, List, [], ◌∷◌, ◌++◌, join, Time, if◌then◌else◌,
}

pub data Action : Type 0 where
  tool_call token_exchange : Action

pub data Outcome : Type 0 where
  granted denied error : Outcome

-- `string(action)` and `string(outcome)`.
abbrev pub action_text : Action → Str
action_text tool_call = str "tool_call"
action_text token_exchange = str "token_exchange"

abbrev pub outcome_text : Outcome → Str
outcome_text granted = str "granted"
outcome_text denied = str "denied"
outcome_text error = str "error"

pub record Attr : Type 0 where
  pub key : Str
  pub value : Str

pub record Event : Type 0 where
  pub action : Action
  pub outcome : Outcome
  pub reason_code : Str
  pub tool : Str
  pub subject : Str
  pub issuer : Str
  pub audience : Str
  pub scopes : List Str
  pub email : Str
  pub time : Time

-- `if value != "" { attrs = append(attrs, Attr{key, value}) }`.
abbrev pub attr_of : Str → Str → List Attr
attr_of key value = if is_empty value then [] else record { key = key; value = value } ∷ []

unfoldable pub metric_labels : Event → List Attr
metric_labels e =
    record { key = str "action"; value = action_text e.action }
    ∷ record { key = str "outcome"; value = outcome_text e.outcome }
    ∷ attr_of (str "reason_code") e.reason_code

unfoldable pub trace_attributes : Event → List Attr
trace_attributes e =
    metric_labels e
    ++ (attr_of (str "tool") e.tool
        ++ (attr_of (str "subject") e.subject
            ++ (attr_of (str "issuer") e.issuer
                ++ (attr_of (str "audience") e.audience
                    ++ (if is_nil e.scopes
                        then []
                        else record { key = str "scopes"; value = join (str " ") e.scopes }
                          ∷ [])))))

abbrev pub Sink : Type 0 → Type 0
Sink W = W → Event → W

module _ {W : Type 0} where
  unfoldable pub nop_sink : Sink W
  nop_sink w e = w

  -- `NewMultiSink` drops the sinks that are nil.
  unfoldable pub new_multi_sink : List (Option (Sink W)) → List (Sink W)
  new_multi_sink [] = []
  new_multi_sink (none ∷ sinks) = new_multi_sink sinks
  new_multi_sink (some s ∷ sinks) = s ∷ new_multi_sink sinks

  unfoldable pub multi_record : List (Sink W) → Sink W
  multi_record [] w e = w
  multi_record (s ∷ sinks) w e = multi_record sinks (s w e) e

-- A value of a log record's attribute: `slog.String`, `slog.Any` at a slice and `slog.Time`.
pub data LogValue : Type 0 where
  string_value : Str → LogValue
  list_value : List Str → LogValue
  time_value : Time → LogValue

unfoldable pub log_attributes : Event → List (Str × LogValue)
log_attributes e =
    (str "action", string_value (action_text e.action))
    ∷ (str "outcome", string_value (outcome_text e.outcome))
    ∷ (str "reason_code", string_value e.reason_code)
    ∷ (str "tool", string_value e.tool)
    ∷ (str "subject", string_value e.subject)
    ∷ (str "issuer", string_value e.issuer)
    ∷ (str "audience", string_value e.audience)
    ∷ (str "scopes", list_value e.scopes)
    ∷ (str "email", string_value e.email)
    ∷ (str "time", time_value e.time)
    ∷ []

-- `Record` of `slogSink`, over what `LogAttrs` does at the level Info with a message.
unfoldable pub slog_record : {W : Type 0} → (W → Str → List (Str × LogValue) → W) → Sink W
slog_record log w e = log w (str "audit") (log_attributes e)
