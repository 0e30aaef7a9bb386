-- ===== src/Audit/Otel.antt =====
-- audit/otel/sink.go: the sink of OpenTelemetry. `Telemetry` stands for its SDK, with the caller's span,
-- over a world `W`.
use mcp_auth_go.Prelude.{Str, str, Bool, false, List, [], ◌∷◌, ◌++◌, Time, if◌then◌else◌, ◌≡◌, refl}
use mcp_auth_go.Core.Errors.{Result, ok, ◌>>=◌}
use mcp_auth_go.Audit.{
  Action, tool_call, token_exchange, action_text, Attr, Event, metric_labels, trace_attributes,
  Sink,
}

-- `attribute.KeyValue` of strings.
abbrev pub KeyValue : Type 0
KeyValue = Str × Str

pub record Telemetry (W : Type 0) : Type 1 where
  pub Counter : Type 0
  -- `Int64Counter` of the meter.
  pub int64_counter : Str → Result Counter
  pub add : W → Counter → List KeyValue → W
  pub is_recording : W → Bool
  pub add_event : W → Str → List KeyValue → W

-- `toKV`.
unfoldable pub to_kv : List Attr → List KeyValue
to_kv [] = []
to_kv (a ∷ attrs) = (a.key, a.value) ∷ to_kv attrs

module _ {W : Type 0} (t : Telemetry W) where
  pub record OtelSink : Type 0 where
    pub tool_calls : t.Counter
    pub exchanges : t.Counter

  unfoldable pub new_otel_sink : Result OtelSink
  new_otel_sink = do
    tool_calls ← t.int64_counter (str "mcp.tool.calls")
    exchanges ← t.int64_counter (str "mcp.broker.exchanges")
    ok (record { tool_calls = tool_calls; exchanges = exchanges })

  -- The counter of an action.
  unfoldable pub counter_of : OtelSink → Action → t.Counter
  counter_of s tool_call = s.tool_calls
  counter_of s token_exchange = s.exchanges

  -- `Record`.
  unfoldable pub otel_record : OtelSink → Sink W
  otel_record s w e =
      let w' = t.add w (counter_of s e.action) (to_kv (metric_labels e)) in
      if t.is_recording w'
      then t.add_event w' (str "mcp." ++ action_text e.action) (to_kv (trace_attributes e))
      else w'

  -- What reaches OpenTelemetry does not depend on the email of an event, nor on its time.
  pub otel_record-email :
      (s : OtelSink) (w : W) (e : Event) (email : Str) (time : Time)
      → otel_record s w (record e { email = email; time = time }) ≡ otel_record s w e
  unfolding otel_record metric_labels trace_attributes
  otel_record-email s w e email time = refl

  -- Where no span records, it does not depend on whom or what the event is about.
  pub otel_record-subject :
      (s : OtelSink) (w : W) (e : Event) (tool subject issuer audience : Str) (scopes : List Str)
      → t.is_recording (t.add w (counter_of s e.action) (to_kv (metric_labels e))) ≡ false
      → otel_record s w (record e {
        tool = tool;
        subject = subject;
        issuer = issuer;
        audience = audience;
        scopes = scopes;
      })
        ≡ otel_record s w e
  unfolding otel_record metric_labels
  otel_record-subject s w e tool subject issuer audience scopes h = rw h refl
