-- ===== src/Audit/Labels.antt =====
-- audit/event.go and audit/sink.go: what an event exports, and to which sinks it goes.
use mcp_auth_go.Prelude.{str, is_nil, List, [], ◌∷◌, ◌++◌, join, if◌then◌else◌}
use mcp_auth_go.Audit.{action_text, outcome_text, Attr, Event, attr_of}

-- The fields of an event that label a metric, and those that go with a trace, as text under their names.
abbrev pub labels : Event → List Attr
labels e =
    record { key = str "action"; value = action_text e.action }
    ∷ record { key = str "outcome"; value = outcome_text e.outcome }
    ∷ record { key = str "reason_code"; value = e.reason_code }
    ∷ []

abbrev pub details : Event → List Attr
details e =
    record { key = str "tool"; value = e.tool }
    ∷ record { key = str "subject"; value = e.subject }
    ∷ record { key = str "issuer"; value = e.issuer }
    ∷ record { key = str "audience"; value = e.audience }
    ∷ record { key = str "scopes"; value = join (str " ") e.scopes }
    ∷ []

-- What of a trace comes behind the labels of the metric.
abbrev trace_rest : Event → List Attr
trace_rest e =
    attr_of (str "tool") e.tool
    ++ (attr_of (str "subject") e.subject
        ++ (attr_of (str "issuer") e.issuer
            ++ (attr_of (str "audience") e.audience
                ++ (if is_nil e.scopes
                    then []
                    else record { key = str "scopes"; value = join (str " ") e.scopes } ∷ []))))
