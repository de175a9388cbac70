-- ===== src/Telemetry/Events.antt =====
-- The names and the envelope of telemetry events
-- (packages/telemetry-core/src/types.ts and events.ts).
use patze_control.Base.{Option, String, List, [], ◌∷◌, ◌==◌, find}
use patze_control.Value.{Value, deep_freeze}

pub data TelemetrySeverity : Type 0 where
  debug info warn error critical : TelemetrySeverity

pub data TelemetryEventType : Type 0 where
  machine_registered machine_heartbeat agent_state_changed session_state_changed :
      TelemetryEventType
  run_state_changed run_log_emitted run_tool_started run_tool_completed : TelemetryEventType
  run_model_usage run_resource_usage trace_span_recorded : TelemetryEventType

unfoldable pub type_name : TelemetryEventType → String
type_name machine_registered = "machine.registered"
type_name machine_heartbeat = "machine.heartbeat"
type_name agent_state_changed = "agent.state.changed"
type_name session_state_changed = "session.state.changed"
type_name run_state_changed = "run.state.changed"
type_name run_log_emitted = "run.log.emitted"
type_name run_tool_started = "run.tool.started"
type_name run_tool_completed = "run.tool.completed"
type_name run_model_usage = "run.model.usage"
type_name run_resource_usage = "run.resource.usage"
type_name trace_span_recorded = "trace.span.recorded"

unfoldable pub severity_name : TelemetrySeverity → String
severity_name debug = "debug"
severity_name info = "info"
severity_name warn = "warn"
severity_name error = "error"
severity_name critical = "critical"

-- The sets TELEMETRY_EVENT_TYPES and TELEMETRY_SEVERITIES, and the member of a given name.
unfoldable pub telemetry_event_types : List TelemetryEventType
telemetry_event_types =
    machine_registered ∷ machine_heartbeat ∷ agent_state_changed ∷ session_state_changed
    ∷ run_state_changed ∷ run_log_emitted ∷ run_tool_started ∷ run_tool_completed ∷ run_model_usage
    ∷ run_resource_usage ∷ trace_span_recorded ∷ []

unfoldable pub telemetry_severities : List TelemetrySeverity
telemetry_severities = debug ∷ info ∷ warn ∷ error ∷ critical ∷ []

unfoldable pub event_type_of : String → Option TelemetryEventType
unfolding type_name telemetry_event_types
event_type_of name = find (λ t. type_name t == name) telemetry_event_types

unfoldable pub severity_of : String → Option TelemetrySeverity
unfolding severity_name telemetry_severities
severity_of name = find (λ s. severity_name s == name) telemetry_severities

pub record TelemetryEventTrace : Type 0 where
  pub trace_id : String
  pub span_id : Option String
  pub parent_span_id : Option String

-- The payload is kept as the value that was sent: the ingestor casts it and pins only some of its
-- fields.
pub record TelemetryEvent : Type 0 where
  pub id : String
  pub ts : String
  pub machine_id : String
  pub severity : TelemetrySeverity
  pub event_type : TelemetryEventType
  pub payload : Value
  pub trace : TelemetryEventTrace

-- `cloneAndFreezeEvent`: `structuredClone` copies a value, and only the payload can hold objects
-- that `deepFreeze` changes.
unfoldable pub clone_and_freeze_event : TelemetryEvent → TelemetryEvent
clone_and_freeze_event event = record event { payload = deep_freeze event.payload }
