-- ===== src/Telemetry/Payload.antt =====
-- `validatePayloadShape` of packages/telemetry-core/src/ingestor.ts, a block of tests for each type
-- of event.
use patze_control.Base.{
  Bool, not, ◌&&◌, ◌||◌, Option, none, some, String, List, [], ◌∷◌, if◌then◌else◌,
}
use patze_control.Value.{Value, is_record, is_string, is_number, is_boolean, is_date, get}
use patze_control.Telemetry.Events.{
  TelemetryEventType, machine_registered, machine_heartbeat, agent_state_changed,
  session_state_changed, run_state_changed, run_log_emitted, run_tool_started, run_tool_completed,
  run_model_usage, run_resource_usage, trace_span_recorded, type_name,
}
use Prim.Native.String.{◌++◌ as append}

-- A row of `if (!test) return message`, which ends in `return null`.
unfoldable pub first_error : List (Bool × String) → Option String
first_error [] = none
first_error ((test, message) ∷ rest) =
    let later = first_error rest in if test then later else some message

-- `typeof value === 'string' || value instanceof Date`.
abbrev pub is_timestamp : Value → Bool
is_timestamp v = is_string v || is_date v

unfoldable pub machine_registered_tests : Value → List (Bool × String)
machine_registered_tests payload =
    (is_string (get payload "machineId"), "machine.registered.payload.machineId is required.")
    ∷ (is_string (get payload "name"), "machine.registered.payload.name is required.")
    ∷ (is_string (get payload "kind"), "machine.registered.payload.kind is required.")
    ∷ (is_string (get payload "status"), "machine.registered.payload.status is required.")
    ∷ (
      is_timestamp (get payload "registeredAt"),
      "machine.registered.payload.registeredAt must be a timestamp.",
    )
    ∷ []

unfoldable pub machine_heartbeat_tests : Value → List (Bool × String)
machine_heartbeat_tests payload =
    (is_string (get payload "machineId"), "machine.heartbeat.payload.machineId is required.")
    ∷ (is_string (get payload "status"), "machine.heartbeat.payload.status is required.")
    ∷ (is_record (get payload "resource"), "machine.heartbeat.payload.resource is required.")
    ∷ (
      is_number (get (get payload "resource") "cpuPct"),
      "machine.heartbeat.payload.resource.cpuPct is required.",
    )
    ∷ (
      is_number (get (get payload "resource") "memoryBytes"),
      "machine.heartbeat.payload.resource.memoryBytes is required.",
    )
    ∷ (
      is_number (get (get payload "resource") "memoryPct"),
      "machine.heartbeat.payload.resource.memoryPct is required.",
    )
    ∷ []

unfoldable pub agent_state_tests : Value → List (Bool × String)
agent_state_tests payload =
    (is_string (get payload "agentId"), "agent.state.changed.payload.agentId is required.")
    ∷ (is_string (get payload "machineId"), "agent.state.changed.payload.machineId is required.")
    ∷ (
      is_string (get payload "from") && is_string (get payload "to"),
      "agent.state.changed.payload.from/to are required.",
    )
    ∷ []

unfoldable pub session_state_tests : Value → List (Bool × String)
session_state_tests payload =
    (is_string (get payload "sessionId"), "session.state.changed.payload.sessionId is required.")
    ∷ (is_string (get payload "agentId"), "session.state.changed.payload.agentId is required.")
    ∷ (is_string (get payload "machineId"), "session.state.changed.payload.machineId is required.")
    ∷ (
      is_string (get payload "from") && is_string (get payload "to"),
      "session.state.changed.payload.from/to are required.",
    )
    ∷ []

unfoldable pub run_state_tests : Value → List (Bool × String)
run_state_tests payload =
    (is_string (get payload "runId"), "run.state.changed.payload.runId is required.")
    ∷ (is_string (get payload "sessionId"), "run.state.changed.payload.sessionId is required.")
    ∷ (is_string (get payload "agentId"), "run.state.changed.payload.agentId is required.")
    ∷ (
      is_string (get payload "from") && is_string (get payload "to"),
      "run.state.changed.payload.from/to are required.",
    )
    ∷ []

unfoldable pub run_log_tests : Value → List (Bool × String)
run_log_tests payload =
    (is_string (get payload "logEntryId"), "run.log.emitted.payload.logEntryId is required.")
    ∷ (is_string (get payload "runId"), "run.log.emitted.payload.runId is required.")
    ∷ (is_string (get payload "sessionId"), "run.log.emitted.payload.sessionId is required.")
    ∷ (is_string (get payload "level"), "run.log.emitted.payload.level is required.")
    ∷ (is_string (get payload "message"), "run.log.emitted.payload.message is required.")
    ∷ (is_timestamp (get payload "ts"), "run.log.emitted.payload.ts must be a timestamp.")
    ∷ []

unfoldable pub tool_started_tests : Value → List (Bool × String)
tool_started_tests payload =
    (is_string (get payload "runId"), "run.tool.started.payload.runId is required.")
    ∷ (is_string (get payload "toolCallId"), "run.tool.started.payload.toolCallId is required.")
    ∷ (is_string (get payload "toolName"), "run.tool.started.payload.toolName is required.")
    ∷ (
      is_timestamp (get payload "startedAt"),
      "run.tool.started.payload.startedAt must be a timestamp.",
    )
    ∷ []

unfoldable pub tool_completed_tests : Value → List (Bool × String)
tool_completed_tests payload =
    (is_string (get payload "runId"), "run.tool.completed.payload.runId is required.")
    ∷ (is_string (get payload "toolCallId"), "run.tool.completed.payload.toolCallId is required.")
    ∷ (is_string (get payload "toolName"), "run.tool.completed.payload.toolName is required.")
    ∷ (is_string (get payload "status"), "run.tool.completed.payload.status is required.")
    ∷ (is_number (get payload "durationMs"), "run.tool.completed.payload.durationMs is required.")
    ∷ (is_boolean (get payload "success"), "run.tool.completed.payload.success is required.")
    ∷ []

unfoldable pub model_usage_tests : Value → List (Bool × String)
model_usage_tests payload =
    (is_string (get payload "runId"), "run.model.usage.payload.runId is required.")
    ∷ (is_string (get payload "machineId"), "run.model.usage.payload.machineId is required.")
    ∷ (is_string (get payload "provider"), "run.model.usage.payload.provider is required.")
    ∷ (is_string (get payload "model"), "run.model.usage.payload.model is required.")
    ∷ []

unfoldable pub resource_usage_tests : Value → List (Bool × String)
resource_usage_tests payload =
    (is_string (get payload "machineId"), "run.resource.usage.payload.machineId is required.")
    ∷ (is_number (get payload "cpuPct"), "run.resource.usage.payload.cpuPct is required.")
    ∷ (is_number (get payload "memoryBytes"), "run.resource.usage.payload.memoryBytes is required.")
    ∷ (is_number (get payload "memoryPct"), "run.resource.usage.payload.memoryPct is required.")
    ∷ []

unfoldable pub span_tests : Value → List (Bool × String)
span_tests payload =
    (is_string (get payload "id"), "trace.span.recorded.payload.id is required.")
    ∷ (is_string (get payload "traceId"), "trace.span.recorded.payload.traceId is required.")
    ∷ (is_string (get payload "machineId"), "trace.span.recorded.payload.machineId is required.")
    ∷ (is_string (get payload "name"), "trace.span.recorded.payload.name is required.")
    ∷ []

unfoldable pub payload_tests : TelemetryEventType → Value → List (Bool × String)
unfolding machine_registered_tests machine_heartbeat_tests agent_state_tests session_state_tests
    run_state_tests run_log_tests tool_started_tests tool_completed_tests model_usage_tests
    resource_usage_tests span_tests
payload_tests machine_registered = machine_registered_tests
payload_tests machine_heartbeat = machine_heartbeat_tests
payload_tests agent_state_changed = agent_state_tests
payload_tests session_state_changed = session_state_tests
payload_tests run_state_changed = run_state_tests
payload_tests run_log_emitted = run_log_tests
payload_tests run_tool_started = tool_started_tests
payload_tests run_tool_completed = tool_completed_tests
payload_tests run_model_usage = model_usage_tests
payload_tests run_resource_usage = resource_usage_tests
payload_tests trace_span_recorded = span_tests

-- `none` is the source's `null`: no error.
unfoldable pub validate_payload_shape : TelemetryEventType → Value → Option String
unfolding first_error payload_tests
validate_payload_shape event_type payload =
    if not (is_record payload)
    then some (append "Payload for '" (append (type_name event_type) "' must be an object."))
    else first_error (payload_tests event_type payload)
