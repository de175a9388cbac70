-- ===== src/Mapper/Envelope.antt =====
-- The envelopes that the mapper sends (packages/openclaw-bridge/src/mapper.ts), as the JSON values
-- that the ingestor reads. Ids and the present time are a parameter.
use patze_control.Base.{ℕ, Bool, true, false, Option, none, some, or_else, String}
use patze_control.Value.{Value, text, bool, number, object, Fields, field, end}
use patze_control.Telemetry.Events.{
  TelemetryEventType, run_state_changed, session_state_changed, run_tool_started,
  run_tool_completed, run_log_emitted, run_model_usage, type_name, severity_name,
}
use patze_control.Telemetry.Ingestor.{telemetry_schema_version}
use patze_control.Mapper.Runs.{nonempty}
use patze_control.Mapper.Types.{
  SessionRunLifecycleState, created, queued, running, waiting_tool, streaming, completed, failed,
  cancelled, ToolCallStatus, call_completed, call_failed, call_cancelled, MappedPayload,
  MappedEvent, run_changed, session_changed, tool_started, tool_completed, log_emitted, model_used,
}

-- What `makeEventId`, `nowIso` and `makeTrace` give for an event; the time may be taken twice.
pub record Stamp : Type 0 where
  pub id : String
  pub now : String
  pub now_again : String
  pub trace_id : String
  pub span_id : String

unfoldable pub lifecycle_name : SessionRunLifecycleState → String
lifecycle_name created = "created"
lifecycle_name queued = "queued"
lifecycle_name running = "running"
lifecycle_name waiting_tool = "waiting_tool"
lifecycle_name streaming = "streaming"
lifecycle_name completed = "completed"
lifecycle_name failed = "failed"
lifecycle_name cancelled = "cancelled"

abbrev pub optional_text : String → Option String → Fields
optional_text name none = end
optional_text name (some s) = field name (text s) end

abbrev pub optional_number : String → Option ℕ → Fields → Fields
optional_number name none fs = fs
optional_number name (some n) fs = field name (number n) fs

-- The status of a call that has ended.
abbrev pub ended_name : ToolCallStatus → String
ended_name call_cancelled = "cancelled"
ended_name call_failed = "failed"
ended_name _ = "completed"

abbrev pub is_call_completed : ToolCallStatus → Bool
is_call_completed call_completed = true
is_call_completed _ = false

unfoldable pub payload_value : String → Stamp → MappedPayload → Value
unfolding lifecycle_name severity_name
payload_value machine_id stamp (run_changed change) = object (
    field "runId" (text change.run_id) (
      field "sessionId" (text change.session_id) (
        field "agentId" (text change.agent_id) (
          field "from" (text (lifecycle_name change.from)) (
            field "to" (text (lifecycle_name change.to)) (optional_text "reason" change.reason))))))
payload_value machine_id stamp (session_changed change) = object (
    field "sessionId" (text change.session_id) (
      field "agentId" (text change.agent_id) (
        field "machineId" (text change.machine_id) (
          field "from" (text (lifecycle_name change.from))
            (field "to" (text (lifecycle_name change.to)) end)))))
payload_value machine_id stamp (tool_started run call) = object (
    field "runId" (text run.run_id) (
      field "toolCallId" (text call.tool_call_id) (
        field "toolName" (text call.tool_name)
          (field "startedAt" (text (or_else call.started_at stamp.now_again)) end))))
payload_value machine_id stamp (tool_completed run call) = object (
    field "runId" (text run.run_id) (
      field "toolCallId" (text call.tool_call_id) (
        field "toolName" (text call.tool_name) (
          field "status" (text (ended_name call.status)) (
            field "durationMs" (number (or_else call.duration_ms 0)) (
              field "success" (bool (or_else call.success (is_call_completed call.status)))
                (optional_text "errorMessage" (nonempty call.error_message))))))))
payload_value machine_id stamp (log_emitted run log) = object (
    field "logEntryId" (text log.id) (
      field "runId" (text run.run_id) (
        field "sessionId" (text run.session_id) (
          field "level" (text (severity_name log.level))
            (field "message" (text log.message) (field "ts" (text log.ts) end))))))
payload_value machine_id stamp (model_used run usage) = object (
    field "runId" (text run.run_id) (
      field "machineId" (text machine_id) (
        field "provider" (text usage.provider) (
          field "model" (text usage.model) (
            field "inputTokens" (number usage.input_tokens) (
              field "outputTokens" (number usage.output_tokens) (
                field "totalTokens" (number usage.total_tokens) (
                  optional_number "estimatedCostUsd" usage.estimated_cost_usd
                    (field "measuredAt" (text stamp.now_again) end)))))))))

abbrev pub event_type_for : MappedPayload → TelemetryEventType
event_type_for (run_changed change) = run_state_changed
event_type_for (session_changed change) = session_state_changed
event_type_for (tool_started run call) = run_tool_started
event_type_for (tool_completed run call) = run_tool_completed
event_type_for (log_emitted run log) = run_log_emitted
event_type_for (model_used run usage) = run_model_usage

unfoldable pub envelope_value : String → Stamp → MappedEvent → Value
unfolding payload_value type_name severity_name
envelope_value machine_id stamp event = object (
    field "version" (text telemetry_schema_version) (
      field "id" (text stamp.id) (
        field "ts" (text (or_else event.ts stamp.now)) (
          field "machineId" (text machine_id) (
            field "severity" (text (severity_name event.severity)) (
              field "type" (text (type_name (event_type_for event.payload))) (
                field "payload" (payload_value machine_id stamp event.payload) (
                  field "trace"
                    (object (
                      field "traceId" (text stamp.trace_id)
                        (field "spanId" (text stamp.span_id) end)))
                    end))))))))
