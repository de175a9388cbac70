-- ===== src/Frontend/Recent.antt =====
-- `summarizeEvent` and `appendRecentEvent` of packages/telemetry-core/src/frontend-reducer.ts.
use Prim.Native.String.{◌++◌ as append_text}
use patze_control.Base.{
  ◌-◌, Bool, false, Option, none, some, String, List, [], ◌∷◌, ◌++◌, length, drop, ltb,
  if◌then◌else◌,
}
use patze_control.Value.{is_nullish, get}
use patze_control.Telemetry.Events.{
  machine_registered, machine_heartbeat, agent_state_changed, session_state_changed,
  run_state_changed, run_log_emitted, run_tool_started, run_tool_completed, run_model_usage,
  run_resource_usage, trace_span_recorded, TelemetryEvent,
}
use patze_control.Frontend.Types.{
  FrontendRuntime, FrontendRecentEvent, SnapshotCollections, max_recent_events,
}
use patze_control.Frontend.Entries.{string_of}

-- The parts of a template text.
abbrev join : List String → String
join [] = ""
join (part ∷ parts) = append_text part (join parts)

module _ (runtime : FrontendRuntime) where
  -- `String(event.payload.name)`.
  abbrev field_text : TelemetryEvent → String → String
  field_text event name = string_of runtime (get event.payload name)

  abbrev transition : String → String → TelemetryEvent → String
  transition kind id event = join (
      kind
      ∷ field_text event id
      ∷ ": "
      ∷ field_text event "from"
      ∷ " → "
      ∷ field_text event "to"
      ∷ [])

  unfoldable pub summarize_event : TelemetryEvent → String
  summarize_event event = elim event.event_type [
    | machine_registered ↦ join ("Machine " ∷ field_text event "machineId" ∷ " registered" ∷ [])
    | machine_heartbeat ↦ join ("Heartbeat from " ∷ field_text event "machineId" ∷ [])
    | run_state_changed ↦ transition "Run " "runId" event
    | session_state_changed ↦ transition "Session " "sessionId" event
    | run_tool_started ↦ join ("Tool " ∷ field_text event "toolName" ∷ " started" ∷ [])
    | run_tool_completed ↦
        join ("Tool " ∷ field_text event "toolName" ∷ " " ∷ field_text event "status" ∷ [])
    | run_model_usage ↦
        join (field_text event "model" ∷ ": " ∷ field_text event "totalTokens" ∷ " tokens" ∷ [])
    | run_log_emitted ↦ runtime.first_units 80 (field_text event "message")
    | agent_state_changed ↦ transition "Agent " "agentId" event
    | run_resource_usage ↦ join ("Resource usage: CPU " ∷ field_text event "cpuPct" ∷ "%" ∷ [])
    | trace_span_recorded ↦ join ("Trace span: " ∷ field_text event "name" ∷ [])
  ]

  unfoldable pub recent_event : TelemetryEvent → FrontendRecentEvent
  unfolding summarize_event
  recent_event event = record {
    id = event.id;
    ts = event.ts;
    event_type = event.event_type;
    machine_id = event.machine_id;
    summary = summarize_event event;
  }

  abbrev last_recent : List FrontendRecentEvent → List FrontendRecentEvent
  last_recent events =
      if ltb max_recent_events (length events)
      then drop (length events - max_recent_events) events
      else events

  unfoldable pub recent_after : List FrontendRecentEvent → TelemetryEvent → List FrontendRecentEvent
  unfolding recent_event
  recent_after events event = elim event.event_type [
    | machine_heartbeat ↦ events
    | _ ↦ last_recent (events ++ (recent_event event ∷ []))
  ]

  -- The summary reads the payload.
  abbrev pub cannot_summarize : TelemetryEvent → Bool
  cannot_summarize event = elim event.event_type [
    | machine_heartbeat ↦ false
    | _ ↦ is_nullish event.payload
  ]

  unfoldable pub append_recent_event :
      SnapshotCollections → TelemetryEvent → Option SnapshotCollections
  unfolding recent_after
  append_recent_event c event =
      if cannot_summarize event
      then none
      else some (record c { recent_events = recent_after c.recent_events event })
