-- ===== src/Frontend/Tests.antt =====
-- The theorem about the front-end reducer at a concrete input.
use patze_control.Base.{none, some, []}
use patze_control.Value.{text, object, field, end}
use patze_control.Telemetry.Events.{TelemetryEvent, info, session_state_changed, run_tool_started}
use patze_control.Frontend.Types.{FrontendRuntime, SnapshotCollections}

abbrev browser : FrontendRuntime
browser = record {
  show = λ v. "undefined";
  parse_date = λ v. none;
  to_iso_string = λ t. "2026-01-01T00:00:00.000Z";
  add = λ a b. b;
  sort_by_start = λ calls. some calls;
  first_units = λ n s. s;
}

abbrev no_snapshots : SnapshotCollections
no_snapshots = record {
  machines = [];
  sessions = [];
  runs = [];
  run_details = [];
  logs = [];
  recent_events = [];
}

abbrev ending : TelemetryEvent
ending = record {
  id = "evt_1";
  ts = "2026-01-01T00:00:00.000Z";
  machine_id = "m1";
  severity = info;
  event_type = session_state_changed;
  payload = object (
      field "sessionId" (text "s1") (
        field "agentId" (text "a1") (
          field "machineId" (text "m1")
            (field "from" (text "running") (field "to" (text "completed") end)))));
  trace = record { trace_id = "t1"; span_id = none; parent_span_id = none };
}

abbrev starting : TelemetryEvent
starting = record ending {
  id = "evt_2";
  event_type = run_tool_started;
  payload = object (
      field "runId" (text "r1") (
        field "toolCallId" (text "t1") (
          field "toolName" (text "grep")
            (field "startedAt" (text "2026-01-01T00:00:00.000Z") end))));
}
