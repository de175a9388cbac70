-- ===== src/Telemetry/Tests.antt =====
-- The theorems about telemetry at concrete inputs.
use patze_control.Base.{ℕ, suc, none, some, Option, List, [], ◌∷◌, keep, ◌≡◌, ◌↔◌, refl, arith}
use patze_control.Value.Laws.{IsDateFree}
use patze_control.Value.{Value, undefined, null, text, object, Fields, field, end, get, has}
use patze_control.Telemetry.Events.{
  TelemetryEvent, info, session_state_changed, run_state_changed, clone_and_freeze_event,
  event_type_of, severity_of,
}
use patze_control.Telemetry.EventStore.{Listener, EventStore, returned, default_max_log_size}
use patze_control.Telemetry.Payload.{validate_payload_shape}
use patze_control.Telemetry.Timestamps.{
  Runtime, normalize_fields, contains_newlines, utf16_length, is_blank, normalize_timestamp,
  normalize_trace, normalize_payload_timestamps,
}
use patze_control.Telemetry.Ingestor.{
  ok, check_input, check_texts, check_payload, check_event, envelope, is_envelope_input,
  ingest_many,
}
use patze_control.Telemetry.Projections.{
  ProjectionState, create_empty_state, reduce_event, build_telemetry_snapshot, map_get,
}
use patze_control.Telemetry.Node.{new_node, get_snapshot, get_event_log}
use patze_control.Telemetry.NodeHistory.{NodeCall, ingests, ingests_many, subscribes, node_run}
use patze_control.Telemetry.Log.{newest}
use patze_control.Telemetry.Acceptance.{IsAccepted, check_input_iff}
use patze_control.Telemetry.Batch.{BatchGives, ingest_many-batch}
use patze_control.Telemetry.Reduction.{reduce_accepted}
use patze_control.Telemetry.Replay.{get_snapshot-node_run}
use patze_control.Telemetry.Stored.{stored_payload_valid}
use patze_control.Telemetry.Tracking.{is_about_session, session_view, snapshot_session}

abbrev fixed_runtime : Runtime
fixed_runtime = record {
  parse_date = λ s. some 5;
  to_iso_string = λ t. "2026-01-01T00:00:00.000Z";
  json_length = λ v. 2;
}

abbrev session_fields : Fields
session_fields = field "sessionId" (text "s1") (
    field "agentId" (text "a1") (
      field "machineId" (text "m1")
        (field "from" (text "running") (field "to" (text "completed") end))))

abbrev session_input : Value
session_input = object (
    field "version" (text "telemetry.v1") (
      field "id" (text "evt_1") (
        field "ts" (text "2026-01-01T00:00:00Z") (
          field "machineId" (text "m1") (
            field "severity" (text "info") (
              field "type" (text "session.state.changed") (
                field "payload" (object session_fields)
                  (field "trace" (object (field "traceId" (text "t1") end)) end))))))))

abbrev session_event : TelemetryEvent
session_event = record {
  id = "evt_1";
  ts = "2026-01-01T00:00:00.000Z";
  machine_id = "m1";
  severity = info;
  event_type = session_state_changed;
  payload = object session_fields;
  trace = record { trace_id = "t1"; span_id = none; parent_span_id = none };
}

abbrev run_event : TelemetryEvent
run_event = record session_event {
  id = "evt_2";
  event_type = run_state_changed;
  payload = object (
      field "runId" (text "r1") (
        field "sessionId" (text "s1") (
          field "agentId" (text "a1")
            (field "from" (text "running") (field "to" (text "failed") end)))));
}

session_accepted : check_input fixed_runtime session_input ≡ ok session_event
unfolding check_input check_texts check_event check_payload is_envelope_input get has envelope
    contains_newlines utf16_length is_blank event_type_of severity_of normalize_timestamp
    normalize_trace validate_payload_shape normalize_payload_timestamps
session_accepted = refl

abbrev counter : Listener ℕ
counter = record { key = 1; call = λ event n. returned (suc n) }

abbrev small_store : EventStore ℕ
small_store = record { log = run_event ∷ []; listeners = counter ∷ []; max_log_size = 2 }

check_input_iff_example :
    (check_input fixed_runtime session_input ≡ ok session_event)
    ↔ IsAccepted fixed_runtime session_input session_event
check_input_iff_example = check_input_iff fixed_runtime session_input session_event

ingest_many-batch_example :
    BatchGives fixed_runtime small_store 7
      (session_input ∷ undefined ∷ session_input ∷ [])
      (ingest_many fixed_runtime small_store 7 (session_input ∷ undefined ∷ session_input ∷ []))
ingest_many-batch_example =
    ingest_many-batch fixed_runtime (session_input ∷ undefined ∷ session_input ∷ []) small_store 7
      (omega arith)

reduce_accepted_example :
    (state' : ProjectionState) × (reduce_event create_empty_state
        (clone_and_freeze_event session_event)
      ≡ some state')
reduce_accepted_example =
    reduce_accepted fixed_runtime session_input session_event create_empty_state session_accepted

abbrev node_calls : List (NodeCall ℕ)
node_calls =
    subscribes counter
    ∷ ingests session_input
    ∷ ingests null
    ∷ ingests_many (session_input ∷ undefined ∷ [])
    ∷ []

get_snapshot-node_run_example :
    let (node, accepted) = node_run fixed_runtime (new_node 0) node_calls in
    (build_telemetry_snapshot accepted ≡ some (get_snapshot node))
    × (get_event_log node ≡ newest default_max_log_size accepted)
get_snapshot-node_run_example = get_snapshot-node_run fixed_runtime 0 node_calls

stored_payload_valid_example :
    let stored = clone_and_freeze_event session_event in
    (stored.payload ≡ object (normalize_fields fixed_runtime session_state_changed session_fields))
    × (validate_payload_shape session_state_changed stored.payload ≡ none)
stored_payload_valid_example =
    stored_payload_valid fixed_runtime session_input session_fields session_event session_accepted
      (unfold envelope get in refl) (unfold IsDateFree in (tt, (tt, (tt, (tt, (tt, tt))))))

abbrev story : List TelemetryEvent
story = session_event ∷ run_event ∷ record session_event { id = "evt_3" } ∷ []

abbrev default_state : Option ProjectionState → ProjectionState
default_state none = create_empty_state
default_state (some s) = s

abbrev story_state : ProjectionState
story_state = default_state (build_telemetry_snapshot story)

snapshot_session_example :
    map_get (text "s1") story_state.sessions
    ≡ session_view (keep (is_about_session (text "s1")) story)
snapshot_session_example =
    snapshot_session (text "s1") story story_state
      (unfold build_telemetry_snapshot reduce_event in refl)
