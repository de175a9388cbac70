-- ===== src/Mapper/Accepted.antt =====
-- The ingestor takes what the mapper sends.
use patze_control.Base.{
  ◌≤◌, Bool, true, false, not, ◌&&◌, Option, none, some, or_else, String, ◌==◌, eq_iff, Bool-cases,
  inl, inr, ◌≡◌, refl, ap,
}
use patze_control.Value.{Value, text, get, has, lookup_field, is_record}
use patze_control.Value.Json.{is_json, json_value, json_value-is_json}
use patze_control.Telemetry.Events.{
  TelemetrySeverity, debug, info, warn, error, critical, TelemetryEvent, type_name, severity_name,
  event_type_of, severity_of, telemetry_event_types, telemetry_severities,
}
use patze_control.Telemetry.Payload.{
  first_error, payload_tests, session_state_tests, run_state_tests, run_log_tests,
  tool_started_tests, tool_completed_tests, model_usage_tests, validate_payload_shape,
}
use patze_control.Telemetry.Timestamps.{
  Runtime, contains_newlines, utf16_length, is_blank, normalize_timestamp, normalize_trace,
  normalize_payload_timestamps,
}
use patze_control.Telemetry.Ingestor.{
  ok, names_other_machine, nonempty, max_event_id_length, max_machine_id_length,
  max_payload_json_bytes, is_envelope_input, envelope, check_input,
}
use patze_control.Telemetry.Acceptance.{IsAccepted, check_input_iff}
use patze_control.Mapper.Types.{
  RunChange, DetectedRun, DetectedToolCall, MappedPayload, MappedEvent, run_changed,
  session_changed, tool_started, tool_completed, log_emitted, model_used,
}
use patze_control.Mapper.Envelope.{Stamp, payload_value, event_type_for, envelope_value}

-- A session's event names the machine of the mapper.
abbrev pub IsOwnPayload : String → MappedPayload → Type 0
IsOwnPayload machine_id (session_changed change) = change.machine_id ≡ machine_id
IsOwnPayload machine_id _ = Unit

-- The texts that the bridge supplies are fit for an envelope, and the event's time is one.
pub record IsSendable (runtime : Runtime) (machine_id : String) (stamp : Stamp)
    (event : MappedEvent) (time : String) : Type 0 where
  pub id_given : (stamp.id == "") ≡ false
  pub id_on_one_line : contains_newlines stamp.id ≡ false
  pub id_short : utf16_length stamp.id ≤ max_event_id_length
  pub machine_named : is_blank machine_id ≡ false
  pub machine_short : utf16_length machine_id ≤ max_machine_id_length
  pub machine_on_one_line : contains_newlines machine_id ≡ false
  pub traced : (stamp.trace_id == "") ≡ false
  pub timed : nonempty (normalize_timestamp runtime (text (or_else event.ts stamp.now))) ≡ some time
  pub small :
      runtime.json_length (payload_value machine_id stamp event.payload) ≤ max_payload_json_bytes
  pub own : IsOwnPayload machine_id event.payload
  pub writable : is_json (payload_value machine_id stamp event.payload) ≡ true

event_type_of-name :
    (payload : MappedPayload)
    → event_type_of (type_name (event_type_for payload)) ≡ some (event_type_for payload)
unfolding event_type_of type_name telemetry_event_types
event_type_of-name (run_changed change) = refl
event_type_of-name (session_changed change) = refl
event_type_of-name (tool_started run call) = refl
event_type_of-name (tool_completed run call) = refl
event_type_of-name (log_emitted run log) = refl
event_type_of-name (model_used run usage) = refl

severity_of-name : (s : TelemetrySeverity) → severity_of (severity_name s) ≡ some s
unfolding severity_of severity_name telemetry_severities
severity_of-name debug = refl
severity_of-name info = refl
severity_of-name warn = refl
severity_of-name error = refl
severity_of-name critical = refl

payload_valid :
    (machine_id : String) (stamp : Stamp) (payload : MappedPayload)
    → validate_payload_shape (event_type_for payload) (payload_value machine_id stamp payload)
      ≡ none
unfolding validate_payload_shape first_error payload_tests session_state_tests run_state_tests
    run_log_tests tool_started_tests tool_completed_tests model_usage_tests payload_value get
    lookup_field
payload_valid machine_id stamp (run_changed change) = refl
payload_valid machine_id stamp (session_changed change) = refl
payload_valid machine_id stamp (tool_started run call) = refl
payload_valid machine_id stamp (tool_completed run call) = refl
payload_valid machine_id stamp (log_emitted run log) = refl
payload_valid machine_id stamp (model_used run usage) = refl

abbrev names_other : String → Value → Bool
names_other machine_id payload =
    is_record payload
    && has "machineId" payload
    && names_other_machine (get payload "machineId") machine_id

payload_own_change :
    (machine_id : String) (stamp : Stamp) (change : RunChange) (reason : Option String)
    → names_other machine_id
        (payload_value machine_id stamp (run_changed (record change { reason = reason })))
      ≡ false
unfolding payload_value get has lookup_field
payload_own_change machine_id stamp change none = refl
payload_own_change machine_id stamp change (some s) = refl

payload_own_call :
    (machine_id : String) (stamp : Stamp) (run : DetectedRun) (call : DetectedToolCall)
    (message : Option String)
    → names_other machine_id (
        payload_value machine_id stamp
          (tool_completed run (record call { error_message = message })))
      ≡ false
unfolding payload_value get has lookup_field
payload_own_call machine_id stamp run call none = refl
payload_own_call machine_id stamp run call (some s) = elim (Bool-cases (s == "")) [
  | inl empty ↦ rw empty refl
  | inr filled ↦ rw filled refl
]

payload_own :
    (machine_id : String) (stamp : Stamp) (payload : MappedPayload)
    → IsOwnPayload machine_id payload
    → names_other machine_id (payload_value machine_id stamp payload) ≡ false
unfolding payload_value get has lookup_field
payload_own machine_id stamp (run_changed change) own =
    payload_own_change machine_id stamp change change.reason
payload_own machine_id stamp (session_changed change) own =
    ap not ((eq_iff change.machine_id machine_id).1 own)
payload_own machine_id stamp (tool_started run call) own = refl
payload_own machine_id stamp (tool_completed run call) own =
    payload_own_call machine_id stamp run call call.error_message
payload_own machine_id stamp (log_emitted run log) own = refl
payload_own machine_id stamp (model_used run usage) own =
    ap not ((eq_iff machine_id machine_id).1 refl)

-- The event that the ingestor makes of an envelope.
abbrev pub ingested : Runtime → String → Stamp → MappedEvent → String → TelemetryEvent
ingested runtime machine_id stamp event time = record {
  id = stamp.id;
  ts = time;
  machine_id = machine_id;
  severity = event.severity;
  event_type = event_type_for event.payload;
  payload =
      normalize_payload_timestamps runtime (event_type_for event.payload)
        (payload_value machine_id stamp event.payload);
  trace = record {
    trace_id = stamp.trace_id;
    span_id = nonempty (some stamp.span_id);
    parent_span_id = none;
  };
}

envelope_value-IsAccepted :
    (runtime : Runtime) (machine_id : String) (stamp : Stamp) (event : MappedEvent) (time : String)
    → IsSendable runtime machine_id stamp event time
    → IsAccepted runtime
        (envelope_value machine_id stamp event)
        (ingested runtime machine_id stamp event time)
unfolding envelope_value is_envelope_input envelope get has lookup_field normalize_trace
envelope_value-IsAccepted runtime machine_id stamp event time s = record {
  enveloped = refl;
  texts = record {
    version_known = refl;
    id_on_one_line = s.id_on_one_line;
    id_short = s.id_short;
    machine_named = s.machine_named;
    machine_short = s.machine_short;
    machine_on_one_line = s.machine_on_one_line;
  };
  type_known = event_type_of-name event.payload;
  severity_known = severity_of-name event.severity;
  time_read = s.timed;
  trace_read = rw s.traced refl;
  payload_good = record {
    shape_valid = payload_valid machine_id stamp event.payload;
    machine_agrees = payload_own machine_id stamp event.payload s.own;
    small = s.small;
  };
  id_kept = refl;
  machine_kept = refl;
  payload_normalised = refl;
}

envelope_value-is_json :
    (machine_id : String) (stamp : Stamp) (event : MappedEvent)
    → is_json (payload_value machine_id stamp event.payload) ≡ true
    → is_json (envelope_value machine_id stamp event) ≡ true
unfolding envelope_value is_json
envelope_value-is_json machine_id stamp event payload = rw payload refl

-- Bridge and server agree on the format: the ingestor accepts every event of the mapper that it reads
-- from the JSON of a request, as an event of the same type, severity, time, ids and payload, where the
-- ids and the trace that the bridge supplies are fit for an envelope, the time of the event is one, the
-- numbers of its payload are finite, its payload is not too large, and a session's event is of the
-- mapper's machine.
pub mapped_event_accepted :
    (runtime : Runtime) (machine_id : String) (stamp : Stamp) (event : MappedEvent) (time : String)
    → IsSendable runtime machine_id stamp event time
    → check_input runtime (json_value runtime.to_iso_string (envelope_value machine_id stamp event))
      ≡ ok (ingested runtime machine_id stamp event time)
mapped_event_accepted runtime machine_id stamp event time s =
    rw
      (json_value-is_json runtime.to_iso_string _
        (envelope_value-is_json machine_id stamp event s.writable))
      ((check_input_iff runtime (envelope_value machine_id stamp event)
          (ingested runtime machine_id stamp event time)).1
        (envelope_value-IsAccepted runtime machine_id stamp event time s))
