-- ===== src/Mapper/Tests.antt =====
-- The theorems about the mapper at concrete inputs.
use patze_control.Base.{ℕ, ◌+◌, ◌≤◌, length, false, none, some, List, [], ◌∷◌, ◌≡◌, refl, arith}
use patze_control.Telemetry.Events.{info}
use patze_control.Telemetry.Timestamps.{
  Runtime, contains_newlines, utf16_length, is_blank, is_white_space, normalize_timestamp,
}
use patze_control.Telemetry.Ingestor.{ok, check_input}
use patze_control.Mapper.Types.{
  SessionRunLifecycleState, created, running, failed, state_code, same_state, call_started,
  DetectedToolCall, DetectedLogEntry, DetectedRun, MapperState, MappedEvent, run_changed, lookup,
  insert, has_key, add_key,
}
use patze_control.Mapper.Runs.{
  tool_key, log_key, log_event, to_run_tool_events, to_run_log_events, to_run_model_usage_event,
  run_details, to_run_state_changed_event, report_change, map_run, map_runs,
}
use patze_control.Mapper.Poll.{
  create_mapper_state, vanished_events, forget_vanished, map_all_runs, map_run_state_changed_events,
  map_polls,
}
use patze_control.Mapper.Reporting.{IsReportedOnce, map_polls-IsReportedOnce}
use patze_control.Value.Json.{is_json, json_value}
use patze_control.Sink.Queue.{HttpSinkAdapter}
use patze_control.Mapper.Envelope.{payload_value, Stamp, envelope_value}
use patze_control.Mapper.Accepted.{IsSendable, ingested, mapped_event_accepted}
use patze_control.Mapper.Own.{AreOwn}
use patze_control.Mapper.Pipeline.{IsFit, AreReadable, IsTaken, send, poll_events-IsTaken}
use patze_control.Mapper.Sessions.{
  mark, absorb_change, absorb_events, settle_session, settle_sessions,
  to_session_state_changed_event, infer_session_events,
}
use patze_control.Mapper.Legality.{IsLegal, map_run_state_changed_events-IsLegal}

abbrev fixed_runtime : Runtime
fixed_runtime = record {
  parse_date = λ s. some 5;
  to_iso_string = λ t. "2026-01-01T00:00:00.000Z";
  json_length = λ v. 2;
}

abbrev first_call : DetectedToolCall
first_call = record {
  tool_call_id = "call_1";
  tool_name = "grep";
  status = call_started;
  started_at = none;
  duration_ms = none;
  success = none;
  error_message = none;
}

abbrev first_log : DetectedLogEntry
first_log = record { id = "log_1"; level = info; message = "begins"; ts = "2026-01-01T00:00:00Z" }

abbrev first_run : DetectedRun
first_run = record {
  run_id = "run_1";
  session_id = "session_1";
  agent_id = "agent_1";
  state = running;
  started_at = none;
  tool_calls = first_call ∷ [];
  model_usage = none;
  logs = first_log ∷ first_log ∷ [];
  error_message = none;
}

-- A mapper that knows a failed run, which is then detected as running.
abbrev after_lost_run : MapperState
after_lost_run = record create_mapper_state {
  known_runs = ("run_1", record first_run { state = failed }) ∷ [];
}

map_run_state_changed_events-IsLegal_example :
    IsLegal after_lost_run
      (map_run_state_changed_events fixed_runtime "machine_1" 7 (first_run ∷ []) after_lost_run)
map_run_state_changed_events-IsLegal_example =
    map_run_state_changed_events-IsLegal fixed_runtime "machine_1" 7 (first_run ∷ []) after_lost_run
      (((unfold lookup in refl, tt), (refl, tt)), tt)

abbrev same_run_twice : List (ℕ × List DetectedRun)
same_run_twice = (7, first_run ∷ []) ∷ (8, first_run ∷ []) ∷ []

map_polls-IsReportedOnce_example :
    IsReportedOnce create_mapper_state
      (map_polls fixed_runtime "machine_1" same_run_twice create_mapper_state)
map_polls-IsReportedOnce_example =
    map_polls-IsReportedOnce fixed_runtime "machine_1" same_run_twice create_mapper_state tt tt tt

-- A run that one poll misses is reported as completed, and then as a new one.
abbrev kinds : List MappedEvent → List (SessionRunLifecycleState × SessionRunLifecycleState)
kinds [] = []
kinds (e ∷ es) = elim e.payload [
  | run_changed change ↦ (change.from, change.to) ∷ kinds es
  | _ ↦ kinds es
]

missed_once :
    kinds
      (map_runs fixed_runtime
        (first_run ∷ [])
        (map_all_runs fixed_runtime []
          (map_runs fixed_runtime (first_run ∷ []) create_mapper_state).0).0).1
    ≡ (created, running) ∷ []
unfolding map_runs map_run report_change run_details to_run_tool_events to_run_log_events
    to_run_model_usage_event to_run_state_changed_event map_all_runs vanished_events forget_vanished
    lookup insert has_key same_state state_code tool_key log_key
missed_once = refl

abbrev some_stamp : Stamp
some_stamp = record {
  id = "evt_1";
  now = "2026-01-01T00:00:00.000Z";
  now_again = "2026-01-01T00:00:00.000Z";
  trace_id = "trace_1";
  span_id = "span_1";
}

abbrev log_sent : MappedEvent
log_sent = log_event first_run first_log

log_sent-IsSendable :
    IsSendable fixed_runtime "machine_1" some_stamp log_sent "2026-01-01T00:00:00.000Z"
unfolding contains_newlines utf16_length is_blank is_white_space normalize_timestamp
log_sent-IsSendable = record {
  id_given = refl;
  id_on_one_line = refl;
  id_short = omega arith;
  machine_named = refl;
  machine_short = omega arith;
  machine_on_one_line = refl;
  traced = refl;
  timed = refl;
  small = omega arith;
  own = tt;
  writable = unfold is_json payload_value in refl;
}

mapped_event_accepted_example :
    check_input fixed_runtime
      (json_value fixed_runtime.to_iso_string (envelope_value "machine_1" some_stamp log_sent))
    ≡ ok (ingested fixed_runtime "machine_1" some_stamp log_sent "2026-01-01T00:00:00.000Z")
mapped_event_accepted_example =
    mapped_event_accepted fixed_runtime "machine_1" some_stamp log_sent "2026-01-01T00:00:00.000Z"
      log_sent-IsSendable

some_stamp-IsFit : (j : ℕ) → IsFit "machine_1" some_stamp
unfolding contains_newlines utf16_length is_blank is_white_space
some_stamp-IsFit j = record {
  id_given = refl;
  id_on_one_line = refl;
  id_short = omega arith;
  machine_named = refl;
  machine_short = omega arith;
  machine_on_one_line = refl;
  traced = refl;
}

abbrev first_poll : MapperState × List MappedEvent
first_poll =
    map_run_state_changed_events fixed_runtime "machine_1" 7 (first_run ∷ []) create_mapper_state

-- The poll sends the run's change, its tool call, its log and the new session.
first_poll-AreReadable : AreReadable fixed_runtime "machine_1" (λ j. some_stamp) 0 first_poll.1
unfolding map_run_state_changed_events map_runs map_run report_change run_details to_run_tool_events
    to_run_log_events to_run_model_usage_event to_run_state_changed_event map_all_runs
    vanished_events forget_vanished lookup insert has_key same_state state_code tool_key log_key
    infer_session_events absorb_events absorb_change mark add_key settle_sessions settle_session
    to_session_state_changed_event normalize_timestamp is_json payload_value
first_poll-AreReadable = (
  ((_, refl), omega arith, refl),
  (
    ((_, refl), omega arith, refl),
    (((_, refl), omega arith, refl), (((_, refl), omega arith, refl), tt)),
  ),
)

abbrev empty_sink : HttpSinkAdapter
empty_sink = record {
  batch_size = 2;
  max_retries = 3;
  max_backoff_ms = 10_000;
  max_queue_size = 10;
  circuit_breaker_threshold = 1;
  circuit_breaker_cooldown_ms = 15_000;
  has_spool = false;
  queue = [];
  in_flight = none;
  consecutive_failures = 0;
  circuit_open_until_ms = 0;
  spool = none;
  hydrated_count = 0;
  dropped_on_hydrate = 0;
}

first_poll-room : length empty_sink.queue + length first_poll.1 ≤ empty_sink.max_queue_size
unfolding map_run_state_changed_events map_runs map_run report_change run_details to_run_tool_events
    to_run_log_events to_run_model_usage_event to_run_state_changed_event map_all_runs
    vanished_events forget_vanished lookup insert has_key same_state state_code tool_key log_key
    infer_session_events absorb_events absorb_change mark add_key settle_sessions settle_session
    to_session_state_changed_event
first_poll-room = omega arith

poll_events-IsTaken_example :
    IsTaken fixed_runtime 7 empty_sink (send "machine_1" (λ j. some_stamp) 0 first_poll.1)
    × AreOwn "machine_1" first_poll.0.known_sessions
poll_events-IsTaken_example =
    poll_events-IsTaken fixed_runtime "machine_1" (λ j. some_stamp) 7 (first_run ∷ [])
      create_mapper_state empty_sink some_stamp-IsFit tt first_poll-AreReadable first_poll-room
