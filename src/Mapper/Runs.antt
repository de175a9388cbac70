-- ===== src/Mapper/Runs.antt =====
-- The events about one detected run.
use Prim.Native.String.{◌++◌ as append_text}
use patze_control.Base.{
  Bool, true, false, not, ◌&&◌, Option, none, some, is_some, String, ◌==◌, List, [], ◌∷◌, ◌++◌,
  if◌then◌else◌,
}
use patze_control.Telemetry.Events.{info, error}
use patze_control.Telemetry.Timestamps.{Runtime}
use patze_control.Mapper.Types.{
  SessionRunLifecycleState, failed, ToolCallStatus, call_started, call_completed, call_failed,
  call_cancelled, DetectedToolCall, DetectedLogEntry, DetectedRun, MapperState, MappedEvent,
  run_changed, tool_started, tool_completed, log_emitted, model_used, same_state, is_terminal_state,
  initial_from_state, lookup, insert, has_key,
}

abbrev pub status_name : ToolCallStatus → String
status_name call_started = "started"
status_name call_completed = "completed"
status_name call_failed = "failed"
status_name call_cancelled = "cancelled"

-- The keys of the sets of what has been emitted.
unfoldable pub tool_key : DetectedRun → DetectedToolCall → String
tool_key run call =
    append_text run.run_id
      (append_text ":" (append_text call.tool_call_id (append_text ":" (status_name call.status))))

unfoldable pub log_key : DetectedRun → DetectedLogEntry → String
log_key run log = append_text run.run_id (append_text ":" log.id)

abbrev pub tool_event : DetectedRun → DetectedToolCall → MappedEvent
tool_event run call = elim call.status [
  | call_started ↦ record { ts = call.started_at; severity = info; payload = tool_started run call }
  | call_failed ↦ record { ts = none; severity = error; payload = tool_completed run call }
  | _ ↦ record { ts = none; severity = info; payload = tool_completed run call }
]

unfoldable pub to_run_tool_events :
    DetectedRun → List DetectedToolCall → List String → List String × List MappedEvent
to_run_tool_events run [] emitted = (emitted, [])
to_run_tool_events run (call ∷ calls) emitted =
    let skipped = to_run_tool_events run calls emitted in
    let told = to_run_tool_events run calls (emitted ++ (tool_key run call ∷ [])) in
    if has_key (tool_key run call) emitted then skipped else (told.0, tool_event run call ∷ told.1)

abbrev pub log_event : DetectedRun → DetectedLogEntry → MappedEvent
log_event run log = record { ts = some log.ts; severity = log.level; payload = log_emitted run log }

unfoldable pub to_run_log_events :
    DetectedRun → List DetectedLogEntry → List String → List String × List MappedEvent
to_run_log_events run [] emitted = (emitted, [])
to_run_log_events run (log ∷ logs) emitted =
    let skipped = to_run_log_events run logs emitted in
    let told = to_run_log_events run logs (emitted ++ (log_key run log ∷ [])) in
    if has_key (log_key run log) emitted then skipped else (told.0, log_event run log ∷ told.1)

unfoldable pub to_run_model_usage_event : DetectedRun → List String → List String × List MappedEvent
to_run_model_usage_event run emitted = elim run.model_usage [
  | none ↦ (emitted, [])
  | some usage ↦ if has_key run.run_id emitted then (emitted, []) else (
    emitted ++ (run.run_id ∷ []),
    record { ts = none; severity = info; payload = model_used run usage } ∷ [],
  )
]

-- The tool calls, logs and model usage of a run, which is then known.
unfoldable pub run_details : DetectedRun → MapperState → MapperState × List MappedEvent
unfolding to_run_tool_events to_run_log_events to_run_model_usage_event insert
run_details run state =
    let tools = to_run_tool_events run run.tool_calls state.emitted_tool_call_ids in
    let logs = to_run_log_events run run.logs state.emitted_log_ids in
    let usage = to_run_model_usage_event run state.emitted_model_usage_run_ids in
    (
      record state {
        known_runs = insert run.run_id run state.known_runs;
        emitted_tool_call_ids = tools.0;
        emitted_log_ids = logs.0;
        emitted_model_usage_run_ids = usage.0;
      },
      tools.1 ++ (logs.1 ++ usage.1),
    )

-- An empty text is no timestamp and no message.
abbrev pub valid_start : Runtime → Option String → Option String
valid_start runtime none = none
valid_start runtime (some s) =
    if not (s == "") && is_some (runtime.parse_date s) then some s else none

abbrev pub nonempty : Option String → Option String
nonempty none = none
nonempty (some s) = if s == "" then none else some s

unfoldable pub to_run_state_changed_event :
    Runtime → DetectedRun → SessionRunLifecycleState → SessionRunLifecycleState → Bool → MappedEvent
to_run_state_changed_event runtime run from to is_first_seen = record {
  ts = if is_first_seen then valid_start runtime run.started_at else none;
  severity = if same_state to failed then error else info;
  payload = run_changed (record {
    run_id = run.run_id;
    session_id = run.session_id;
    agent_id = run.agent_id;
    from = from;
    to = to;
    reason = if same_state to failed then nonempty run.error_message else none;
  });
}

-- A change of state that is to be reported, unless it is none.
unfoldable pub report_change :
    Runtime
    → DetectedRun
    → SessionRunLifecycleState
    → Bool
    → MapperState
    → MapperState × List MappedEvent
unfolding run_details to_run_state_changed_event
report_change runtime run from is_first_seen state =
    let (state', details) = run_details run state in
    if same_state from run.state
    then (state, [])
    else (state', to_run_state_changed_event runtime run from run.state is_first_seen ∷ details)

-- The body of the first loop of `mapRunStateChangedEvents`.
unfoldable pub map_run : Runtime → DetectedRun → MapperState → MapperState × List MappedEvent
unfolding report_change run_details lookup
map_run runtime run state = elim (lookup run.run_id state.known_runs) [
  | none ↦ report_change runtime run (initial_from_state run.state) true state
  | some previous ↦
      if same_state previous.state run.state
      then run_details run state
      else if is_terminal_state previous.state
      then (state, [])
      else report_change runtime run previous.state false state
]

unfoldable pub map_runs : Runtime → List DetectedRun → MapperState → MapperState × List MappedEvent
unfolding map_run
map_runs runtime [] state = (state, [])
map_runs runtime (run ∷ runs) state =
    let (state', events) = map_run runtime run state in
    let (state'', rest) = map_runs runtime runs state' in (state'', events ++ rest)
