-- ===== src/Mapper/Poll.antt =====
-- One poll of the mapper: `mapRunStateChangedEvents` of packages/openclaw-bridge/src/mapper.ts.
use patze_control.Base.{ℕ, Bool, false, not, ◌&&◌, String, List, [], ◌∷◌, ◌++◌, keep, if◌then◌else◌}
use patze_control.Telemetry.Timestamps.{Runtime}
use patze_control.Mapper.Types.{
  completed, DetectedRun, MapperState, MappedEvent, is_active_state, has_key,
}
use patze_control.Mapper.Runs.{to_run_state_changed_event, map_runs}
use patze_control.Mapper.Sessions.{infer_session_events}

abbrev pub create_mapper_state : MapperState
create_mapper_state = record {
  known_runs = [];
  known_sessions = [];
  emitted_tool_call_ids = [];
  emitted_log_ids = [];
  emitted_model_usage_run_ids = [];
}

abbrev pub run_ids : List DetectedRun → List String
run_ids [] = []
run_ids (run ∷ runs) = run.run_id ∷ run_ids runs

-- A known run that is no longer detected counts as completed, and is forgotten.
abbrev pub has_vanished : List String → String × DetectedRun → Bool
has_vanished seen e = not (has_key e.0 seen) && is_active_state e.1.state

unfoldable pub vanished_events :
    Runtime → List String → List (String × DetectedRun) → List MappedEvent
unfolding has_key to_run_state_changed_event
vanished_events runtime seen [] = []
vanished_events runtime seen (e ∷ es) =
    let rest = vanished_events runtime seen es in
    if has_vanished seen e
    then to_run_state_changed_event runtime e.1 e.1.state completed false ∷ rest
    else rest

unfoldable pub forget_vanished :
    List String → List (String × DetectedRun) → List (String × DetectedRun)
unfolding has_key
forget_vanished seen known = keep (λ e. not (has_vanished seen e)) known

-- The events of runs, without those of sessions.
unfoldable pub map_all_runs :
    Runtime → List DetectedRun → MapperState → MapperState × List MappedEvent
unfolding map_runs vanished_events forget_vanished
map_all_runs runtime active_runs state =
    let (state', events) = map_runs runtime active_runs state in
    let seen = run_ids active_runs in
    (
      record state' { known_runs = forget_vanished seen state'.known_runs },
      events ++ vanished_events runtime seen state'.known_runs,
    )

unfoldable pub map_run_state_changed_events :
    Runtime → String → ℕ → List DetectedRun → MapperState → MapperState × List MappedEvent
unfolding map_all_runs infer_session_events
map_run_state_changed_events runtime machine_id now active_runs state =
    let (state', events) = map_all_runs runtime active_runs state in
    let (state'', session_events) = infer_session_events machine_id now events state' in
    (state'', events ++ session_events)

-- One poll after the other, each with its time and the runs that it detects.
unfoldable pub map_polls :
    Runtime → String → List (ℕ × List DetectedRun) → MapperState → MapperState × List MappedEvent
unfolding map_run_state_changed_events
map_polls runtime machine_id [] state = (state, [])
map_polls runtime machine_id (poll ∷ polls) state =
    let (state', events) = map_run_state_changed_events runtime machine_id poll.0 poll.1 state in
    let (state'', rest) = map_polls runtime machine_id polls state' in (state'', events ++ rest)
