-- ===== src/Mapper/Apart.antt =====
-- Events of runs change no session, and events of sessions change no run.
use patze_control.Base.{
  ℕ, Bool, true, false, none, String, List, [], ◌∷◌, ◌++◌, All, All-append, Bool-cases, ◌≡◌, refl,
  inl, inr, arith,
}
use patze_control.Telemetry.Timestamps.{Runtime}
use patze_control.Mapper.Types.{
  SessionRunLifecycleState, DetectedRun, DetectedToolCall, DetectedLogEntry, MapperState, RunChange,
  MappedEvent, run_changed, same_state, has_key,
}
use patze_control.Mapper.Runs.{
  tool_key, log_key, tool_event, to_run_tool_events, to_run_log_events, to_run_model_usage_event,
  run_details, to_run_state_changed_event, report_change, map_run, map_runs,
}
use patze_control.Mapper.Sessions.{
  Sessions, absorb_change, absorb_event, absorb_events, settle_sessions,
  to_session_state_changed_event,
}
use patze_control.Mapper.Poll.{has_vanished, vanished_events}
use patze_control.Mapper.Cases.{map_run_cases}
use patze_control.Mapper.Chains.{change_of, AreOther}
use patze_control.Mapper.Inferred.{session_change_of}
use patze_control.Mapper.Settling.{settle_session_cases}

-- The events change no session.
abbrev pub AreOfRuns : String → List MappedEvent → Type 0
AreOfRuns id es = All (λ e. session_change_of id e ≡ none) es

tools-AreOfRuns :
    (id : String) (run : DetectedRun) (calls : List DetectedToolCall) (emitted : List String)
    → AreOfRuns id (to_run_tool_events run calls emitted).1
unfolding to_run_tool_events
tools-AreOfRuns id run [] emitted = tt
tools-AreOfRuns id run (call ∷ calls) emitted =
    let this : session_change_of id (tool_event run call) ≡ none = ground arith in
    elim (Bool-cases (has_key (tool_key run call) emitted)) [
      | inl old ↦ rw (to_run_tool_events, old) (tools-AreOfRuns id run calls emitted)
      | inr new ↦
          rw (to_run_tool_events, new)
            (this, tools-AreOfRuns id run calls (emitted ++ (tool_key run call ∷ [])))
    ]

logs-AreOfRuns :
    (id : String) (run : DetectedRun) (logs : List DetectedLogEntry) (emitted : List String)
    → AreOfRuns id (to_run_log_events run logs emitted).1
unfolding to_run_log_events
logs-AreOfRuns id run [] emitted = tt
logs-AreOfRuns id run (log ∷ logs) emitted = elim (Bool-cases (has_key (log_key run log) emitted)) [
  | inl old ↦ rw (to_run_log_events, old) (logs-AreOfRuns id run logs emitted)
  | inr new ↦
      rw (to_run_log_events, new)
        (refl, logs-AreOfRuns id run logs (emitted ++ (log_key run log ∷ [])))
]

usage-AreOfRuns :
    (id : String) (run : DetectedRun) (emitted : List String)
    → AreOfRuns id (to_run_model_usage_event run emitted).1
unfolding to_run_model_usage_event
usage-AreOfRuns id run emitted = ground arith

details-AreOfRuns :
    (id : String) (run : DetectedRun) (state : MapperState) → AreOfRuns id (run_details run state).1
unfolding run_details
details-AreOfRuns id run state =
    All-append (λ e. session_change_of id e ≡ none) _ _ (tools-AreOfRuns id run run.tool_calls _)
      (All-append (λ e. session_change_of id e ≡ none) _ _ (logs-AreOfRuns id run run.logs _)
        (usage-AreOfRuns id run _))

report_change-AreOfRuns :
    (runtime : Runtime) (id : String) (run : DetectedRun) (from : SessionRunLifecycleState)
    (first : Bool) (state : MapperState)
    → AreOfRuns id (report_change runtime run from first state).1
unfolding report_change to_run_state_changed_event
report_change-AreOfRuns runtime id run from first state =
    elim (Bool-cases (same_state from run.state)) [
      | inl same ↦ rw (report_change, same) tt
      | inr changed ↦ rw (report_change, changed) (refl, details-AreOfRuns id run state)
    ]

map_run-AreOfRuns :
    (runtime : Runtime) (id : String) (run : DetectedRun) (state : MapperState)
    → AreOfRuns id (map_run runtime run state).1
map_run-AreOfRuns runtime id run state = elim (map_run_cases runtime run state) [
  | inl (new, q) ↦ rw q (report_change-AreOfRuns runtime id run _ true state)
  | inr (previous, old, inl (same, q)) ↦ rw q (details-AreOfRuns id run state)
  | inr (previous, old, inr (inl (over, q))) ↦ rw q tt
  | inr (previous, old, inr (inr (going, q))) ↦
      rw q (report_change-AreOfRuns runtime id run previous.state false state)
]

pub map_runs-AreOfRuns :
    (runtime : Runtime) (id : String) (runs : List DetectedRun) (state : MapperState)
    → AreOfRuns id (map_runs runtime runs state).1
unfolding map_runs
map_runs-AreOfRuns runtime id [] state = tt
map_runs-AreOfRuns runtime id (run ∷ runs) state =
    All-append (λ e. session_change_of id e ≡ none) _ _ (map_run-AreOfRuns runtime id run state)
      (map_runs-AreOfRuns runtime id runs (map_run runtime run state).0)

pub vanished-AreOfRuns :
    (runtime : Runtime) (id : String) (seen : List String) (known : List (String × DetectedRun))
    → AreOfRuns id (vanished_events runtime seen known)
unfolding vanished_events to_run_state_changed_event
vanished-AreOfRuns runtime id seen [] = tt
vanished-AreOfRuns runtime id seen (e ∷ es) =
    let rest = vanished-AreOfRuns runtime id seen es in
    elim (Bool-cases (has_vanished seen e)) [
      | inr here ↦ rw (vanished_events, here) rest
      | inl gone ↦ rw (vanished_events, gone) (refl, rest)
    ]

absorb_change-AreOther :
    (machine_id id : String) (change : RunChange) (sessions : Sessions)
    → AreOther id (absorb_change machine_id change sessions).1
unfolding absorb_change to_session_state_changed_event
absorb_change-AreOther machine_id id change sessions = ground arith

absorb_event-AreOther :
    (machine_id id : String) (event : MappedEvent) (sessions : Sessions)
    → AreOther id (absorb_event machine_id event sessions).1
absorb_event-AreOther machine_id id event sessions =
    elim event.payload
      as (λ p. AreOther id (absorb_event machine_id (record event { payload = p }) sessions).1) [
        | run_changed change ↦ absorb_change-AreOther machine_id id change sessions
        | _ ↦ tt
      ]

pub absorb_events-AreOther :
    (machine_id id : String) (events : List MappedEvent) (sessions : Sessions)
    → AreOther id (absorb_events machine_id events sessions).1
unfolding absorb_events
absorb_events-AreOther machine_id id [] sessions = tt
absorb_events-AreOther machine_id id (event ∷ events) sessions =
    All-append (λ e. change_of id e ≡ none) _ _ (absorb_event-AreOther machine_id id event sessions)
      (absorb_events-AreOther machine_id id events (absorb_event machine_id event sessions).0)

pub settle_sessions-AreOther :
    (now : ℕ) (id : String) (known : List (String × DetectedRun)) (sessions : Sessions)
    → AreOther id (settle_sessions now known sessions).1
unfolding settle_sessions to_session_state_changed_event
settle_sessions-AreOther now id known [] = tt
settle_sessions-AreOther now id known ((k, track) ∷ es) =
    let rest = settle_sessions-AreOther now id known es in
    elim (settle_session_cases now known k track) [
      | inl q ↦ rw q rest
      | inr (active, q) ↦ rw q (refl, rest)
    ]
