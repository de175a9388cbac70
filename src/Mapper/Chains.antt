-- ===== src/Mapper/Chains.antt =====
-- The changes of each run that a poll reports follow each other.
use patze_control.Base.{
  Bool, false, Option, none, some, String, ◌==◌, List, [], ◌∷◌, ◌++◌, All, if◌then◌else◌,
  All-append, Bool-cases, Option-cases, ◌≡◌, refl, ap, inl, inr, arith,
}
use patze_control.Telemetry.Timestamps.{Runtime}
use patze_control.Mapper.Types.{
  SessionRunLifecycleState, DetectedRun, DetectedToolCall, DetectedLogEntry, MapperState, RunChange,
  MappedEvent, run_changed, same_state, is_terminal_state, initial_from_state, lookup, has_key,
}
use patze_control.Mapper.Runs.{
  tool_key, log_key, tool_event, to_run_tool_events, to_run_log_events, to_run_model_usage_event,
  run_details, to_run_state_changed_event, report_change,
}
use patze_control.Mapper.Tables.{lookup-insert_same, lookup-insert_other}

-- The change of the run of the given id that an event reports.
abbrev pub change_of : String → MappedEvent → Option RunChange
change_of id event = elim event.payload [
  | run_changed change ↦ if change.run_id == id then some change else none
  | _ ↦ none
]

-- A change from what is known of the run: a new run begins in its initial state, a known one goes on
-- from its state, which is not a terminal one, and no change leaves the state as it is.
abbrev pub IsStep : Option SessionRunLifecycleState → RunChange → Type 0
IsStep none change =
    (change.from ≡ initial_from_state change.to) × (same_state change.from change.to ≡ false)
IsStep (some state) change =
    (change.from ≡ state)
    × (is_terminal_state state ≡ false)
    × (same_state change.from change.to ≡ false)

-- The changes that `reads` finds among the events, each allowed by what is known before it, from what
-- is known before them all to what is known after.
pub data Chain {C : Type 0} (reads : MappedEvent → Option C)
    (allows : Option SessionRunLifecycleState → C → Type 0) (target : C → SessionRunLifecycleState)
    : Option SessionRunLifecycleState
      → List MappedEvent
      → Option SessionRunLifecycleState
      → Type 0 where
  done : {o : Option SessionRunLifecycleState} → Chain reads allows target o [] o
  other :
      {o o' : Option SessionRunLifecycleState} {e : MappedEvent} {es : List MappedEvent}
      → reads e ≡ none
      → Chain reads allows target o es o'
      → Chain reads allows target o (e ∷ es) o'
  next :
      {o o' : Option SessionRunLifecycleState} {e : MappedEvent} {es : List MappedEvent}
      (change : C)
      → reads e ≡ some change
      → allows o change
      → Chain reads allows target (some (target change)) es o'
      → Chain reads allows target o (e ∷ es) o'

module _ {C : Type 0} {reads : MappedEvent → Option C}
    {allows : Option SessionRunLifecycleState → C → Type 0}
    {target : C → SessionRunLifecycleState} where
  pub Chain-append :
      (o o' o'' : Option SessionRunLifecycleState) (es fs : List MappedEvent)
      → Chain reads allows target o es o'
      → Chain reads allows target o' fs o''
      → Chain reads allows target o (es ++ fs) o''
  Chain-append o o' o'' [] fs done d = d
  Chain-append o o' o'' (e ∷ es) fs (other q c) d = other q (Chain-append o o' o'' es fs c d)
  Chain-append o o' o'' (e ∷ es) fs (next change q step c) d =
      next change q step (Chain-append (some (target change)) o' o'' es fs c d)

  pub Chain-other :
      (o : Option SessionRunLifecycleState) (es : List MappedEvent)
      → All (λ e. reads e ≡ none) es
      → Chain reads allows target o es o
  Chain-other o [] all = done
  Chain-other o (e ∷ es) (q, all) = other q (Chain-other o es all)

-- The changes of a run.
abbrev pub RunChain :
    String
    → Option SessionRunLifecycleState
    → List MappedEvent
    → Option SessionRunLifecycleState
    → Type 0
RunChain id = Chain (change_of id) IsStep (λ change. change.to)

-- Events that change no run.
abbrev pub AreOther : String → List MappedEvent → Type 0
AreOther id es = All (λ e. change_of id e ≡ none) es

tools-other :
    (id : String) (run : DetectedRun) (calls : List DetectedToolCall) (emitted : List String)
    → AreOther id (to_run_tool_events run calls emitted).1
unfolding to_run_tool_events
tools-other id run [] emitted = tt
tools-other id run (call ∷ calls) emitted =
    let this : change_of id (tool_event run call) ≡ none = ground arith in
    elim (Bool-cases (has_key (tool_key run call) emitted)) [
      | inl old ↦ rw (to_run_tool_events, old) (tools-other id run calls emitted)
      | inr new ↦
          rw (to_run_tool_events, new)
            (this, tools-other id run calls (emitted ++ (tool_key run call ∷ [])))
    ]

logs-other :
    (id : String) (run : DetectedRun) (logs : List DetectedLogEntry) (emitted : List String)
    → AreOther id (to_run_log_events run logs emitted).1
unfolding to_run_log_events
logs-other id run [] emitted = tt
logs-other id run (log ∷ logs) emitted = elim (Bool-cases (has_key (log_key run log) emitted)) [
  | inl old ↦ rw (to_run_log_events, old) (logs-other id run logs emitted)
  | inr new ↦
      rw (to_run_log_events, new) (refl, logs-other id run logs (emitted ++ (log_key run log ∷ [])))
]

usage-other :
    (id : String) (run : DetectedRun) (emitted : List String)
    → AreOther id (to_run_model_usage_event run emitted).1
unfolding to_run_model_usage_event
usage-other id run emitted = elim (Option-cases run.model_usage) [
  | inl nothing ↦ rw (to_run_model_usage_event, nothing) tt
  | inr (usage, e) ↦ elim (Bool-cases (has_key run.run_id emitted)) [
    | inl old ↦ rw (to_run_model_usage_event, e, old) tt
    | inr new ↦ rw (to_run_model_usage_event, e, new) (refl, tt)
  ]
]

pub details-other :
    (id : String) (run : DetectedRun) (state : MapperState) → AreOther id (run_details run state).1
unfolding run_details
details-other id run state =
    All-append (λ e. change_of id e ≡ none) _ _ (tools-other id run run.tool_calls _)
      (All-append (λ e. change_of id e ≡ none) _ _ (logs-other id run run.logs _)
        (usage-other id run _))

abbrev pub state_of : Option DetectedRun → Option SessionRunLifecycleState
state_of none = none
state_of (some run) = some run.state

-- What is known of a run.
abbrev pub known_state : String → MapperState → Option SessionRunLifecycleState
known_state id state = state_of (lookup id state.known_runs)

pub details-known_same :
    (run : DetectedRun) (state : MapperState)
    → known_state run.run_id (run_details run state).0 ≡ some run.state
unfolding run_details
details-known_same run state = ap state_of (lookup-insert_same run.run_id run state.known_runs)

pub details-known_other :
    (id : String) (run : DetectedRun) (state : MapperState)
    → (run.run_id == id) ≡ false
    → known_state id (run_details run state).0 ≡ known_state id state
unfolding run_details
details-known_other id run state d =
    ap state_of (lookup-insert_other run.run_id id run state.known_runs d)

-- A run of another id leaves the chain as it is.
pub report_change-other :
    (runtime : Runtime) (id : String) (run : DetectedRun) (from : SessionRunLifecycleState)
    (first : Bool) (state : MapperState)
    → (run.run_id == id) ≡ false
    → RunChain id
        (known_state id state)
        (report_change runtime run from first state).1
        (known_state id (report_change runtime run from first state).0)
unfolding report_change to_run_state_changed_event
report_change-other runtime id run from first state d =
    elim (Bool-cases (same_state from run.state)) [
      | inl same ↦ rw (report_change, same) done
      | inr changed ↦
          rw (report_change, changed)
            (rw (details-known_other id run state d) (
              other (rw d refl)
                (Chain-other (known_state id state) _ (details-other id run state))))
    ]
