-- ===== src/Mapper/Legal.antt =====
-- A poll reports only changes that follow from what is known.
use patze_control.Base.{
  Bool, true, false, none, some, String, ◌==◌, eq_iff, List, [], ◌∷◌, if◌then◌else◌, Bool-cases,
  ◌≡◌, refl, subst, inl, inr, arith,
}
use patze_control.Telemetry.Timestamps.{Runtime}
use patze_control.Mapper.Types.{
  SessionRunLifecycleState, failed, state_code, DetectedRun, MapperState, RunChange, MappedEvent,
  same_state, initial_from_state, lookup,
}
use patze_control.Mapper.Runs.{
  nonempty, run_details, to_run_state_changed_event, report_change, map_run, map_runs,
}
use patze_control.Mapper.Cases.{map_run_cases}
use patze_control.Mapper.Chains.{
  change_of, IsStep, RunChain, done, next, Chain-append, Chain-other, known_state, details-other,
  details-known_same, details-known_other, report_change-other,
}

same_state-≡ : (a b : SessionRunLifecycleState) → same_state a b ≡ true → a ≡ b
unfolding same_state state_code
same_state-≡ a b e = ground arith

-- The chain that `map_run` reports for a run.
abbrev pub MapsTo : String → MapperState → MapperState × List MappedEvent → Type 0
MapsTo id state out = RunChain id (known_state id state) out.1 (known_state id out.0)

details-MapsTo_other :
    (id : String) (run : DetectedRun) (state : MapperState)
    → (run.run_id == id) ≡ false
    → MapsTo id state (run_details run state)
details-MapsTo_other id run state d =
    rw (details-known_other id run state d)
      (Chain-other (known_state id state) _ (details-other id run state))

details-MapsTo_same :
    (run previous : DetectedRun) (state : MapperState)
    → lookup run.run_id state.known_runs ≡ some previous
    → same_state previous.state run.state ≡ true
    → MapsTo run.run_id state (run_details run state)
details-MapsTo_same run previous state old same =
    rw (details-known_same run state, old, same_state-≡ previous.state run.state same)
      (Chain-other (some run.state) _ (details-other run.run_id run state))

-- The change in the event of a run.
abbrev pub own_change :
    DetectedRun → SessionRunLifecycleState → SessionRunLifecycleState → RunChange
own_change run from to = record {
  run_id = run.run_id;
  session_id = run.session_id;
  agent_id = run.agent_id;
  from = from;
  to = to;
  reason = if same_state to failed then nonempty run.error_message else none;
}

pub own_change-change_of :
    (runtime : Runtime) (run : DetectedRun) (from to : SessionRunLifecycleState) (first : Bool)
    → change_of run.run_id (to_run_state_changed_event runtime run from to first)
      ≡ some (own_change run from to)
unfolding to_run_state_changed_event
own_change-change_of runtime run from to first = rw ((eq_iff run.run_id run.run_id).1 refl) refl

report_change-MapsTo :
    (runtime : Runtime) (run : DetectedRun) (from : SessionRunLifecycleState) (first : Bool)
    (state : MapperState)
    → (same_state from run.state ≡ false
        → IsStep (known_state run.run_id state) (own_change run from run.state))
    → MapsTo run.run_id state (report_change runtime run from first state)
unfolding report_change
report_change-MapsTo runtime run from first state step =
    elim (Bool-cases (same_state from run.state)) [
      | inl same ↦ rw (report_change, same) done
      | inr changed ↦
          rw (report_change, changed, details-known_same run state)
            (next (own_change run from run.state)
              (own_change-change_of runtime run from run.state first) (step changed)
              (Chain-other (some run.state) _ (details-other run.run_id run state)))
    ]

map_run-MapsTo_same :
    (runtime : Runtime) (run : DetectedRun) (state : MapperState)
    → MapsTo run.run_id state (map_run runtime run state)
map_run-MapsTo_same runtime run state = elim (map_run_cases runtime run state) [
  | inl (new, q) ↦ rw q (
      report_change-MapsTo runtime run (initial_from_state run.state) true state
        (λ changed. rw new (refl, changed)))
  | inr (previous, old, inl (same, q)) ↦ rw q (details-MapsTo_same run previous state old same)
  | inr (previous, old, inr (inl (over, q))) ↦ rw q done
  | inr (previous, old, inr (inr (going, q))) ↦ rw q (
      report_change-MapsTo runtime run previous.state false state
        (λ changed. rw old (refl, going, changed)))
]

map_run-MapsTo_other :
    (runtime : Runtime) (id : String) (run : DetectedRun) (state : MapperState)
    → (run.run_id == id) ≡ false
    → MapsTo id state (map_run runtime run state)
map_run-MapsTo_other runtime id run state d = elim (map_run_cases runtime run state) [
  | inl (new, q) ↦ rw q (report_change-other runtime id run _ true state d)
  | inr (previous, old, inl (same, q)) ↦ rw q (details-MapsTo_other id run state d)
  | inr (previous, old, inr (inl (over, q))) ↦ rw q done
  | inr (previous, old, inr (inr (going, q))) ↦
      rw q (report_change-other runtime id run previous.state false state d)
]

map_run-MapsTo :
    (runtime : Runtime) (id : String) (run : DetectedRun) (state : MapperState)
    → MapsTo id state (map_run runtime run state)
map_run-MapsTo runtime id run state = elim (Bool-cases (run.run_id == id)) [
  | inl own ↦
      subst (λ i. MapsTo i state (map_run runtime run state)) ((eq_iff run.run_id id).0 own)
        (map_run-MapsTo_same runtime run state)
  | inr foreign ↦ map_run-MapsTo_other runtime id run state foreign
]

pub map_runs-MapsTo :
    (runtime : Runtime) (id : String) (runs : List DetectedRun) (state : MapperState)
    → MapsTo id state (map_runs runtime runs state)
unfolding map_runs
map_runs-MapsTo runtime id [] state = done
map_runs-MapsTo runtime id (run ∷ runs) state =
    let first = map_run runtime run state in
    Chain-append _ (known_state id first.0) _ first.1 _ (map_run-MapsTo runtime id run state)
      (map_runs-MapsTo runtime id runs first.0)
