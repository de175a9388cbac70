-- ===== src/Mapper/Vanished.antt =====
-- The events about runs that are no longer detected, and the whole poll.
use patze_control.Base.{
  Bool, true, false, Option, none, some, String, ◌==◌, eq_iff, List, [], ◌∷◌, keep, All, Bool-cases,
  ◌≡◌, refl, sym, ◌∙◌, subst, inl, inr, arith,
}
use patze_control.Telemetry.Timestamps.{Runtime}
use patze_control.Mapper.Types.{
  SessionRunLifecycleState, completed, state_code, DetectedRun, MapperState, same_state,
  is_terminal_state, is_active_state, lookup, insert,
}
use patze_control.Mapper.Runs.{
  run_details, to_run_state_changed_event, report_change, map_run, map_runs,
}
use patze_control.Mapper.Poll.{has_vanished, vanished_events}
use patze_control.Mapper.Cases.{map_run_cases}
use patze_control.Mapper.Tables.{HasUniqueKeys, insert-HasUniqueKeys, keep-HasUniqueKeys}
use patze_control.Mapper.Chains.{
  change_of, RunChain, done, other, next, AreOther, Chain-other, state_of,
}
use patze_control.Mapper.Legal.{own_change, own_change-change_of}

-- Each run is known once, under its own id.
abbrev pub IsKeyed : String × DetectedRun → Type 0
IsKeyed e = e.1.run_id ≡ e.0

abbrev pub IsWellKeyed : List (String × DetectedRun) → Type 0
IsWellKeyed known = HasUniqueKeys known × All IsKeyed known

insert-IsKeyed :
    (run : DetectedRun) (known : List (String × DetectedRun))
    → All IsKeyed known
    → All IsKeyed (insert run.run_id run known)
unfolding insert
insert-IsKeyed run [] all = (refl, tt)
insert-IsKeyed run (e ∷ es) (this, all) = elim (Bool-cases (e.0 == run.run_id)) [
  | inl same ↦ rw (insert, same) (refl, all)
  | inr differs ↦ rw (insert, differs) (this, insert-IsKeyed run es all)
]

keep-IsKeyed :
    (p : String × DetectedRun → Bool) (known : List (String × DetectedRun))
    → All IsKeyed known
    → All IsKeyed (keep p known)
keep-IsKeyed p [] all = tt
keep-IsKeyed p (e ∷ es) (this, all) = elim (Bool-cases (p e)) [
  | inl kept ↦ rw kept (this, keep-IsKeyed p es all)
  | inr dropped ↦ rw dropped (keep-IsKeyed p es all)
]

pub keep-IsWellKeyed :
    (p : String × DetectedRun → Bool) (known : List (String × DetectedRun))
    → IsWellKeyed known
    → IsWellKeyed (keep p known)
keep-IsWellKeyed p known (unique, keyed) =
    (keep-HasUniqueKeys p known unique, keep-IsKeyed p known keyed)

details-IsWellKeyed :
    (run : DetectedRun) (state : MapperState)
    → IsWellKeyed state.known_runs
    → IsWellKeyed (run_details run state).0.known_runs
unfolding run_details
details-IsWellKeyed run state (unique, keyed) = (
  insert-HasUniqueKeys run.run_id run state.known_runs unique,
  insert-IsKeyed run state.known_runs keyed,
)

report_change-IsWellKeyed :
    (runtime : Runtime) (run : DetectedRun) (from : SessionRunLifecycleState) (first : Bool)
    (state : MapperState)
    → IsWellKeyed state.known_runs
    → IsWellKeyed (report_change runtime run from first state).0.known_runs
unfolding report_change
report_change-IsWellKeyed runtime run from first state w =
    elim (Bool-cases (same_state from run.state)) [
      | inl same ↦ rw (report_change, same) w
      | inr changed ↦ rw (report_change, changed) (details-IsWellKeyed run state w)
    ]

map_run-IsWellKeyed :
    (runtime : Runtime) (run : DetectedRun) (state : MapperState)
    → IsWellKeyed state.known_runs
    → IsWellKeyed (map_run runtime run state).0.known_runs
map_run-IsWellKeyed runtime run state w = elim (map_run_cases runtime run state) [
  | inl (new, q) ↦ rw q (report_change-IsWellKeyed runtime run _ true state w)
  | inr (previous, old, inl (same, q)) ↦ rw q (details-IsWellKeyed run state w)
  | inr (previous, old, inr (inl (over, q))) ↦ rw q w
  | inr (previous, old, inr (inr (going, q))) ↦
      rw q (report_change-IsWellKeyed runtime run previous.state false state w)
]

pub map_runs-IsWellKeyed :
    (runtime : Runtime) (runs : List DetectedRun) (state : MapperState)
    → IsWellKeyed state.known_runs
    → IsWellKeyed (map_runs runtime runs state).0.known_runs
unfolding map_runs
map_runs-IsWellKeyed runtime [] state w = w
map_runs-IsWellKeyed runtime (run ∷ runs) state w =
    map_runs-IsWellKeyed runtime runs (map_run runtime run state).0
      (map_run-IsWellKeyed runtime run state w)

active_goes_on :
    (state : SessionRunLifecycleState)
    → is_active_state state ≡ true
    → (is_terminal_state state ≡ false) × (same_state state completed ≡ false)
unfolding same_state state_code
active_goes_on state e = ground arith

change_of-other :
    (runtime : Runtime) (id : String) (e : String × DetectedRun)
    → IsKeyed e
    → (e.0 == id) ≡ false
    → change_of id (to_run_state_changed_event runtime e.1 e.1.state completed false) ≡ none
unfolding to_run_state_changed_event
change_of-other runtime id e keyed differs =
    let foreign : (e.1.run_id == id) ≡ false = subst (λ k. (k == id) ≡ false) (sym keyed) differs in
    rw foreign refl

vanished_unknown :
    (runtime : Runtime) (seen : List String) (id : String) (known : List (String × DetectedRun))
    → All IsKeyed known
    → lookup id known ≡ none
    → AreOther id (vanished_events runtime seen known)
unfolding vanished_events lookup
vanished_unknown runtime seen id [] all new = tt
vanished_unknown runtime seen id (e ∷ es) (keyed, all) new =
    let differs : (e.0 == id) ≡ false = ground arith in
    let absent : lookup id es ≡ none = ground arith in
    let rest = vanished_unknown runtime seen id es all absent in
    elim (Bool-cases (has_vanished seen e)) [
      | inr here ↦ rw (vanished_events, here) rest
      | inl gone ↦ rw (vanished_events, gone) (change_of-other runtime id e keyed differs, rest)
    ]

pub vanished_chain :
    (runtime : Runtime) (seen : List String) (id : String) (known : List (String × DetectedRun))
    → IsWellKeyed known
    → (o : Option SessionRunLifecycleState) × RunChain id
        (state_of (lookup id known))
        (vanished_events runtime seen known)
        o
unfolding vanished_events lookup
vanished_chain runtime seen id [] w = (none, done)
vanished_chain runtime seen id (e ∷ es) ((new, unique), (keyed, all)) =
    elim (Bool-cases (e.0 == id)) [
      | inr differs ↦
          let (o, rest) = vanished_chain runtime seen id es (unique, all) in
          rw (lookup, differs)
            (elim (Bool-cases (has_vanished seen e)) [
              | inr here ↦ rw (vanished_events, here) (o, rest)
              | inl gone ↦
                  rw (vanished_events, gone)
                    (o, other (change_of-other runtime id e keyed differs) rest)
            ])
      | inl own ↦
          let same : e.0 ≡ id = (eq_iff e.0 id).0 own in
          let rest =
            vanished_unknown runtime seen id es all (subst (λ k. lookup k es ≡ none) same new) in
          rw (lookup, own)
            (elim (Bool-cases (has_vanished seen e)) [
              | inr here ↦
                  rw (vanished_events, here) (some e.1.state, Chain-other (some e.1.state) _ rest)
              | inl gone ↦
                  let (goes_on, changes) = active_goes_on e.1.state (ground arith) in
                  rw (vanished_events, gone)
                    (
                      some completed,
                      next (own_change e.1 e.1.state completed)
                          (subst
                            (λ k.
                              change_of k
                                (to_run_state_changed_event runtime e.1 e.1.state completed false)
                              ≡ some (own_change e.1 e.1.state completed))
                            (keyed ∙ same)
                            (own_change-change_of runtime e.1 e.1.state completed false))
                          (refl, goes_on, changes) (Chain-other (some completed) _ rest),
                    )
            ])
    ]
