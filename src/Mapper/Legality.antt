-- ===== src/Mapper/Legality.antt =====
-- What a poll reports about runs and sessions is legal.
use patze_control.Base.{
  ℕ, Bool, true, false, not, keep, subst, sym, ◌∙◌, inl, inr, arith, Option, none, String, List, [],
  ◌∷◌, All-append, ◌≡◌, refl,
}
use patze_control.Telemetry.Timestamps.{Runtime}
use patze_control.Mapper.Types.{
  SessionRunLifecycleState, DetectedRun, MapperState, MappedEvent, has_key,
}
use patze_control.Mapper.Runs.{run_details, report_change, map_run, map_runs}
use patze_control.Mapper.Cases.{map_run_cases}
use patze_control.Mapper.Sessions.{
  ids_of, is_stale, absorb_events, settle_sessions, evict, evict_stale_sessions,
  infer_session_events,
}
use patze_control.Mapper.Poll.{run_ids, forget_vanished, map_all_runs, map_run_state_changed_events}
use patze_control.Mapper.Tables.{HasUniqueKeys, keep-HasUniqueKeys}
use patze_control.Mapper.Chains.{
  Chain-append, Chain-other, RunChain, AreOther, known_state, change_of,
}
use patze_control.Mapper.Legal.{map_runs-MapsTo}
use patze_control.Mapper.Vanished.{
  IsWellKeyed, keep-IsWellKeyed, map_runs-IsWellKeyed, vanished_chain,
}
use patze_control.Mapper.Inferred.{
  SessionChain, session_state, session_change_of, absorb_events-Leads, absorb_events-HasUniqueKeys,
}
use patze_control.Mapper.Settling.{settle_sessions_chain, settle_sessions-HasUniqueKeys}
use patze_control.Mapper.Apart.{
  AreOfRuns, map_runs-AreOfRuns, vanished-AreOfRuns, absorb_events-AreOther,
  settle_sessions-AreOther,
}

-- Each run is known once, under its own id, and each session once.
abbrev pub IsWellFormed : MapperState → Type 0
IsWellFormed state = IsWellKeyed state.known_runs × HasUniqueKeys state.known_sessions

-- The changes among the events, for each run and each session, from what is known before the poll.
pub record IsLegal (state : MapperState) (out : MapperState × List MappedEvent) : Type 0 where
  pub runs :
      (id : String)
      → (after : Option SessionRunLifecycleState) × RunChain id (known_state id state) out.1 after
  pub sessions :
      (id : String)
      → (after : Option SessionRunLifecycleState) × SessionChain id
          (session_state id state.known_sessions)
          out.1
          after
  pub well_formed : IsWellFormed out.0

evict-IsWellFormed :
    (ids : List String) (state : MapperState) → IsWellFormed state → IsWellFormed (evict ids state)
unfolding evict
evict-IsWellFormed ids state (keyed, unique) = (
  keep-IsWellKeyed (λ e. not (has_key e.1.session_id ids)) state.known_runs keyed,
  keep-HasUniqueKeys (λ e. not (has_key e.0 ids)) state.known_sessions unique,
)

evict_stale-IsWellFormed :
    (now : ℕ) (state : MapperState)
    → IsWellFormed state
    → IsWellFormed (evict_stale_sessions now state)
unfolding evict_stale_sessions
evict_stale-IsWellFormed now state w =
    let stale = ids_of (keep (λ e. is_stale now e.1) state.known_sessions) in
    evict-IsWellFormed _ (evict stale state) (evict-IsWellFormed stale state w)

map_all_runs-IsWellKeyed :
    (runtime : Runtime) (runs : List DetectedRun) (state : MapperState)
    → IsWellKeyed state.known_runs
    → IsWellKeyed (map_all_runs runtime runs state).0.known_runs
unfolding map_all_runs forget_vanished
map_all_runs-IsWellKeyed runtime runs state w =
    keep-IsWellKeyed _ _ (map_runs-IsWellKeyed runtime runs state w)

report_change-known_sessions :
    (runtime : Runtime) (run : DetectedRun) (from : SessionRunLifecycleState) (first : Bool)
    (state : MapperState)
    → (report_change runtime run from first state).0.known_sessions ≡ state.known_sessions
unfolding report_change run_details
report_change-known_sessions runtime run from first state = ground arith

map_run-known_sessions :
    (runtime : Runtime) (run : DetectedRun) (state : MapperState)
    → (map_run runtime run state).0.known_sessions ≡ state.known_sessions
unfolding run_details
map_run-known_sessions runtime run state = elim (map_run_cases runtime run state) [
  | inl (new, q) ↦ rw q (report_change-known_sessions runtime run _ true state)
  | inr (previous, old, inl (same, q)) ↦ rw q refl
  | inr (previous, old, inr (inl (over, q))) ↦ rw q refl
  | inr (previous, old, inr (inr (going, q))) ↦
      rw q (report_change-known_sessions runtime run previous.state false state)
]

map_runs-known_sessions :
    (runtime : Runtime) (runs : List DetectedRun) (state : MapperState)
    → (map_runs runtime runs state).0.known_sessions ≡ state.known_sessions
unfolding map_runs
map_runs-known_sessions runtime [] state = refl
map_runs-known_sessions runtime (run ∷ runs) state =
    map_runs-known_sessions runtime runs (map_run runtime run state).0
    ∙ map_run-known_sessions runtime run state

map_all_runs_chain :
    (runtime : Runtime) (id : String) (runs : List DetectedRun) (state : MapperState)
    → IsWellKeyed state.known_runs
    → (after : Option SessionRunLifecycleState) × RunChain id
        (known_state id state)
        (map_all_runs runtime runs state).1
        after
unfolding map_all_runs
map_all_runs_chain runtime id runs state w =
    let mapped = map_runs runtime runs state in
    let (after, rest) =
      vanished_chain runtime (run_ids runs) id mapped.0.known_runs
        (map_runs-IsWellKeyed runtime runs state w) in
    (
      after,
      Chain-append (known_state id state) (known_state id mapped.0) after mapped.1 _
          (map_runs-MapsTo runtime id runs state) rest,
    )

pub map_all_runs-known_sessions :
    (runtime : Runtime) (runs : List DetectedRun) (state : MapperState)
    → (map_all_runs runtime runs state).0.known_sessions ≡ state.known_sessions
unfolding map_all_runs
map_all_runs-known_sessions runtime runs state = map_runs-known_sessions runtime runs state

infer_chain :
    (machine_id : String) (now : ℕ) (id : String) (events : List MappedEvent) (state : MapperState)
    → HasUniqueKeys state.known_sessions
    → (after : Option SessionRunLifecycleState) × SessionChain id
        (session_state id state.known_sessions)
        (infer_session_events machine_id now events state).1
        after
unfolding infer_session_events
infer_chain machine_id now id events state u =
    let absorbed = absorb_events machine_id events state.known_sessions in
    let (after, rest) =
      settle_sessions_chain now state.known_runs id absorbed.0
        (absorb_events-HasUniqueKeys machine_id events state.known_sessions u) in
    (
      after,
      Chain-append (session_state id state.known_sessions) (session_state id absorbed.0) after
          absorbed.1 _ (absorb_events-Leads machine_id id events state.known_sessions) rest,
    )

infer-AreOther :
    (machine_id : String) (now : ℕ) (id : String) (events : List MappedEvent) (state : MapperState)
    → AreOther id (infer_session_events machine_id now events state).1
unfolding infer_session_events
infer-AreOther machine_id now id events state =
    All-append (λ e. change_of id e ≡ none) _ _
      (absorb_events-AreOther machine_id id events state.known_sessions)
      (settle_sessions-AreOther now id state.known_runs
        (absorb_events machine_id events state.known_sessions).0)

pub map_all_runs-AreOfRuns :
    (runtime : Runtime) (id : String) (runs : List DetectedRun) (state : MapperState)
    → AreOfRuns id (map_all_runs runtime runs state).1
unfolding map_all_runs
map_all_runs-AreOfRuns runtime id runs state =
    All-append (λ e. session_change_of id e ≡ none) _ _ (map_runs-AreOfRuns runtime id runs state)
      (vanished-AreOfRuns runtime id (run_ids runs) _)

infer-IsWellFormed :
    (machine_id : String) (now : ℕ) (events : List MappedEvent) (state : MapperState)
    → IsWellFormed state
    → IsWellFormed (infer_session_events machine_id now events state).0
unfolding infer_session_events
infer-IsWellFormed machine_id now events state (keyed, unique) =
    let absorbed = absorb_events machine_id events state.known_sessions in
    let settled = settle_sessions now state.known_runs absorbed.0 in
    evict_stale-IsWellFormed now (record state { known_sessions = settled.0 })
      (
        keyed,
        settle_sessions-HasUniqueKeys now state.known_runs absorbed.0
            (absorb_events-HasUniqueKeys machine_id events state.known_sessions unique),
      )

-- The changes that a poll reports follow each other and what was known before. A new run begins in its
-- initial state; a known one goes on from its last state, never from a terminal one, and always to
-- another state. An unknown session is reported as running; a known one only ends, once, from an active
-- state and as failed or completed. So a run or session known as terminal is not resurrected.
pub map_run_state_changed_events-IsLegal :
    (runtime : Runtime) (machine_id : String) (now : ℕ) (active_runs : List DetectedRun)
    (state : MapperState)
    → IsWellFormed state
    → IsLegal state (map_run_state_changed_events runtime machine_id now active_runs state)
unfolding map_run_state_changed_events map_all_runs
map_run_state_changed_events-IsLegal runtime machine_id now active_runs state (keyed, unique) =
    let mapped = map_all_runs runtime active_runs state in
    let kept : mapped.0.known_sessions ≡ state.known_sessions =
      map_all_runs-known_sessions runtime active_runs state in
    let still : HasUniqueKeys mapped.0.known_sessions = subst HasUniqueKeys (sym kept) unique in
    record {
      runs = λ id.
          let (after, chain) = map_all_runs_chain runtime id active_runs state keyed in
          (
            after,
            Chain-append (known_state id state) after after mapped.1 _ chain
                (Chain-other after _ (infer-AreOther machine_id now id mapped.1 mapped.0)),
          );
      sessions = λ id.
          let (after, chain) = infer_chain machine_id now id mapped.1 mapped.0 still in
          (
            after,
            Chain-append (session_state id state.known_sessions)
                (session_state id state.known_sessions) after mapped.1 _
                (Chain-other (session_state id state.known_sessions) mapped.1
                  (map_all_runs-AreOfRuns runtime id active_runs state))
                (subst
                  (λ s.
                    SessionChain id (session_state id s)
                      (infer_session_events machine_id now mapped.1 mapped.0).1 after)
                  kept chain),
          );
      well_formed =
          infer-IsWellFormed machine_id now mapped.1 mapped.0
            (map_all_runs-IsWellKeyed runtime active_runs state keyed, still);
    }
