-- ===== src/Mapper/Quiet.antt =====
-- Changes of runs and sessions report no tool call, log or model usage.
use patze_control.Base.{
  ℕ, Bool, false, String, List, [], ◌∷◌, ◌++◌, Bool-cases, Option-cases, ◌≡◌, refl, ap, ◌∙◌, inl,
  inr,
}
use patze_control.Telemetry.Timestamps.{Runtime}
use patze_control.Mapper.Types.{
  SessionRunLifecycleState, DetectedRun, SessionTrack, RunChange, MappedEvent, run_changed,
  same_state, is_terminal_state, lookup, completed,
}
use patze_control.Mapper.Runs.{to_run_state_changed_event}
use patze_control.Mapper.Sessions.{
  Sessions, absorb_change, absorb_event, absorb_events, is_idle, terminal_state_of, settle_session,
  settle_sessions, to_session_state_changed_event,
}
use patze_control.Mapper.Poll.{has_vanished, vanished_events}
use patze_control.Mapper.Keys.{
  tool_reported, log_reported, usage_reported, reported, reported-append,
}

-- Events that report none of the three.
pub record AreQuiet (es : List MappedEvent) : Type 0 where
  pub no_tools : reported tool_reported es ≡ []
  pub no_logs : reported log_reported es ≡ []
  pub no_usages : reported usage_reported es ≡ []

pub none-AreQuiet : AreQuiet []
none-AreQuiet = record { no_tools = refl; no_logs = refl; no_usages = refl }

pub append-AreQuiet : (es fs : List MappedEvent) → AreQuiet es → AreQuiet fs → AreQuiet (es ++ fs)
append-AreQuiet es fs p q = record {
  no_tools =
      reported-append tool_reported es fs
      ∙ ap (λ l. l ++ reported tool_reported fs) p.no_tools
      ∙ q.no_tools;
  no_logs =
      reported-append log_reported es fs
      ∙ ap (λ l. l ++ reported log_reported fs) p.no_logs
      ∙ q.no_logs;
  no_usages =
      reported-append usage_reported es fs
      ∙ ap (λ l. l ++ reported usage_reported fs) p.no_usages
      ∙ q.no_usages;
}

pub change_event-AreQuiet :
    (runtime : Runtime) (run : DetectedRun) (from to : SessionRunLifecycleState) (first : Bool)
    → AreQuiet (to_run_state_changed_event runtime run from to first ∷ [])
unfolding to_run_state_changed_event
change_event-AreQuiet runtime run from to first = record {
  no_tools = refl;
  no_logs = refl;
  no_usages = refl;
}

pub vanished-AreQuiet :
    (runtime : Runtime) (seen : List String) (known : List (String × DetectedRun))
    → AreQuiet (vanished_events runtime seen known)
unfolding vanished_events
vanished-AreQuiet runtime seen [] = none-AreQuiet
vanished-AreQuiet runtime seen (e ∷ es) = elim (Bool-cases (has_vanished seen e)) [
  | inr here ↦ rw (vanished_events, here) (vanished-AreQuiet runtime seen es)
  | inl gone ↦
      rw (vanished_events, gone)
        (append-AreQuiet (to_run_state_changed_event runtime e.1 e.1.state completed false ∷ [])
          (vanished_events runtime seen es)
          (change_event-AreQuiet runtime e.1 e.1.state completed false)
          (vanished-AreQuiet runtime seen es))
]

session_event-AreQuiet :
    (machine_id session_id agent_id : String) (from to : SessionRunLifecycleState)
    → AreQuiet (to_session_state_changed_event machine_id session_id agent_id from to ∷ [])
unfolding to_session_state_changed_event
session_event-AreQuiet machine_id session_id agent_id from to = record {
  no_tools = refl;
  no_logs = refl;
  no_usages = refl;
}

absorb_change-AreQuiet :
    (machine_id : String) (change : RunChange) (sessions : Sessions)
    → AreQuiet (absorb_change machine_id change sessions).1
unfolding absorb_change
absorb_change-AreQuiet machine_id change sessions =
    elim (Option-cases (lookup change.session_id sessions)) [
      | inl new ↦ rw (absorb_change, new) (session_event-AreQuiet machine_id _ _ _ _)
      | inr (track, old) ↦ elim (Bool-cases (is_terminal_state track.state)) [
        | inl over ↦ rw (absorb_change, old, over) none-AreQuiet
        | inr going ↦ rw (absorb_change, old, going) none-AreQuiet
      ]
    ]

absorb_event-AreQuiet :
    (machine_id : String) (event : MappedEvent) (sessions : Sessions)
    → AreQuiet (absorb_event machine_id event sessions).1
absorb_event-AreQuiet machine_id event sessions =
    elim event.payload
      as (λ p. AreQuiet (absorb_event machine_id (record event { payload = p }) sessions).1) [
        | run_changed change ↦ absorb_change-AreQuiet machine_id change sessions
        | _ ↦ none-AreQuiet
      ]

pub absorb_events-AreQuiet :
    (machine_id : String) (events : List MappedEvent) (sessions : Sessions)
    → AreQuiet (absorb_events machine_id events sessions).1
unfolding absorb_events
absorb_events-AreQuiet machine_id [] sessions = none-AreQuiet
absorb_events-AreQuiet machine_id (event ∷ events) sessions =
    let first = absorb_event machine_id event sessions in
    append-AreQuiet first.1 _ (absorb_event-AreQuiet machine_id event sessions)
      (absorb_events-AreQuiet machine_id events first.0)

settle_session-AreQuiet :
    (now : ℕ) (known : List (String × DetectedRun)) (e : String × SessionTrack)
    → AreQuiet (settle_session now known e).1
unfolding settle_session
settle_session-AreQuiet now known (session_id, track) = elim (Bool-cases (is_idle track)) [
  | inr busy ↦ rw (settle_session, busy) none-AreQuiet
  | inl idle ↦ elim (Bool-cases (same_state track.state (terminal_state_of session_id known))) [
    | inl same ↦ rw (settle_session, idle, same) none-AreQuiet
    | inr other ↦
        rw (settle_session, idle, other)
          (session_event-AreQuiet track.machine_id session_id track.agent_id _ _)
  ]
]

pub settle_sessions-AreQuiet :
    (now : ℕ) (known : List (String × DetectedRun)) (sessions : Sessions)
    → AreQuiet (settle_sessions now known sessions).1
unfolding settle_sessions
settle_sessions-AreQuiet now known [] = none-AreQuiet
settle_sessions-AreQuiet now known (e ∷ es) =
    append-AreQuiet (settle_session now known e).1 _ (settle_session-AreQuiet now known e)
      (settle_sessions-AreQuiet now known es)
