-- ===== src/Mapper/Inferred.antt =====
-- The changes of each session that a poll reports follow each other.
use patze_control.Base.{
  true, false, Option, none, some, String, ◌==◌, eq_iff, List, [], ◌∷◌, if◌then◌else◌, Bool-cases,
  Option-cases, ◌≡◌, ◌⊎◌, refl, sym, ap, ◌∙◌, subst, inl, inr,
}
use patze_control.Mapper.Types.{
  SessionRunLifecycleState, created, running, completed, failed, RunChange, SessionChange,
  SessionTrack, MappedEvent, run_changed, session_changed, is_terminal_state, is_active_state,
  lookup, insert,
}
use patze_control.Mapper.Sessions.{
  Sessions, mark, new_track, absorb_change, absorb_event, absorb_events,
  to_session_state_changed_event,
}
use patze_control.Mapper.Tables.{
  HasUniqueKeys, lookup-insert_same, lookup-insert_other, insert-HasUniqueKeys,
}
use patze_control.Mapper.Chains.{Chain, done, other, next, Chain-append}

-- The change of the session of the given id that an event reports.
abbrev pub session_change_of : String → MappedEvent → Option SessionChange
session_change_of id event = elim event.payload [
  | session_changed change ↦ if change.session_id == id then some change else none
  | _ ↦ none
]

-- An unknown session begins to run; a known one that is active ends, as failed or completed.
abbrev pub IsSessionStep : Option SessionRunLifecycleState → SessionChange → Type 0
IsSessionStep none change = (change.from ≡ created) × (change.to ≡ running)
IsSessionStep (some state) change =
    (change.from ≡ state)
    × (is_active_state state ≡ true)
    × ((change.to ≡ failed) ⊎ (change.to ≡ completed))

abbrev pub SessionChain :
    String
    → Option SessionRunLifecycleState
    → List MappedEvent
    → Option SessionRunLifecycleState
    → Type 0
SessionChain id = Chain (session_change_of id) IsSessionStep (λ change. change.to)

abbrev pub track_state : Option SessionTrack → Option SessionRunLifecycleState
track_state none = none
track_state (some track) = some track.state

abbrev pub session_state : String → Sessions → Option SessionRunLifecycleState
session_state id sessions = track_state (lookup id sessions)

-- The change in the event of a session.
abbrev pub session_change :
    String → String → String → SessionRunLifecycleState → SessionRunLifecycleState → SessionChange
session_change machine_id id agent_id from to = record {
  session_id = id;
  agent_id = agent_id;
  machine_id = machine_id;
  from = from;
  to = to;
}

pub event-own :
    (machine_id id agent_id : String) (from to : SessionRunLifecycleState)
    → session_change_of id (to_session_state_changed_event machine_id id agent_id from to)
      ≡ some (session_change machine_id id agent_id from to)
unfolding to_session_state_changed_event
event-own machine_id id agent_id from to = rw ((eq_iff id id).1 refl) refl

pub event-other :
    (machine_id k id agent_id : String) (from to : SessionRunLifecycleState)
    → (k == id) ≡ false
    → session_change_of id (to_session_state_changed_event machine_id k agent_id from to) ≡ none
unfolding to_session_state_changed_event
event-other machine_id k id agent_id from to differs = rw differs refl

abbrev Leads : String → Sessions → Sessions × List MappedEvent → Type 0
Leads id before out = SessionChain id (session_state id before) out.1 (session_state id out.0)

mark-state : (change : RunChange) (track : SessionTrack) → (mark change track).state ≡ track.state
unfolding mark
mark-state change track = refl

absorb_change-same :
    (machine_id : String) (change : RunChange) (sessions : Sessions)
    → Leads change.session_id sessions (absorb_change machine_id change sessions)
unfolding absorb_change
absorb_change-same machine_id change sessions =
    let id = change.session_id in
    elim (Option-cases (lookup id sessions)) [
      | inl new ↦
          let opened = mark change (new_track machine_id change) in
          rw
            (
              absorb_change,
              new,
              lookup-insert_same id opened sessions,
              mark-state change (new_track machine_id change),
            )
            (next (session_change machine_id id change.agent_id created running)
              (event-own machine_id id change.agent_id created running) (refl, refl) done)
      | inr (track, old) ↦ elim (Bool-cases (is_terminal_state track.state)) [
        | inl over ↦
            rw (absorb_change, old, over)
              (subst (λ o. SessionChain id (some track.state) [] o) (sym (ap track_state old)) done)
        | inr going ↦
            let kept : session_state id (insert id (mark change track) sessions)
                ≡ some track.state =
              ap track_state (lookup-insert_same id (mark change track) sessions)
              ∙ ap some (mark-state change track) in
            rw (absorb_change, old, going)
              (subst (λ o. SessionChain id (some track.state) [] o) (sym kept) done)
      ]
    ]

absorb_change-foreign :
    (machine_id id : String) (change : RunChange) (sessions : Sessions)
    → (change.session_id == id) ≡ false
    → Leads id sessions (absorb_change machine_id change sessions)
unfolding absorb_change
absorb_change-foreign machine_id id change sessions differs =
    let k = change.session_id in
    elim (Option-cases (lookup k sessions)) [
      | inl new ↦
          rw
            (
              absorb_change,
              new,
              lookup-insert_other k id (mark change (new_track machine_id change)) sessions differs,
            )
            (other (event-other machine_id k id change.agent_id created running differs) done)
      | inr (track, old) ↦ elim (Bool-cases (is_terminal_state track.state)) [
        | inl over ↦ rw (absorb_change, old, over) done
        | inr going ↦
            rw
              (
                absorb_change,
                old,
                going,
                lookup-insert_other k id (mark change track) sessions differs,
              )
              done
      ]
    ]

absorb_change-Leads :
    (machine_id id : String) (change : RunChange) (sessions : Sessions)
    → Leads id sessions (absorb_change machine_id change sessions)
absorb_change-Leads machine_id id change sessions = elim (Bool-cases (change.session_id == id)) [
  | inl own ↦
      subst (λ i. Leads i sessions (absorb_change machine_id change sessions))
        ((eq_iff change.session_id id).0 own) (absorb_change-same machine_id change sessions)
  | inr differs ↦ absorb_change-foreign machine_id id change sessions differs
]

absorb_event-Leads :
    (machine_id id : String) (event : MappedEvent) (sessions : Sessions)
    → Leads id sessions (absorb_event machine_id event sessions)
absorb_event-Leads machine_id id event sessions =
    elim event.payload
      as (λ p.
        Leads id sessions (absorb_event machine_id (record event { payload = p }) sessions)) [
          | run_changed change ↦ absorb_change-Leads machine_id id change sessions
          | _ ↦ done
        ]

pub absorb_events-Leads :
    (machine_id id : String) (events : List MappedEvent) (sessions : Sessions)
    → Leads id sessions (absorb_events machine_id events sessions)
unfolding absorb_events
absorb_events-Leads machine_id id [] sessions = done
absorb_events-Leads machine_id id (event ∷ events) sessions =
    let first = absorb_event machine_id event sessions in
    Chain-append (session_state id sessions) (session_state id first.0) _ first.1 _
      (absorb_event-Leads machine_id id event sessions)
      (absorb_events-Leads machine_id id events first.0)

absorb_event-HasUniqueKeys :
    (machine_id : String) (event : MappedEvent) (sessions : Sessions)
    → HasUniqueKeys sessions
    → HasUniqueKeys (absorb_event machine_id event sessions).0
unfolding absorb_change
absorb_event-HasUniqueKeys machine_id event sessions u =
    elim event.payload
      as (λ p. HasUniqueKeys (absorb_event machine_id (record event { payload = p }) sessions).0) [
        | run_changed change ↦ elim (Option-cases (lookup change.session_id sessions)) [
          | inl new ↦ rw (absorb_change, new) (insert-HasUniqueKeys change.session_id _ sessions u)
          | inr (track, old) ↦ elim (Bool-cases (is_terminal_state track.state)) [
            | inl over ↦ rw (absorb_change, old, over) u
            | inr going ↦
                rw (absorb_change, old, going) (insert-HasUniqueKeys change.session_id _ sessions u)
          ]
        ]
        | _ ↦ u
      ]

pub absorb_events-HasUniqueKeys :
    (machine_id : String) (events : List MappedEvent) (sessions : Sessions)
    → HasUniqueKeys sessions
    → HasUniqueKeys (absorb_events machine_id events sessions).0
unfolding absorb_events
absorb_events-HasUniqueKeys machine_id [] sessions u = u
absorb_events-HasUniqueKeys machine_id (event ∷ events) sessions u =
    absorb_events-HasUniqueKeys machine_id events _
      (absorb_event-HasUniqueKeys machine_id event sessions u)
