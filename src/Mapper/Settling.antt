-- ===== src/Mapper/Settling.antt =====
-- The ends of sessions, and the whole poll.
use patze_control.Base.{
  ℕ, true, false, Option, none, some, String, ◌==◌, eq_iff, List, [], ◌∷◌, ◌++◌, All, Bool-cases,
  ◌≡◌, ◌⊎◌, refl, sym, subst, inl, inr, arith,
}
use patze_control.Mapper.Types.{
  SessionRunLifecycleState, completed, failed, DetectedRun, SessionTrack, MappedEvent, same_state,
  is_active_state, lookup,
}
use patze_control.Mapper.Sessions.{
  Sessions, is_idle, terminal_state_of, settle_session, settle_sessions,
  to_session_state_changed_event,
}
use patze_control.Mapper.Tables.{HasUniqueKeys}
use patze_control.Mapper.Chains.{done, other, next, Chain-other}
use patze_control.Mapper.Inferred.{
  session_change_of, SessionChain, session_state, session_change, event-own, event-other,
}

terminal_state_of-cases :
    (id : String) (known : List (String × DetectedRun))
    → (terminal_state_of id known ≡ failed) ⊎ (terminal_state_of id known ≡ completed)
unfolding terminal_state_of
terminal_state_of-cases id known = ground arith

-- A session goes on, or ends with one event.
pub settle_session_cases :
    (now : ℕ) (known : List (String × DetectedRun)) (id : String) (track : SessionTrack)
    → (settle_session now known (id, track) ≡ (track, []))
      ⊎ ((is_active_state track.state ≡ true)
          × (settle_session now known (id, track) ≡ (
            record track { state = terminal_state_of id known; terminal_since = some now },
            to_session_state_changed_event track.machine_id id track.agent_id track.state
                  (terminal_state_of id known)
                ∷ [],
          )))
unfolding settle_session
settle_session_cases now known id track = elim (Bool-cases (is_idle track)) [
  | inr busy ↦ inl (rw (settle_session, busy) refl)
  | inl idle ↦
      let active : is_active_state track.state ≡ true = ground arith in
      elim (Bool-cases (same_state track.state (terminal_state_of id known))) [
        | inl same ↦ inl (rw (settle_session, idle, same) refl)
        | inr differs ↦ inr (active, rw (settle_session, idle, differs) refl)
      ]
]

settled_unknown :
    (now : ℕ) (known : List (String × DetectedRun)) (id : String) (sessions : Sessions)
    → lookup id sessions ≡ none
    → All (λ e. session_change_of id e ≡ none) (settle_sessions now known sessions).1
unfolding settle_sessions lookup
settled_unknown now known id [] new = tt
settled_unknown now known id ((k, track) ∷ es) new =
    let differs : (k == id) ≡ false = ground arith in
    let absent : lookup id es ≡ none = ground arith in
    let quiet = settled_unknown now known id es absent in
    elim (settle_session_cases now known k track) [
      | inl q ↦ rw q quiet
      | inr (active, q) ↦ rw q (
        event-other track.machine_id k id track.agent_id track.state (terminal_state_of k known)
            differs,
        quiet,
      )
    ]

-- The end of an active session is a step.
settled_own :
    (now : ℕ) (known : List (String × DetectedRun)) (id : String) (track : SessionTrack)
    (rest : List MappedEvent)
    → All (λ e. session_change_of id e ≡ none) rest
    → (o : Option SessionRunLifecycleState) × SessionChain id
        (some track.state)
        ((settle_session now known (id, track)).1 ++ rest)
        o
settled_own now known id track rest quiet =
    let to = terminal_state_of id known in
    elim (settle_session_cases now known id track) [
      | inl q ↦ rw q (some track.state, Chain-other (some track.state) rest quiet)
      | inr (active, q) ↦ rw q (
        some to,
        next (session_change track.machine_id id track.agent_id track.state to)
            (event-own track.machine_id id track.agent_id track.state to)
            (refl, active, terminal_state_of-cases id known) (Chain-other (some to) rest quiet),
      )
    ]

pub settle_sessions_chain :
    (now : ℕ) (known : List (String × DetectedRun)) (id : String) (sessions : Sessions)
    → HasUniqueKeys sessions
    → (o : Option SessionRunLifecycleState) × SessionChain id
        (session_state id sessions)
        (settle_sessions now known sessions).1
        o
unfolding settle_sessions lookup
settle_sessions_chain now known id [] u = (none, done)
settle_sessions_chain now known id ((k, track) ∷ es) (new, unique) =
    let later = settle_sessions now known es in
    elim (Bool-cases (k == id)) [
      | inl own ↦
          let same : k ≡ id = (eq_iff k id).0 own in
          let quiet = settled_unknown now known id es (subst (λ j. lookup j es ≡ none) same new) in
          rw (lookup, own)
            (subst
              (λ j.
                (o : Option SessionRunLifecycleState) × SessionChain id (some track.state)
                  ((settle_session now known (j, track)).1 ++ later.1) o)
              (sym same) (settled_own now known id track later.1 quiet))
      | inr differs ↦
          let (o, rest) = settle_sessions_chain now known id es unique in
          rw (lookup, differs)
            (elim (settle_session_cases now known k track) [
              | inl q ↦ rw q (o, rest)
              | inr (active, q) ↦ rw q (
                o,
                other
                    (event-other track.machine_id k id track.agent_id track.state
                      (terminal_state_of k known) differs)
                    rest,
              )
            ])
    ]

settled-lookup :
    (now : ℕ) (known : List (String × DetectedRun)) (k : String) (sessions : Sessions)
    → lookup k sessions ≡ none
    → lookup k (settle_sessions now known sessions).0 ≡ none
unfolding settle_sessions lookup
settled-lookup now known k [] new = refl
settled-lookup now known k (e ∷ es) new = ground (arith, settled-lookup now known k es)

pub settle_sessions-HasUniqueKeys :
    (now : ℕ) (known : List (String × DetectedRun)) (sessions : Sessions)
    → HasUniqueKeys sessions
    → HasUniqueKeys (settle_sessions now known sessions).0
unfolding settle_sessions
settle_sessions-HasUniqueKeys now known [] u = tt
settle_sessions-HasUniqueKeys now known (e ∷ es) (new, u) =
    (settled-lookup now known e.0 es new, settle_sessions-HasUniqueKeys now known es u)
