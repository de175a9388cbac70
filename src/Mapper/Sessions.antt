-- ===== src/Mapper/Sessions.antt =====
-- The sessions that the mapper infers from the changes of runs, and what it forgets.
use patze_control.Base.{
  ℕ, ◌-◌, Bool, true, false, not, ◌&&◌, ◌||◌, Option, none, some, String, ◌==◌, List, [], ◌∷◌, ◌++◌,
  length, take, keep, eqb, ltb, if◌then◌else◌,
}
use patze_control.Telemetry.Events.{info}
use patze_control.Mapper.Types.{
  SessionRunLifecycleState, created, running, completed, failed, DetectedRun, SessionTrack,
  MapperState, mapper_session_cap, mapper_session_evict_ms, RunChange, MappedEvent, run_changed,
  session_changed, same_state, is_terminal_state, is_active_state, lookup, insert, has_key, add_key,
  remove_key,
}

abbrev pub Sessions : Type 0
Sessions = List (String × SessionTrack)

unfoldable pub to_session_state_changed_event :
    String → String → String → SessionRunLifecycleState → SessionRunLifecycleState → MappedEvent
to_session_state_changed_event machine_id session_id agent_id from to = record {
  ts = none;
  severity = info;
  payload = session_changed (record {
    session_id = session_id;
    agent_id = agent_id;
    machine_id = machine_id;
    from = from;
    to = to;
  });
}

-- The change of a run is entered in its session.
unfoldable pub mark : RunChange → SessionTrack → SessionTrack
unfolding add_key remove_key
mark change track = record track {
  active_run_ids =
      if is_terminal_state change.to
      then remove_key change.run_id track.active_run_ids
      else add_key change.run_id track.active_run_ids;
}

abbrev pub new_track : String → RunChange → SessionTrack
new_track machine_id change = record {
  agent_id = change.agent_id;
  machine_id = machine_id;
  state = running;
  active_run_ids = [];
  terminal_since = none;
}

unfoldable pub absorb_change : String → RunChange → Sessions → Sessions × List MappedEvent
unfolding mark to_session_state_changed_event insert lookup
absorb_change machine_id change sessions = elim (lookup change.session_id sessions) [
  | some track ↦
      if is_terminal_state track.state
      then (sessions, [])
      else (insert change.session_id (mark change track) sessions, [])
  | none ↦ (
    insert change.session_id (mark change (new_track machine_id change)) sessions,
    to_session_state_changed_event machine_id change.session_id change.agent_id created running
        ∷ [],
  )
]

abbrev pub absorb_event : String → MappedEvent → Sessions → Sessions × List MappedEvent
absorb_event machine_id event sessions = elim event.payload [
  | run_changed change ↦ absorb_change machine_id change sessions
  | _ ↦ (sessions, [])
]

-- The first loop of `inferSessionEvents`.
unfoldable pub absorb_events : String → List MappedEvent → Sessions → Sessions × List MappedEvent
unfolding absorb_change
absorb_events machine_id [] sessions = (sessions, [])
absorb_events machine_id (event ∷ events) sessions =
    let (sessions', told) = absorb_event machine_id event sessions in
    let (sessions'', rest) = absorb_events machine_id events sessions' in (sessions'', told ++ rest)

abbrev pub runs_of_session : String → List (String × DetectedRun) → List (String × DetectedRun)
runs_of_session session_id known = keep (λ e. e.1.session_id == session_id) known

unfoldable pub any_failed : List (String × DetectedRun) → Bool
any_failed [] = false
any_failed (e ∷ es) = let rest = any_failed es in same_state e.1.state failed || rest

unfoldable pub terminal_state_of : String → List (String × DetectedRun) → SessionRunLifecycleState
unfolding any_failed
terminal_state_of session_id known =
    if any_failed (runs_of_session session_id known) then failed else completed

abbrev pub is_idle : SessionTrack → Bool
is_idle track = eqb (length track.active_run_ids) 0 && is_active_state track.state

-- The body of the second loop: a session without active runs ends.
unfoldable pub settle_session :
    ℕ → List (String × DetectedRun) → String × SessionTrack → SessionTrack × List MappedEvent
unfolding terminal_state_of to_session_state_changed_event
settle_session now known (session_id, track) =
    let to = terminal_state_of session_id known in
    if not (is_idle track)
    then (track, [])
    else if same_state track.state to
    then (track, [])
    else (
      record track { state = to; terminal_since = some now },
      to_session_state_changed_event track.machine_id session_id track.agent_id track.state to ∷ [],
    )

unfoldable pub settle_sessions :
    ℕ → List (String × DetectedRun) → Sessions → Sessions × List MappedEvent
unfolding settle_session
settle_sessions now known [] = ([], [])
settle_sessions now known (e ∷ es) =
    let (track, told) = settle_session now known e in
    let (rest, more) = settle_sessions now known es in ((e.0, track) ∷ rest, told ++ more)

abbrev pub since_passed : ℕ → Option ℕ → Bool
since_passed now none = false
since_passed now (some since) = ltb mapper_session_evict_ms (now - since)

abbrev pub is_stale : ℕ → SessionTrack → Bool
is_stale now track = is_terminal_state track.state && since_passed now track.terminal_since

-- `a` comes behind `b` in the order of the ends, where a missing end counts as infinite.
abbrev pub ends_after : Option ℕ → Option ℕ → Bool
ends_after a none = false
ends_after none (some b) = true
ends_after (some a) (some b) = ltb b a

unfoldable pub insert_by_end : String × SessionTrack → Sessions → Sessions
insert_by_end a [] = a ∷ []
insert_by_end a (b ∷ bs) =
    let rest = insert_by_end a bs in
    if ends_after a.1.terminal_since b.1.terminal_since then b ∷ rest else a ∷ b ∷ bs

unfoldable pub sort_by_end : Sessions → Sessions
unfolding insert_by_end
sort_by_end [] = []
sort_by_end (a ∷ rest) = insert_by_end a (sort_by_end rest)

abbrev pub is_terminal_entry : String × SessionTrack → Bool
is_terminal_entry e = is_terminal_state e.1.state

abbrev pub ids_of : Sessions → List String
ids_of [] = []
ids_of (e ∷ es) = e.0 ∷ ids_of es

-- Deletes sessions and the runs that belong to them.
unfoldable pub evict : List String → MapperState → MapperState
unfolding has_key
evict ids state = record state {
  known_sessions = keep (λ e. not (has_key e.0 ids)) state.known_sessions;
  known_runs = keep (λ e. not (has_key e.1.session_id ids)) state.known_runs;
}

-- The sessions that are dropped for the cap: the terminal ones that ended first.
unfoldable pub over_cap : Sessions → List String
unfolding sort_by_end
over_cap sessions =
    if ltb mapper_session_cap (length sessions)
    then ids_of (
        take (length sessions - mapper_session_cap) (sort_by_end (keep is_terminal_entry sessions)))
    else []

unfoldable pub evict_stale_sessions : ℕ → MapperState → MapperState
unfolding evict over_cap
evict_stale_sessions now state =
    let fresh = evict (ids_of (keep (λ e. is_stale now e.1) state.known_sessions)) state in
    evict (over_cap fresh.known_sessions) fresh

unfoldable pub infer_session_events :
    String → ℕ → List MappedEvent → MapperState → MapperState × List MappedEvent
unfolding absorb_events settle_sessions evict_stale_sessions
infer_session_events machine_id now run_events state =
    let (absorbed, opened) = absorb_events machine_id run_events state.known_sessions in
    let (settled, closed) = settle_sessions now state.known_runs absorbed in
    (evict_stale_sessions now (record state { known_sessions = settled }), opened ++ closed)
