-- ===== src/Mapper/Own.antt =====
-- Every event of a poll is of the mapper's machine.
use patze_control.Base.{
  ℕ, Bool, none, some, String, ◌==◌, eq_iff, List, [], ◌∷◌, keep, All, All-append, Bool-cases,
  Option-cases, ◌≡◌, refl, ◌∙◌, inl, inr, arith,
}
use patze_control.Mapper.Types.{
  DetectedRun, RunChange, SessionTrack, MappedEvent, run_changed, session_changed,
  is_terminal_state, lookup, insert,
}
use patze_control.Mapper.Sessions.{
  Sessions, mark, new_track, absorb_change, absorb_event, absorb_events, settle_sessions,
  to_session_state_changed_event,
}
use patze_control.Mapper.Inferred.{session_change_of}
use patze_control.Mapper.Settling.{settle_session_cases}
use patze_control.Mapper.Apart.{AreOfRuns}
use patze_control.Mapper.Accepted.{IsOwnPayload}

-- The sessions belong to the machine.
abbrev pub AreOwn : String → Sessions → Type 0
AreOwn machine_id sessions = All (λ e. e.1.machine_id ≡ machine_id) sessions

abbrev pub AreOwnEvents : String → List MappedEvent → Type 0
AreOwnEvents machine_id es = All (λ e. IsOwnPayload machine_id e.payload) es

lookup-AreOwn :
    (machine_id k : String) (sessions : Sessions) (track : SessionTrack)
    → AreOwn machine_id sessions
    → lookup k sessions ≡ some track
    → track.machine_id ≡ machine_id
unfolding lookup
lookup-AreOwn machine_id k [] track own e = cc
lookup-AreOwn machine_id k ((j, t) ∷ es) track (this, own) e = elim (Bool-cases (j == k)) [
  | inl here ↦ ground (arith, this)
  | inr later ↦ lookup-AreOwn machine_id k es track own (rw (lookup, later) at e)
]

insert-AreOwn :
    (machine_id k : String) (track : SessionTrack) (sessions : Sessions)
    → AreOwn machine_id sessions
    → track.machine_id ≡ machine_id
    → AreOwn machine_id (insert k track sessions)
unfolding insert
insert-AreOwn machine_id k track [] own this = (this, tt)
insert-AreOwn machine_id k track ((j, t) ∷ es) (first, own) this = elim (Bool-cases (j == k)) [
  | inl here ↦ rw (insert, here) (this, own)
  | inr later ↦ rw (insert, later) (first, insert-AreOwn machine_id k track es own this)
]

pub keep-AreOwn :
    (p : String × SessionTrack → Bool) (machine_id : String) (sessions : Sessions)
    → AreOwn machine_id sessions
    → AreOwn machine_id (keep p sessions)
keep-AreOwn p machine_id [] own = tt
keep-AreOwn p machine_id (e ∷ es) (this, own) = elim (Bool-cases (p e)) [
  | inl kept ↦ rw kept (this, keep-AreOwn p machine_id es own)
  | inr dropped ↦ rw dropped (keep-AreOwn p machine_id es own)
]

mark-machine :
    (change : RunChange) (track : SessionTrack) → (mark change track).machine_id ≡ track.machine_id
unfolding mark
mark-machine change track = refl

absorb_change-AreOwn :
    (machine_id : String) (change : RunChange) (sessions : Sessions)
    → AreOwn machine_id sessions
    → let out = absorb_change machine_id change sessions in
      AreOwn machine_id out.0 × AreOwnEvents machine_id out.1
unfolding absorb_change to_session_state_changed_event
absorb_change-AreOwn machine_id change sessions own =
    elim (Option-cases (lookup change.session_id sessions)) [
      | inl new ↦
          rw (absorb_change, new)
            (
              insert-AreOwn machine_id change.session_id (mark change (new_track machine_id change))
                  sessions own (mark-machine change (new_track machine_id change)),
              (refl, tt),
            )
      | inr (track, old) ↦ elim (Bool-cases (is_terminal_state track.state)) [
        | inl over ↦ rw (absorb_change, old, over) (own, tt)
        | inr going ↦
            rw (absorb_change, old, going)
              (
                insert-AreOwn machine_id change.session_id (mark change track) sessions own (
                    mark-machine change track
                    ∙ lookup-AreOwn machine_id change.session_id sessions track own old),
                tt,
              )
      ]
    ]

absorb_event-AreOwn :
    (machine_id : String) (event : MappedEvent) (sessions : Sessions)
    → AreOwn machine_id sessions
    → let out = absorb_event machine_id event sessions in
      AreOwn machine_id out.0 × AreOwnEvents machine_id out.1
absorb_event-AreOwn machine_id event sessions own =
    elim event.payload
      as (λ p.
        AreOwn machine_id (absorb_event machine_id (record event { payload = p }) sessions).0
        × AreOwnEvents machine_id
            (absorb_event machine_id (record event { payload = p }) sessions).1) [
              | run_changed change ↦ absorb_change-AreOwn machine_id change sessions own
              | _ ↦ (own, tt)
            ]

pub absorb_events-AreOwn :
    (machine_id : String) (events : List MappedEvent) (sessions : Sessions)
    → AreOwn machine_id sessions
    → let out = absorb_events machine_id events sessions in
      AreOwn machine_id out.0 × AreOwnEvents machine_id out.1
unfolding absorb_events
absorb_events-AreOwn machine_id [] sessions own = (own, tt)
absorb_events-AreOwn machine_id (event ∷ events) sessions own =
    let (first, told) = absorb_event-AreOwn machine_id event sessions own in
    let (last, rest) =
      absorb_events-AreOwn machine_id events (absorb_event machine_id event sessions).0 first in
    (last, All-append (λ e. IsOwnPayload machine_id e.payload) _ _ told rest)

pub settle_sessions-AreOwn :
    (machine_id : String) (now : ℕ) (known : List (String × DetectedRun)) (sessions : Sessions)
    → AreOwn machine_id sessions
    → let out = settle_sessions now known sessions in
      AreOwn machine_id out.0 × AreOwnEvents machine_id out.1
unfolding settle_sessions to_session_state_changed_event
settle_sessions-AreOwn machine_id now known [] own = (tt, tt)
settle_sessions-AreOwn machine_id now known ((k, track) ∷ es) (this, own) =
    let (later, rest) = settle_sessions-AreOwn machine_id now known es own in
    elim (settle_session_cases now known k track) [
      | inl q ↦ rw q ((this, later), rest)
      | inr (active, q) ↦ rw q ((this, later), (this, rest))
    ]

own_payload :
    (machine_id : String) (event : MappedEvent)
    → ((id : String) → session_change_of id event ≡ none)
    → IsOwnPayload machine_id event.payload
own_payload machine_id event quiet =
    (elim event.payload
        as (λ p.
          ((id : String) → session_change_of id (record event { payload = p }) ≡ none)
          → IsOwnPayload machine_id p) [
            | session_changed change ↦ λ h.
                let none_found = h change.session_id in
                absurd (cc (rw ((eq_iff change.session_id change.session_id).1 refl) at none_found))
            | _ ↦ λ h. tt
          ])
      quiet

pub runs-AreOwnEvents :
    (machine_id : String) (events : List MappedEvent)
    → ((id : String) → AreOfRuns id events)
    → AreOwnEvents machine_id events
runs-AreOwnEvents machine_id [] quiet = tt
runs-AreOwnEvents machine_id (e ∷ es) quiet = (
  own_payload machine_id e (λ id. (quiet id).0),
  runs-AreOwnEvents machine_id es (λ id. (quiet id).1),
)
