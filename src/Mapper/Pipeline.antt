-- ===== src/Mapper/Pipeline.antt =====
-- From a poll over the sink to the ingestor.
use patze_control.Base.{
  ℕ, suc, ◌≤◌, ◌+◌, ◌++◌, true, length, ap, arith, false, some, or_else, String, ◌==◌, List, [],
  ◌∷◌, keep, not, All, All-append, ◌≡◌, refl, sym, subst,
}
use patze_control.Value.{Value, text, get, has, lookup_field}
use patze_control.Telemetry.Events.{TelemetryEvent}
use patze_control.Telemetry.Timestamps.{
  Runtime, contains_newlines, utf16_length, is_blank, normalize_timestamp,
}
use patze_control.Telemetry.Ingestor.{
  ok, nonempty, max_event_id_length, max_machine_id_length, max_payload_json_bytes, check_input,
}
use patze_control.Value.Json.{is_json, json_value}
use patze_control.Sink.Queue.{HttpSinkAdapter, is_envelope}
use patze_control.Sink.Order.{held}
use patze_control.Sink.Filling.{ingest_each, ingest_each-Fills}
use patze_control.Sink.Spool.{IsEnvelope}
use patze_control.Mapper.Types.{DetectedRun, MapperState, MappedEvent, has_key}
use patze_control.Mapper.Sessions.{
  ids_of, is_stale, absorb_events, settle_sessions, evict, evict_stale_sessions,
  infer_session_events,
}
use patze_control.Mapper.Poll.{map_all_runs, map_run_state_changed_events}
use patze_control.Mapper.Envelope.{Stamp, payload_value, envelope_value}
use patze_control.Mapper.Accepted.{IsOwnPayload, ingested, mapped_event_accepted}
use patze_control.Mapper.Legality.{map_all_runs-AreOfRuns, map_all_runs-known_sessions}
use patze_control.Mapper.Own.{
  AreOwn, AreOwnEvents, keep-AreOwn, absorb_events-AreOwn, settle_sessions-AreOwn,
  runs-AreOwnEvents,
}

evict-AreOwn :
    (machine_id : String) (ids : List String) (state : MapperState)
    → AreOwn machine_id state.known_sessions
    → AreOwn machine_id (evict ids state).known_sessions
unfolding evict
evict-AreOwn machine_id ids state own =
    keep-AreOwn (λ e. not (has_key e.0 ids)) machine_id state.known_sessions own

infer-AreOwn :
    (machine_id : String) (now : ℕ) (events : List MappedEvent) (state : MapperState)
    → AreOwn machine_id state.known_sessions
    → let out = infer_session_events machine_id now events state in
      AreOwn machine_id out.0.known_sessions × AreOwnEvents machine_id out.1
unfolding infer_session_events evict_stale_sessions
infer-AreOwn machine_id now events state own =
    let absorbed = absorb_events machine_id events state.known_sessions in
    let (first, opened) = absorb_events-AreOwn machine_id events state.known_sessions own in
    let settled = settle_sessions now state.known_runs absorbed.0 in
    let (last, closed) = settle_sessions-AreOwn machine_id now state.known_runs absorbed.0 first in
    let after = record state { known_sessions = settled.0 } in
    let stale = ids_of (keep (λ e. is_stale now e.1) settled.0) in
    (
      evict-AreOwn machine_id _ (evict stale after) (evict-AreOwn machine_id stale after last),
      All-append (λ e. IsOwnPayload machine_id e.payload) absorbed.1 settled.1 opened closed,
    )

-- A poll keeps the sessions the mapper's own, and reports only what is its own.
poll-AreOwn :
    (runtime : Runtime) (machine_id : String) (now : ℕ) (runs : List DetectedRun)
    (state : MapperState)
    → AreOwn machine_id state.known_sessions
    → let out = map_run_state_changed_events runtime machine_id now runs state in
      AreOwn machine_id out.0.known_sessions × AreOwnEvents machine_id out.1
unfolding map_run_state_changed_events
poll-AreOwn runtime machine_id now runs state own =
    let mapped = map_all_runs runtime runs state in
    let (after, sessions) =
      infer-AreOwn machine_id now mapped.1 mapped.0
        (subst (AreOwn machine_id) (sym (map_all_runs-known_sessions runtime runs state)) own) in
    (
      after,
      All-append (λ e. IsOwnPayload machine_id e.payload) mapped.1 _
          (runs-AreOwnEvents machine_id mapped.1
            (λ id. map_all_runs-AreOfRuns runtime id runs state))
          sessions,
    )

-- The envelopes of the events, each with its own ids and time.
abbrev pub send : String → (ℕ → Stamp) → ℕ → List MappedEvent → List Value
send machine_id stamps i [] = []
send machine_id stamps i (e ∷ es) =
    envelope_value machine_id (stamps i) e ∷ send machine_id stamps (suc i) es

-- The texts that the bridge supplies are fit for an envelope.
pub record IsFit (machine_id : String) (stamp : Stamp) : Type 0 where
  pub id_given : (stamp.id == "") ≡ false
  pub id_on_one_line : contains_newlines stamp.id ≡ false
  pub id_short : utf16_length stamp.id ≤ max_event_id_length
  pub machine_named : is_blank machine_id ≡ false
  pub machine_short : utf16_length machine_id ≤ max_machine_id_length
  pub machine_on_one_line : contains_newlines machine_id ≡ false
  pub traced : (stamp.trace_id == "") ≡ false

-- The times of the events can be read, their payloads are not too large and their numbers finite.
abbrev pub AreReadable : Runtime → String → (ℕ → Stamp) → ℕ → List MappedEvent → Type 0
AreReadable runtime machine_id stamps i [] = Unit
AreReadable runtime machine_id stamps i (e ∷ es) =
    (((time : String) × (nonempty (normalize_timestamp runtime (text (or_else e.ts (stamps i).now)))
          ≡ some time))
      × (runtime.json_length (payload_value machine_id (stamps i) e.payload)
          ≤ max_payload_json_bytes)
      × (is_json (payload_value machine_id (stamps i) e.payload) ≡ true))
    × AreReadable runtime machine_id stamps (suc i) es

-- The ingestor accepts the value from the JSON of a request.
abbrev pub Arrives : Runtime → Value → Type 0
Arrives runtime value =
    (event : TelemetryEvent) × (check_input runtime (json_value runtime.to_iso_string value)
      ≡ ok event)

-- The sink answers that it has queued each of the values and then holds them behind what it held, and
-- the ingestor accepts each of them.
pub record IsTaken (runtime : Runtime) (now : ℕ) (sink : HttpSinkAdapter) (values : List Value)
    : Type 0 where
  pub answered : All (λ ok. ok ≡ true) (ingest_each now values sink).1
  pub queued : held (ingest_each now values sink).0 ≡ held sink ++ values
  pub arrives : All (Arrives runtime) values

envelope_value-IsEnvelope :
    (machine_id : String) (stamp : Stamp) (event : MappedEvent)
    → IsEnvelope (envelope_value machine_id stamp event)
unfolding envelope_value is_envelope get has lookup_field
envelope_value-IsEnvelope machine_id stamp event = refl

send-Arrives :
    (runtime : Runtime) (machine_id : String) (stamps : ℕ → Stamp) (i : ℕ) (es : List MappedEvent)
    → ((j : ℕ) → IsFit machine_id (stamps j))
    → AreReadable runtime machine_id stamps i es
    → AreOwnEvents machine_id es
    → All IsEnvelope (send machine_id stamps i es)
      × All (Arrives runtime) (send machine_id stamps i es)
send-Arrives runtime machine_id stamps i [] fit readable own = (tt, tt)
send-Arrives runtime machine_id stamps i (e ∷ es) fit (((time, timed), small, writable), readable)
      (this, own) =
    let good = fit i in
    let accepted : check_input runtime
          (json_value runtime.to_iso_string (envelope_value machine_id (stamps i) e))
        ≡ ok (ingested runtime machine_id (stamps i) e time) =
      mapped_event_accepted runtime machine_id (stamps i) e time (record {
        id_given = good.id_given;
        id_on_one_line = good.id_on_one_line;
        id_short = good.id_short;
        machine_named = good.machine_named;
        machine_short = good.machine_short;
        machine_on_one_line = good.machine_on_one_line;
        traced = good.traced;
        timed = timed;
        small = small;
        own = this;
        writable = writable;
      }) in
    let (envelopes, arrivals) =
      send-Arrives runtime machine_id stamps (suc i) es fit readable own in
    ((envelope_value-IsEnvelope machine_id (stamps i) e, envelopes), ((_, accepted), arrivals))

length-send :
    (machine_id : String) (stamps : ℕ → Stamp) (i : ℕ) (es : List MappedEvent)
    → length (send machine_id stamps i es) ≡ length es
length-send machine_id stamps i [] = refl
length-send machine_id stamps i (e ∷ es) = ap suc (length-send machine_id stamps (suc i) es)

-- From machine to server: a sink with room for them queues every event that a poll sends, in order, and
-- the ingestor accepts each from the JSON of its request, where the ids that the bridge supplies are
-- fit for an envelope, the times can be read, the payloads are not too large and hold finite numbers,
-- and the known sessions are the mapper's own, which they remain.
pub poll_events-IsTaken :
    (runtime : Runtime) (machine_id : String) (stamps : ℕ → Stamp) (now : ℕ)
    (runs : List DetectedRun) (state : MapperState) (sink : HttpSinkAdapter)
    → ((j : ℕ) → IsFit machine_id (stamps j))
    → AreOwn machine_id state.known_sessions
    → AreReadable runtime machine_id stamps 0
        (map_run_state_changed_events runtime machine_id now runs state).1
    → length sink.queue + length (map_run_state_changed_events runtime machine_id now runs state).1
      ≤ sink.max_queue_size
    → IsTaken runtime now sink (
        send machine_id stamps 0 (map_run_state_changed_events runtime machine_id now runs state).1)
      × AreOwn machine_id
          (map_run_state_changed_events runtime machine_id now runs state).0.known_sessions
poll_events-IsTaken runtime machine_id stamps now runs state sink fit own readable room =
    let es = (map_run_state_changed_events runtime machine_id now runs state).1 in
    let (after, events) = poll-AreOwn runtime machine_id now runs state own in
    let (envelopes, arrivals) = send-Arrives runtime machine_id stamps 0 es fit readable events in
    let (oks, filled) =
      ingest_each-Fills now (send machine_id stamps 0 es) sink envelopes
        (omega (arith, room, length-send machine_id stamps 0 es)) in
    (record { answered = oks; queued = filled.held_after; arrives = arrivals }, after)
