-- ===== src/Telemetry/Reduction.antt =====
-- Reducing an event that the ingestor has stored never throws.
use patze_control.Base.{true, none, some, Option-cases, ◌≡◌, ◌≢◌, refl, ◌∙◌, inl, inr, arith}
use patze_control.Value.{Value, undefined, object, is_record, get, deep_freeze}
use patze_control.Value.Laws.{get-deep_freeze, is_record-deep_freeze, is_record→not_nullish}
use patze_control.Telemetry.Events.{
  TelemetryEventType, machine_registered, machine_heartbeat, TelemetryEvent, clone_and_freeze_event,
}
use patze_control.Telemetry.Payload.{validate_payload_shape}
use patze_control.Telemetry.Timestamps.{Runtime, normalize_payload_timestamps}
use patze_control.Telemetry.Ingestor.{ok, check_input}
use patze_control.Telemetry.Acceptance.{check_input_iff}
use patze_control.Telemetry.Projections.{ProjectionState, reduce_event}

-- The reads of the reducers find objects.
abbrev pub IsReadable : TelemetryEventType → Value → Type 0
IsReadable machine_heartbeat payload =
    (is_record payload ≡ true) × (is_record (get payload "resource") ≡ true)
IsReadable _ payload = is_record payload ≡ true

pub validate-IsReadable :
    (t : TelemetryEventType) (payload : Value)
    → validate_payload_shape t payload ≡ none
    → IsReadable t payload
unfolding validate_payload_shape
validate-IsReadable machine_heartbeat payload e = ground arith
validate-IsReadable machine_registered payload e = ground arith
validate-IsReadable _ payload e = ground arith

normalize-IsReadable :
    (runtime : Runtime) (t : TelemetryEventType) (payload : Value)
    → IsReadable t payload
    → IsReadable t (normalize_payload_timestamps runtime t payload)
unfolding normalize_payload_timestamps
normalize-IsReadable runtime machine_heartbeat (object fs) h = h
normalize-IsReadable runtime machine_registered (object fs) h = refl
normalize-IsReadable runtime t (object fs) h = ground arith
normalize-IsReadable runtime t undefined h = h
normalize-IsReadable runtime t payload h = h

freeze-IsReadable :
    (t : TelemetryEventType) (payload : Value)
    → IsReadable t payload
    → IsReadable t (deep_freeze payload)
freeze-IsReadable machine_heartbeat payload h = (
  is_record-deep_freeze payload ∙ h.0,
  rw (get-deep_freeze payload "resource") (is_record-deep_freeze _ ∙ h.1),
)
freeze-IsReadable machine_registered payload h = is_record-deep_freeze payload ∙ h
freeze-IsReadable _ payload h = is_record-deep_freeze payload ∙ h

pub reduce-ne-none :
    (state : ProjectionState) (event : TelemetryEvent)
    → IsReadable event.event_type event.payload
    → reduce_event state event ≢ none
unfolding reduce_event
reduce-ne-none state event h = ground (
  arith,
  is_record→not_nullish event.payload,
  is_record→not_nullish (get event.payload "resource"),
)

accepted-IsReadable :
    (runtime : Runtime) (value : Value) (event : TelemetryEvent)
    → check_input runtime value ≡ ok event
    → IsReadable event.event_type (clone_and_freeze_event event).payload
unfolding clone_and_freeze_event
accepted-IsReadable runtime value event e =
    let a = (check_input_iff runtime value event).0 e in
    freeze-IsReadable event.event_type event.payload (
      rw a.payload_normalised (
        normalize-IsReadable runtime event.event_type _
          (validate-IsReadable event.event_type _ a.payload_good.shape_valid)))

-- The projections can reduce every event that the ingestor stores, whatever their state: no read
-- throws.
pub reduce_accepted :
    (runtime : Runtime) (value : Value) (event : TelemetryEvent) (state : ProjectionState)
    → check_input runtime value ≡ ok event
    → (state' : ProjectionState) × (reduce_event state (clone_and_freeze_event event) ≡ some state')
reduce_accepted runtime value event state e =
    elim (Option-cases (reduce_event state (clone_and_freeze_event event))) [
      | inl q ↦ absurd (reduce-ne-none state _ (readable e) q)
      | inr found ↦ found
    ]
  where
    readable :
        check_input runtime value ≡ ok event
        → IsReadable
            (clone_and_freeze_event event).event_type
            (clone_and_freeze_event event).payload
    readable q = unfold clone_and_freeze_event in accepted-IsReadable runtime value event q
