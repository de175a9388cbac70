-- ===== src/Telemetry/Stored.antt =====
-- What the ingestor's normalisation and freezing make of a payload.
use patze_control.Base.{
  Bool, true, false, Option, none, some, String, ◌==◌, if◌then◌else◌, Bool-cases, ◌≡◌, ◌⊎◌, refl,
  inl, inr, arith,
}
use patze_control.Value.{
  Value, text, object, Fields, get, has, lookup_field, or_undefined, put_field, deep_freeze,
}
use patze_control.Value.Laws.{
  lookup_field-put_field, IsDateFree, put_field-IsDateFree, deep_freeze_same,
}
use patze_control.Telemetry.Events.{
  TelemetryEventType, machine_registered, machine_heartbeat, agent_state_changed,
  session_state_changed, run_state_changed, run_log_emitted, run_tool_started, run_tool_completed,
  run_model_usage, run_resource_usage, trace_span_recorded, TelemetryEvent, clone_and_freeze_event,
}
use patze_control.Telemetry.Payload.{validate_payload_shape}
use patze_control.Telemetry.Timestamps.{
  Runtime, normalize_timestamp, normalize_field, replace_field, normalize_fields,
  normalize_payload_timestamps,
}
use patze_control.Telemetry.Ingestor.{ok, check_input, envelope}
use patze_control.Telemetry.Acceptance.{check_input_iff}

get-put_field :
    (k j : String) (v : Value) (fs : Fields)
    → get (object (put_field k v fs)) j ≡ (if k == j then v else get (object fs) j)
unfolding get
get-put_field k j v fs = rw (lookup_field-put_field k j v fs) (chosen (k == j))
  where
    chosen :
        (b : Bool)
        → or_undefined (if b then some v else lookup_field j fs)
          ≡ (if b then v else or_undefined (lookup_field j fs))
    chosen true = refl
    chosen false = refl

-- A field is left alone, or gets a text.
normalize_field_cases :
    (runtime : Runtime) (name : String) (fs : Fields)
    → (normalize_field runtime name fs ≡ fs)
      ⊎ ((s : String) × (normalize_field runtime name fs ≡ put_field name (text s) fs))
unfolding normalize_field
normalize_field_cases runtime name fs = elim (Bool-cases (has name (object fs))) [
  | inr absent ↦ inl (rw absent refl)
  | inl present ↦ rw present (replaced (normalize_timestamp runtime (get (object fs) name)))
]
  where
    replaced :
        (o : Option String)
        → (replace_field runtime name fs o ≡ fs)
          ⊎ ((s : String) × (replace_field runtime name fs o ≡ put_field name (text s) fs))
    replaced none = inl refl
    replaced (some s) = elim (Bool-cases (s == "")) [
      | inl e ↦ inl (rw e refl)
      | inr e ↦ inr (s, rw e refl)
    ]

-- The fields that the ingestor normalises in a payload of a type.
abbrev IsTimeField : TelemetryEventType → String → Type 0
IsTimeField machine_registered name = name ≡ "registeredAt"
IsTimeField run_log_emitted name = name ≡ "ts"
IsTimeField run_tool_started name = name ≡ "startedAt"
IsTimeField run_model_usage name = name ≡ "measuredAt"
IsTimeField run_resource_usage name = name ≡ "measuredAt"
IsTimeField trace_span_recorded name = (name ≡ "startedAt") ⊎ (name ≡ "endedAt")
IsTimeField _ name = ⊥

abbrev IsValidObject : TelemetryEventType → Fields → Type 0
IsValidObject t fs = validate_payload_shape t (object fs) ≡ none

-- A text in such a field passes the shape tests.
put_field-valid :
    (t : TelemetryEventType) (name s : String) (fs : Fields)
    → IsTimeField t name
    → IsValidObject t fs
    → IsValidObject t (put_field name (text s) fs)
unfolding validate_payload_shape
put_field-valid machine_registered name s fs n h = rw n (simp get-put_field (ground arith))
put_field-valid run_log_emitted name s fs n h = rw n (simp get-put_field (ground arith))
put_field-valid run_tool_started name s fs n h = rw n (simp get-put_field (ground arith))
put_field-valid run_model_usage name s fs n h = rw n (simp get-put_field (ground arith))
put_field-valid run_resource_usage name s fs n h = rw n (simp get-put_field (ground arith))
put_field-valid trace_span_recorded name s fs (inl n) h = rw n (simp get-put_field (ground arith))
put_field-valid trace_span_recorded name s fs (inr n) h = rw n (simp get-put_field (ground arith))
put_field-valid machine_heartbeat name s fs n h = absurd n
put_field-valid agent_state_changed name s fs n h = absurd n
put_field-valid session_state_changed name s fs n h = absurd n
put_field-valid run_state_changed name s fs n h = absurd n
put_field-valid run_tool_completed name s fs n h = absurd n

-- A property of objects that a text in a time field keeps is kept by the normalisation.
normalize_fields-keeps :
    (P : Fields → Type 0) (runtime : Runtime) (t : TelemetryEventType)
    → ((name s : String) (fs : Fields) → IsTimeField t name → P fs → P (put_field name (text s) fs))
    → (fs : Fields) → P fs
    → P (normalize_fields runtime t fs)
unfolding normalize_fields
normalize_fields-keeps P runtime t keeps fs h = by_type t keeps
  where
    one :
        (t : TelemetryEventType) (name : String) (fs : Fields)
        → ((name s : String) (fs : Fields)
            → IsTimeField t name
            → P fs
            → P (put_field name (text s) fs))
        → IsTimeField t name
        → P fs
        → P (normalize_field runtime name fs)
    one t name fs k n h = elim (normalize_field_cases runtime name fs) [
      | inl e ↦ rw e h
      | inr (s, e) ↦ rw e (k name s fs n h)
    ]

    by_type :
        (t : TelemetryEventType)
        → ((name s : String) (fs : Fields)
            → IsTimeField t name
            → P fs
            → P (put_field name (text s) fs))
        → P (normalize_fields runtime t fs)
    by_type machine_registered k = one machine_registered _ fs k refl h
    by_type run_log_emitted k = one run_log_emitted _ fs k refl h
    by_type run_tool_started k = one run_tool_started _ fs k refl h
    by_type run_model_usage k = one run_model_usage _ fs k refl h
    by_type run_resource_usage k = one run_resource_usage _ fs k refl h
    by_type trace_span_recorded k =
        one trace_span_recorded "endedAt" _ k (inr refl)
          (one trace_span_recorded "startedAt" fs k (inl refl) h)
    by_type _ k = h

-- An accepted payload without `Date` objects, such as parsed JSON, is stored as it was normalised,
-- and what is stored passes the shape tests of its type again.
pub stored_payload_valid :
    (runtime : Runtime) (value : Value) (fs : Fields) (event : TelemetryEvent)
    → check_input runtime value ≡ ok event
    → (envelope value).payload ≡ object fs
    → IsDateFree (object fs)
    → let stored = clone_and_freeze_event event in
      (stored.payload ≡ object (normalize_fields runtime event.event_type fs))
      × (validate_payload_shape event.event_type stored.payload ≡ none)
unfolding clone_and_freeze_event normalize_payload_timestamps
stored_payload_valid runtime value fs event e p d =
    let a = (check_input_iff runtime value event).0 e in
    let t = event.event_type in
    let normal : event.payload ≡ object (normalize_fields runtime t fs) =
      rw p at a.payload_normalised in
    let free : IsDateFree (object (normalize_fields runtime t fs)) =
      normalize_fields-keeps (λ gs. IsDateFree (object gs)) runtime t
        (λ name s gs n h. put_field-IsDateFree name s gs h) fs d in
    let valid : IsValidObject t (normalize_fields runtime t fs) =
      normalize_fields-keeps (IsValidObject t) runtime t (put_field-valid t) fs
        (rw p at a.payload_good.shape_valid) in
    let stored : deep_freeze event.payload ≡ object (normalize_fields runtime t fs) =
      rw normal (deep_freeze_same _ free) in
    (stored, rw stored valid)
