-- ===== src/Telemetry/Acceptance.antt =====
-- Which inputs the ingestor accepts, and what it leaves behind.
use patze_control.Base.{
  ◌≤◌, Bool, true, false, not, ◌&&◌, Option, none, some, String, List, [], ◌∷◌, ◌==◌, Bool-cases,
  ◌≡◌, ◌↔◌, refl, inl, inr, arith,
}
use Prim.Native.String.{◌++◌ as append_text}
use mathlib.Core.Option.{some-injective}
use patze_control.Value.{Value, is_record, get, has}
use patze_control.Telemetry.Events.{
  TelemetryEventType, machine_registered, type_name, TelemetryEvent, event_type_of, severity_of,
}
use patze_control.Telemetry.Payload.{validate_payload_shape, first_error, payload_tests}
use patze_control.Telemetry.Timestamps.{
  Runtime, utf16_length, contains_newlines, is_blank, normalize_timestamp,
  normalize_payload_timestamps, normalize_trace,
}
use patze_control.Telemetry.Ingestor.{
  TelemetryEventEnvelopeInput, IngestError, IngestErrorCode, invalid_payload, fail_with, ok->>=,
  Result, ok, fail, telemetry_schema_version, max_event_id_length, max_machine_id_length,
  max_payload_json_bytes, is_envelope_input, envelope, names_other_machine, nonempty, check_texts,
  check_payload, check_event, check_input,
}

-- The requirements on the envelope's texts.
pub record HasGoodTexts (input : TelemetryEventEnvelopeInput) : Type 0 where
  pub version_known : (input.version == telemetry_schema_version) ≡ true
  pub id_on_one_line : contains_newlines input.id ≡ false
  pub id_short : utf16_length input.id ≤ max_event_id_length
  pub machine_named : is_blank input.machine_id ≡ false
  pub machine_short : utf16_length input.machine_id ≤ max_machine_id_length
  pub machine_on_one_line : contains_newlines input.machine_id ≡ false

check_texts_iff :
    (input : TelemetryEventEnvelopeInput) → (check_texts input ≡ ok tt) ↔ HasGoodTexts input
unfolding check_texts
check_texts_iff input = (λ e. ground arith, λ h. ground arith)

have_messages : List (Bool × String) → Bool
have_messages [] = true
have_messages ((test, message) ∷ rest) = not (message == "") && have_messages rest

first_error-message :
    (rows : List (Bool × String)) (m : String)
    → have_messages rows ≡ true
    → first_error rows ≡ some m
    → (m == "") ≡ false
unfolding have_messages first_error
first_error-message [] m h e = cc
first_error-message ((true, message) ∷ rest) m h e = first_error-message rest m (ground arith) e
first_error-message ((false, message) ∷ rest) m h e =
    rw (← some-injective message m e) (ground arith)

payload_tests-messages :
    (t : TelemetryEventType) (payload : Value) → have_messages (payload_tests t payload) ≡ true
unfolding have_messages payload_tests
payload_tests-messages machine_registered payload = refl
payload_tests-messages _ payload = refl

not_object-message :
    (t : TelemetryEventType)
    → (append_text "Payload for '" (append_text (type_name t) "' must be an object.") == "") ≡ false
unfolding type_name
not_object-message machine_registered = refl
not_object-message _ = refl

-- Every message of the shape tests is a text that counts as an error.
validate-message :
    (t : TelemetryEventType) (payload : Value) (m : String)
    → validate_payload_shape t payload ≡ some m
    → (m == "") ≡ false
unfolding validate_payload_shape
validate-message t payload m e = elim (Bool-cases (is_record payload)) [
  | inl r ↦
      first_error-message (payload_tests t payload) m (payload_tests-messages t payload) (rw r at e)
  | inr r ↦ rw (← some-injective _ m (rw r at e)) (not_object-message t)
]

fail_with-passes :
    (o : Option String) (c : IngestErrorCode)
    → ((m : String) → o ≡ some m → (m == "") ≡ false)
    → fail_with o c ≡ ok tt
    → o ≡ none
fail_with-passes none c h e = refl
fail_with-passes (some m) c h e = absurd (blocked (rw (h m refl) at e))
  where
    blocked : {x : IngestError} → ¬ (◌≡◌ {A = Result (Unit {0})} (fail x) (ok tt))
    blocked q = cc

-- The requirements on the payload of an event.
pub record HasGoodPayload (runtime : Runtime) (input : TelemetryEventEnvelopeInput)
    (t : TelemetryEventType) : Type 0 where
  pub shape_valid : validate_payload_shape t input.payload ≡ none
  pub machine_agrees :
      (is_record input.payload
        && has "machineId" input.payload
        && names_other_machine (get input.payload "machineId") input.machine_id)
      ≡ false
  pub small : runtime.json_length input.payload ≤ max_payload_json_bytes

module _ (runtime : Runtime) (input : TelemetryEventEnvelopeInput) where
  check_payload_iff :
      (t : TelemetryEventType) (payload : Value)
      → (check_payload runtime input t ≡ ok payload) ↔ (
          HasGoodPayload runtime input t
          × (payload ≡ normalize_payload_timestamps runtime t input.payload))
  unfolding check_payload
  check_payload_iff t payload = (
    λ e.
        let (u, rest, passed) =
          ok->>= (fail_with (validate_payload_shape t input.payload) invalid_payload) _ _ e in
        let valid : validate_payload_shape t input.payload ≡ none =
          fail_with-passes _ invalid_payload (validate-message t input.payload) passed in
        (ground arith, ground arith),
    λ h. rw h.0.shape_valid (ground (arith, h.0.machine_agrees, h.0.small, h.1)),
  )

-- The input is a well-formed envelope, and `event` is its normalised form.
pub record IsAccepted (runtime : Runtime) (value : Value) (event : TelemetryEvent) : Type 0 where
  pub enveloped : is_envelope_input value ≡ true
  pub texts : HasGoodTexts (envelope value)
  pub type_known : event_type_of (envelope value).event_type ≡ some event.event_type
  pub severity_known : severity_of (envelope value).severity ≡ some event.severity
  pub time_read : nonempty (normalize_timestamp runtime (envelope value).ts) ≡ some event.ts
  pub trace_read : normalize_trace (envelope value).trace ≡ some event.trace
  pub payload_good : HasGoodPayload runtime (envelope value) event.event_type
  pub id_kept : event.id ≡ (envelope value).id
  pub machine_kept : event.machine_id ≡ (envelope value).machine_id
  pub payload_normalised :
      event.payload ≡ normalize_payload_timestamps runtime event.event_type (envelope value).payload

check_event-accepts :
    (runtime : Runtime) (value : Value) (event : TelemetryEvent)
    → is_envelope_input value ≡ true
    → HasGoodTexts (envelope value)
    → check_event runtime (envelope value) ≡ ok event
    → IsAccepted runtime value event
unfolding check_event
check_event-accepts runtime value event p q e =
    ground (arith, (check_payload_iff runtime (envelope value) event.event_type event.payload).0)

accepts-check_event :
    (runtime : Runtime) (value : Value) (event : TelemetryEvent)
    → IsAccepted runtime value event
    → check_event runtime (envelope value) ≡ ok event
unfolding check_event
accepts-check_event runtime value event a =
    let payload : check_payload runtime (envelope value) event.event_type ≡ ok event.payload =
      (check_payload_iff runtime (envelope value) event.event_type event.payload).1
        (a.payload_good, a.payload_normalised) in
    ground (arith, a, payload)

-- The ingestor accepts an input exactly when it is an envelope whose texts, type, severity, time,
-- trace and payload meet the tests of its code, and the event is then the normalised envelope. Among
-- these tests there is none that the id is not empty, and a time is all that the runtime reads as one.
pub check_input_iff :
    (runtime : Runtime) (value : Value) (event : TelemetryEvent)
    → (check_input runtime value ≡ ok event) ↔ IsAccepted runtime value event
unfolding check_input
check_input_iff runtime value event = (
  λ e. elim (Bool-cases (is_envelope_input value)) [
    | inl p ↦
        let (u, rest, good) = ok->>= (check_texts (envelope value)) _ _ (rw p at e) in
        check_event-accepts runtime value event p ((check_texts_iff (envelope value)).0 good) rest
    | inr p ↦ absurd (cc (rw p at e))
  ],
  λ a.
      rw (a.enveloped, (check_texts_iff (envelope value)).1 a.texts)
        (accepts-check_event runtime value event a),
)
