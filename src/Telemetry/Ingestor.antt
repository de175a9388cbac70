-- ===== src/Telemetry/Ingestor.antt =====
-- `DefaultTelemetryIngestor` of packages/telemetry-core/src/ingestor.ts.
use Prim.Native.String.{◌++◌ as append_text}
use patze_control.Base.{
  ℕ, ◌*◌, Bool, true, false, not, ◌&&◌, Option, none, some, String, List, [], ◌∷◌, ◌==◌, ltb,
  if◌then◌else◌, ◌≡◌, refl,
}
use patze_control.Value.{Value, text, is_record, is_string, get, has}
use patze_control.Telemetry.Events.{TelemetryEventType, TelemetryEvent, event_type_of, severity_of}
use patze_control.Telemetry.EventStore.{EventStore, append}
use patze_control.Telemetry.Payload.{validate_payload_shape}
use patze_control.Telemetry.Timestamps.{
  Runtime, utf16_length, contains_newlines, is_blank, normalize_timestamp,
  normalize_payload_timestamps, normalize_trace,
}

abbrev pub telemetry_schema_version : String
telemetry_schema_version = "telemetry.v1"

abbrev pub max_event_id_length : ℕ
max_event_id_length = 256

abbrev pub max_machine_id_length : ℕ
max_machine_id_length = 256

abbrev pub max_payload_json_bytes : ℕ
max_payload_json_bytes = 512 * 1024

pub data IngestErrorCode : Type 0 where
  invalid_envelope invalid_payload invalid_schema_version invalid_event_type : IngestErrorCode
  missing_machine_id invalid_timestamp invalid_severity invalid_trace : IngestErrorCode

pub record IngestError : Type 0 where
  pub code : IngestErrorCode
  pub message : String

-- `IngestResult`: what was asked for, or an error.
pub data Result {ℓ} (S : Type ℓ) : Type ℓ where
  ok : S → Result S
  fail : IngestError → Result S

-- What follows an early return: nothing once a test has failed.
abbrev pub ◌>>=◌ {ℓ κ} : {S : Type ℓ} {T : Type κ} → Result S → (S → Result T) → Result T
checked >>= later = elim checked [ fail error ↦ fail error | ok value ↦ later value ]

abbrev pub ◌>>◌ {κ} : {T : Type κ} → Result (Unit {0}) → Result T → Result T
checked >> later = elim checked [ fail error ↦ fail error | ok value ↦ later ]

infixl 5 ◌>>◌ ◌>>=◌
-- Where a chain of tests succeeds, its first test has.
pub ok->>= {ℓ κ} :
    {S : Type ℓ} {T : Type κ} (checked : Result S) (later : S → Result T) (t : T)
    → (checked >>= later) ≡ ok t
    → (s : S) × (later s ≡ ok t) × (checked ≡ ok s)
ok->>= (fail error) later t e = cc
ok->>= (ok value) later t e = (value, e, refl)

abbrev pub to_failure {ℓ} : {A : Type ℓ} → IngestErrorCode → String → Result A
to_failure c m = fail (record { code = c; message = m })

-- `if (test) return toFailure(…)`.
abbrev pub fail_if : Bool → IngestErrorCode → String → Result (Unit {0})
fail_if true c m = to_failure c m
fail_if false c m = ok tt

abbrev pub require {ℓ} : {A : Type ℓ} → Option A → IngestErrorCode → String → Result A
require none c m = to_failure c m
require (some a) c m = ok a

abbrev pub fail_with : Option String → IngestErrorCode → Result (Unit {0})
fail_with none c = ok tt
fail_with (some m) c = if m == "" then ok tt else to_failure c m

pub record TelemetryEventEnvelopeInput : Type 0 where
  pub version : String
  pub id : String
  pub ts : Value
  pub machine_id : String
  pub severity : String
  pub event_type : String
  pub payload : Value
  pub trace : Value

abbrev text_of : Value → String
text_of (text s) = s
text_of _ = ""

unfoldable pub is_envelope_input : Value → Bool
is_envelope_input value =
    is_record value
    && is_string (get value "version")
    && is_string (get value "id")
    && is_string (get value "machineId")
    && is_string (get value "severity")
    && is_string (get value "type")
    && has "payload" value
    && has "trace" value
    && has "ts" value

-- The value seen as an envelope, once the test has passed.
unfoldable pub envelope : Value → TelemetryEventEnvelopeInput
envelope value = record {
  version = text_of (get value "version");
  id = text_of (get value "id");
  ts = get value "ts";
  machine_id = text_of (get value "machineId");
  severity = text_of (get value "severity");
  event_type = text_of (get value "type");
  payload = get value "payload";
  trace = get value "trace";
}

-- The payload names another machine than the envelope.
abbrev pub names_other_machine : Value → String → Bool
names_other_machine (text s) machine_id = not (s == machine_id)
names_other_machine _ machine_id = false

abbrev pub nonempty : Option String → Option String
nonempty none = none
nonempty (some s) = if s == "" then none else some s

-- The tests of `ingest` on the envelope's texts, in order.
unfoldable pub check_texts : TelemetryEventEnvelopeInput → Result (Unit {0})
check_texts input = do
  fail_if (not (input.version == telemetry_schema_version)) invalid_schema_version
      (append_text "Unsupported telemetry schema version: " (append_text input.version "."))
  fail_if (contains_newlines input.id) invalid_envelope
      "Event id must not contain newline characters."
  fail_if (ltb max_event_id_length (utf16_length input.id)) invalid_envelope
      "Event id exceeds maximum length of 256."
  fail_if (is_blank input.machine_id) missing_machine_id "machineId is required."
  fail_if (ltb max_machine_id_length (utf16_length input.machine_id)) invalid_envelope
      "machineId exceeds maximum length of 256."
  fail_if (contains_newlines input.machine_id) invalid_envelope
      "machineId must not contain newline characters."

module _ (runtime : Runtime) where
  -- The tests of the payload, and its normalised form.
  unfoldable pub check_payload : TelemetryEventEnvelopeInput → TelemetryEventType → Result Value
  check_payload input event_type = do
    fail_with (validate_payload_shape event_type input.payload) invalid_payload
    fail_if
        (is_record input.payload
          && has "machineId" input.payload
          && names_other_machine (get input.payload "machineId") input.machine_id)
        invalid_envelope
        "Envelope machineId must match payload machineId when payload includes machineId."
    fail_if (ltb max_payload_json_bytes (runtime.json_length input.payload)) invalid_envelope
        "Payload exceeds maximum allowed size."
    ok (normalize_payload_timestamps runtime event_type input.payload)

  -- The tests of `ingest` that read a name, a time or the trace, and the event that it appends.
  unfoldable pub check_event : TelemetryEventEnvelopeInput → Result TelemetryEvent
  check_event input = do
    event_type ←
        require (event_type_of input.event_type) invalid_event_type
          (append_text "Unsupported telemetry event type: " (append_text input.event_type "."))
    severity ←
        require (severity_of input.severity) invalid_severity
          (append_text "Unsupported severity: " (append_text input.severity "."))
    ts ←
        require (nonempty (normalize_timestamp runtime input.ts)) invalid_timestamp
          "Envelope timestamp must be a valid ISO-8601 UTC value."
    trace ← require (normalize_trace input.trace) invalid_trace "trace.traceId is required."
    payload ← check_payload input event_type
    ok (record {
      id = input.id;
      ts = ts;
      machine_id = input.machine_id;
      severity = severity;
      event_type = event_type;
      payload = payload;
      trace = trace;
    })

  -- All of `ingest` up to the append.
  unfoldable pub check_input : Value → Result TelemetryEvent
  check_input value = do
    fail_if (not (is_envelope_input value)) invalid_envelope "Invalid telemetry envelope structure."
    check_texts (envelope value)
    check_event (envelope value)

-- The batch's result is its `accepted` and `rejected` lists.
abbrev pub sort_result :
    Result TelemetryEvent
    → List TelemetryEvent × List IngestError
    → List TelemetryEvent × List IngestError
sort_result (ok event) (accepted, rejected) = (event ∷ accepted, rejected)
sort_result (fail e) (accepted, rejected) = (accepted, e ∷ rejected)

module _ {ℓ} {W : Type ℓ} (runtime : Runtime) where
  abbrev pub store_checked :
      EventStore W → W → Result TelemetryEvent → EventStore W × W × Result TelemetryEvent
  store_checked store w (fail e) = (store, w, fail e)
  store_checked store w (ok event) =
      let (store', w', stored) = append event store w in (store', w', ok stored)

  unfoldable pub ingest : EventStore W → W → Value → EventStore W × W × Result TelemetryEvent
  ingest store w value = store_checked store w (check_input runtime value)

  unfoldable pub ingest_many :
      EventStore W → W → List Value → EventStore W × W × (List TelemetryEvent × List IngestError)
  ingest_many store w [] = (store, w, ([], []))
  ingest_many store w (value ∷ values) =
      let (store', w', result) = ingest store w value in
      let (store'', w'', sorted) = ingest_many store' w' values in
      (store'', w'', sort_result result sorted)
