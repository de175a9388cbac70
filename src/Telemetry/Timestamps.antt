-- ===== src/Telemetry/Timestamps.antt =====
-- The normalisations of packages/telemetry-core/src/ingestor.ts, and its tests of texts.
use Prim.Native.Char.{code}
use patze_control.Base.{
  ℕ, ◌+◌, Bool, true, false, not, ◌&&◌, ◌||◌, Option, none, some, String, ◌==◌, eqb, leb, ltb,
  if◌then◌else◌,
}
use patze_control.Value.{Value, text, date, object, Fields, is_record, get, has, put_field}
use patze_control.Telemetry.Events.{
  TelemetryEventType, machine_registered, run_log_emitted, run_tool_started, run_model_usage,
  run_resource_usage, trace_span_recorded, TelemetryEventTrace,
}

-- What the language's runtime computes: `new Date(s).getTime()`, with `none` for NaN,
-- `toISOString` of a time value, and the length of `JSON.stringify`.
pub record Runtime : Type 0 where
  pub parse_date : String → Option ℕ
  pub to_iso_string : ℕ → String
  pub json_length : Value → ℕ

-- `s.length`, in UTF-16 code units.
unfoldable pub utf16_length : String → ℕ
utf16_length String.[] = 0
utf16_length (String.◌∷◌ c s) = (if ltb (code c) 0x10000 then 1 else 2) + utf16_length s

-- `s.includes('\n') || s.includes('\r')`.
unfoldable pub contains_newlines : String → Bool
contains_newlines String.[] = false
contains_newlines (String.◌∷◌ c s) =
    let rest = contains_newlines s in eqb (code c) 10 || eqb (code c) 13 || rest

-- The white space and line ends that `trim` removes.
unfoldable pub is_white_space : ℕ → Bool
is_white_space c =
    (leb 9 c && leb c 13)
    || eqb c 32
    || eqb c 0xa0
    || eqb c 0x1680
    || (leb 0x2000 c && leb c 0x200a)
    || eqb c 0x2028
    || eqb c 0x2029
    || eqb c 0x202f
    || eqb c 0x205f
    || eqb c 0x3000
    || eqb c 0xfeff

-- `s.trim().length === 0`.
unfoldable pub is_blank : String → Bool
unfolding is_white_space
is_blank String.[] = true
is_blank (String.◌∷◌ c s) = let rest = is_blank s in is_white_space (code c) && rest

module _ (runtime : Runtime) where
  abbrev iso : Option ℕ → Option String
  iso none = none
  iso (some t) = some (runtime.to_iso_string t)

  unfoldable pub normalize_timestamp : Value → Option String
  normalize_timestamp (text s) = iso (runtime.parse_date s)
  normalize_timestamp (date t) = iso t
  normalize_timestamp _ = none

  -- `normalizeField`: an unreadable time stays as it was sent.
  abbrev pub replace_field : String → Fields → Option String → Fields
  replace_field name fs none = fs
  replace_field name fs (some next) = if next == "" then fs else put_field name (text next) fs

  unfoldable pub normalize_field : String → Fields → Fields
  unfolding normalize_timestamp
  normalize_field name fs =
      if not (has name (object fs))
      then fs
      else replace_field name fs (normalize_timestamp (get (object fs) name))

  unfoldable pub normalize_fields : TelemetryEventType → Fields → Fields
  unfolding normalize_field
  normalize_fields machine_registered fs = normalize_field "registeredAt" fs
  normalize_fields run_log_emitted fs = normalize_field "ts" fs
  normalize_fields run_tool_started fs = normalize_field "startedAt" fs
  normalize_fields run_model_usage fs = normalize_field "measuredAt" fs
  normalize_fields run_resource_usage fs = normalize_field "measuredAt" fs
  normalize_fields trace_span_recorded fs =
      normalize_field "endedAt" (normalize_field "startedAt" fs)
  normalize_fields _ fs = fs

  -- Arrays and dates have none of the fields.
  unfoldable pub normalize_payload_timestamps : TelemetryEventType → Value → Value
  unfolding normalize_fields
  normalize_payload_timestamps event_type (object fs) = object (normalize_fields event_type fs)
  normalize_payload_timestamps event_type payload = payload

-- A text that is not empty, and any other value as nothing.
abbrev pub nonempty_text : Value → Option String
nonempty_text (text s) = if s == "" then none else some s
nonempty_text _ = none

abbrev trace_with : Value → Option String → Option TelemetryEventTrace
trace_with trace none = none
trace_with trace (some trace_id) = some (record {
  trace_id = trace_id;
  span_id = nonempty_text (get trace "spanId");
  parent_span_id = nonempty_text (get trace "parentSpanId");
})

unfoldable pub normalize_trace : Value → Option TelemetryEventTrace
normalize_trace trace =
    if not (is_record trace) then none else trace_with trace (nonempty_text (get trace "traceId"))
