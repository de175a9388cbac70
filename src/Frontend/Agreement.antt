-- ===== src/Frontend/Agreement.antt =====
-- The reducer of the user interface and the server's projections show the same sessions and runs.
use patze_control.Base.{true, Option, none, some, String, ◌≡◌, refl, arith}
use patze_control.Value.{Value, text, is_string, get}
use patze_control.Telemetry.Events.{session_state_changed, run_state_changed, TelemetryEvent}
use patze_control.Telemetry.Payload.{
  first_error, payload_tests, session_state_tests, run_state_tests, validate_payload_shape,
}
use patze_control.Telemetry.Projections.{
  SessionProjection, RunProjection, ProjectionState, session_after, run_after, session_created_at,
  run_created_at,
}
use patze_control.Frontend.Types.{
  FrontendRuntime, FrontendSessionSnapshot, FrontendRunSnapshot, SnapshotCollections,
}
use patze_control.Frontend.Entries.{
  string_of, session_created, run_created, session_upserted, run_upserted,
}
use patze_control.Frontend.Mirror.{Mirrors, OptionAgrees}

-- The same session in both.
pub record SessionAgrees (p : SessionProjection) (s : FrontendSessionSnapshot) : Type 0 where
  pub id : p.id ≡ text s.session_id
  pub machine_id : p.machine_id ≡ text s.machine_id
  pub agent_id : p.agent_id ≡ s.agent_id
  pub state : p.state ≡ s.state
  pub created_at : p.created_at ≡ s.created_at
  pub updated_at : p.updated_at ≡ s.updated_at
  pub ended_at : p.ended_at ≡ s.ended_at
  pub last_event_id : p.last_event_id ≡ s.last_event_id

-- The same run in both.
pub record RunAgrees (p : RunProjection) (r : FrontendRunSnapshot) : Type 0 where
  pub id : p.id ≡ text r.run_id
  pub session_id : p.session_id ≡ text r.session_id
  pub machine_id : p.machine_id ≡ r.machine_id
  pub agent_id : p.agent_id ≡ r.agent_id
  pub state : p.state ≡ r.state
  pub created_at : p.created_at ≡ r.created_at
  pub updated_at : p.updated_at ≡ r.updated_at
  pub ended_at : p.ended_at ≡ r.ended_at
  pub failure_reason : p.failure_reason ≡ r.failure_reason
  pub last_event_id : p.last_event_id ≡ r.last_event_id

-- The same sessions and runs in both, in the same order.
abbrev pub Agree : ProjectionState → SnapshotCollections → Type 0
Agree state c =
    Mirrors SessionAgrees state.sessions c.sessions × Mirrors RunAgrees state.runs c.runs

abbrev pub IsValid : TelemetryEvent → Type 0
IsValid event = validate_payload_shape event.event_type event.payload ≡ none

pub text_of : (v : Value) → is_string v ≡ true → (s : String) × (v ≡ text s)
text_of (text s) e = (s, refl)
text_of Value.undefined e = cc
text_of v e = cc

pub session_texts :
    (payload : Value)
    → validate_payload_shape session_state_changed payload ≡ none
    → (is_string (get payload "sessionId") ≡ true) × (is_string (get payload "machineId") ≡ true)
unfolding validate_payload_shape first_error payload_tests session_state_tests
session_texts payload v = ground arith

pub run_texts :
    (payload : Value)
    → validate_payload_shape run_state_changed payload ≡ none
    → (is_string (get payload "runId") ≡ true) × (is_string (get payload "sessionId") ≡ true)
unfolding validate_payload_shape first_error payload_tests run_state_tests
run_texts payload v = ground arith

created_agrees :
    (p : Option SessionProjection) (s : Option FrontendSessionSnapshot) (ts : String)
    → OptionAgrees SessionAgrees p s
    → session_created_at p ts ≡ session_created s ts
created_agrees none none ts o = refl
created_agrees none (some s) ts o = absurd o
created_agrees (some p) none ts o = absurd o
created_agrees (some p) (some s) ts o = o.created_at

run_created_agrees :
    (p : Option RunProjection) (r : Option FrontendRunSnapshot) (ts : String)
    → OptionAgrees RunAgrees p r
    → run_created_at p ts ≡ run_created r ts
run_created_agrees none none ts o = refl
run_created_agrees none (some r) ts o = absurd o
run_created_agrees (some p) none ts o = absurd o
run_created_agrees (some p) (some r) ts o = o.created_at

string_of-text :
    (runtime : FrontendRuntime) (v : Value) (s : String)
    → v ≡ text s
    → v ≡ text (string_of runtime v)
string_of-text runtime v s e = rw e refl

pub session_after-SessionAgrees :
    (runtime : FrontendRuntime) (p : Option SessionProjection) (s : Option FrontendSessionSnapshot)
    (event : TelemetryEvent)
    → OptionAgrees SessionAgrees p s
    → validate_payload_shape session_state_changed event.payload ≡ none
    → SessionAgrees (session_after p event) (session_upserted runtime s event)
unfolding session_after session_upserted
session_after-SessionAgrees runtime p s event o v =
    let (a, b) = session_texts event.payload v in
    let (sid, sid_text) = text_of (get event.payload "sessionId") a in
    let (mid, mid_text) = text_of (get event.payload "machineId") b in
    record {
      id = string_of-text runtime (get event.payload "sessionId") sid sid_text;
      machine_id = string_of-text runtime (get event.payload "machineId") mid mid_text;
      agent_id = refl;
      state = refl;
      created_at = created_agrees p s event.ts o;
      updated_at = refl;
      ended_at = refl;
      last_event_id = refl;
    }

pub run_after-RunAgrees :
    (runtime : FrontendRuntime) (p : Option RunProjection) (r : Option FrontendRunSnapshot)
    (event : TelemetryEvent)
    → OptionAgrees RunAgrees p r
    → validate_payload_shape run_state_changed event.payload ≡ none
    → RunAgrees (run_after p event) (run_upserted runtime r event)
unfolding run_after run_upserted
run_after-RunAgrees runtime p r event o v =
    let (a, b) = run_texts event.payload v in
    let (rid, rid_text) = text_of (get event.payload "runId") a in
    let (sid, sid_text) = text_of (get event.payload "sessionId") b in
    record {
      id = string_of-text runtime (get event.payload "runId") rid rid_text;
      session_id = string_of-text runtime (get event.payload "sessionId") sid sid_text;
      machine_id = refl;
      agent_id = refl;
      state = refl;
      created_at = run_created_agrees p r event.ts o;
      updated_at = refl;
      ended_at = refl;
      failure_reason = refl;
      last_event_id = refl;
    }
