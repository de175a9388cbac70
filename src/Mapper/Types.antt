-- ===== src/Mapper/Types.antt =====
-- The data of the mapper (packages/openclaw-bridge/src/types.ts) and the events that it makes
-- (packages/openclaw-bridge/src/mapper.ts).
use patze_control.Base.{
  ℕ, Bool, true, false, Option, none, some, String, ◌==◌, List, [], ◌∷◌, ◌++◌, eqb, if◌then◌else◌,
}
use patze_control.Telemetry.Events.{TelemetrySeverity}

pub data SessionRunLifecycleState : Type 0 where
  created queued running waiting_tool streaming completed failed cancelled :
      SessionRunLifecycleState

pub data ToolCallStatus : Type 0 where
  call_started call_completed call_failed call_cancelled : ToolCallStatus

-- Numbers are bit patterns, which are only passed on.
pub record DetectedToolCall : Type 0 where
  pub tool_call_id : String
  pub tool_name : String
  pub status : ToolCallStatus
  pub started_at : Option String
  pub duration_ms : Option ℕ
  pub success : Option Bool
  pub error_message : Option String

pub record DetectedModelUsage : Type 0 where
  pub provider : String
  pub model : String
  pub input_tokens : ℕ
  pub output_tokens : ℕ
  pub total_tokens : ℕ
  pub estimated_cost_usd : Option ℕ

pub record DetectedLogEntry : Type 0 where
  pub id : String
  pub level : TelemetrySeverity
  pub message : String
  pub ts : String

-- An absent list is the empty one: the code treats them alike.
pub record DetectedRun : Type 0 where
  pub run_id : String
  pub session_id : String
  pub agent_id : String
  pub state : SessionRunLifecycleState
  pub started_at : Option String
  pub tool_calls : List DetectedToolCall
  pub model_usage : Option DetectedModelUsage
  pub logs : List DetectedLogEntry
  pub error_message : Option String

pub record SessionTrack : Type 0 where
  pub agent_id : String
  pub machine_id : String
  pub state : SessionRunLifecycleState
  pub active_run_ids : List String
  pub terminal_since : Option ℕ

-- Maps and sets are lists in the order of insertion.
pub record MapperState : Type 0 where
  pub known_runs : List (String × DetectedRun)
  pub known_sessions : List (String × SessionTrack)
  pub emitted_tool_call_ids : List String
  pub emitted_log_ids : List String
  pub emitted_model_usage_run_ids : List String

abbrev pub mapper_session_cap : ℕ
mapper_session_cap = 5000

abbrev pub mapper_session_evict_ms : ℕ
mapper_session_evict_ms = 600_000

pub record RunChange : Type 0 where
  pub run_id : String
  pub session_id : String
  pub agent_id : String
  pub from : SessionRunLifecycleState
  pub to : SessionRunLifecycleState
  pub reason : Option String

pub record SessionChange : Type 0 where
  pub session_id : String
  pub agent_id : String
  pub machine_id : String
  pub from : SessionRunLifecycleState
  pub to : SessionRunLifecycleState

-- The payload of an event, with the run that it is about.
pub data MappedPayload : Type 0 where
  run_changed : RunChange → MappedPayload
  session_changed : SessionChange → MappedPayload
  tool_started tool_completed : DetectedRun → DetectedToolCall → MappedPayload
  log_emitted : DetectedRun → DetectedLogEntry → MappedPayload
  model_used : DetectedRun → DetectedModelUsage → MappedPayload

-- An event before it gets its id, its trace and, where the source of the runs gives no time, the
-- present time.
pub record MappedEvent : Type 0 where
  pub ts : Option String
  pub severity : TelemetrySeverity
  pub payload : MappedPayload

unfoldable pub state_code : SessionRunLifecycleState → ℕ
state_code created = 0
state_code queued = 1
state_code running = 2
state_code waiting_tool = 3
state_code streaming = 4
state_code completed = 5
state_code failed = 6
state_code cancelled = 7

-- `===` on states.
unfoldable pub same_state : SessionRunLifecycleState → SessionRunLifecycleState → Bool
unfolding state_code
same_state a b = eqb (state_code a) (state_code b)

abbrev pub is_terminal_state : SessionRunLifecycleState → Bool
is_terminal_state completed = true
is_terminal_state failed = true
is_terminal_state cancelled = true
is_terminal_state _ = false

abbrev pub is_active_state : SessionRunLifecycleState → Bool
is_active_state created = true
is_active_state queued = true
is_active_state running = true
is_active_state waiting_tool = true
is_active_state streaming = true
is_active_state _ = false

abbrev pub initial_from_state : SessionRunLifecycleState → SessionRunLifecycleState
initial_from_state created = queued
initial_from_state _ = created

module _ {ℓ} {V : Type ℓ} where
  -- `Map.get`, `Map.set` and `Map.delete`.
  unfoldable pub lookup : String → List (String × V) → Option V
  lookup k [] = none
  lookup k (e ∷ es) = let rest = lookup k es in if e.0 == k then some e.1 else rest

  unfoldable pub insert : String → V → List (String × V) → List (String × V)
  insert k v [] = (k, v) ∷ []
  insert k v (e ∷ es) = let rest = insert k v es in if e.0 == k then (k, v) ∷ es else e ∷ rest

-- `Set.has`, `Set.add` and `Set.delete`.
unfoldable pub has_key : String → List String → Bool
has_key k [] = false
has_key k (j ∷ js) = let rest = has_key k js in if j == k then true else rest

unfoldable pub add_key : String → List String → List String
unfolding has_key
add_key k ks = if has_key k ks then ks else ks ++ (k ∷ [])

unfoldable pub remove_key : String → List String → List String
remove_key k [] = []
remove_key k (j ∷ js) = let rest = remove_key k js in if j == k then rest else j ∷ rest
