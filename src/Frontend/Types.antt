-- ===== src/Frontend/Types.antt =====
-- The snapshots of packages/telemetry-core/src/frontend-snapshot.ts, as the reducer's collections.
use patze_control.Base.{ℕ, Option, String, List}
use patze_control.Telemetry.Events.{TelemetryEventType}
use patze_control.Value.{Value}
use patze_control.Telemetry.Projections.{MachineResourceSnapshot}

pub record FrontendMachineSnapshot : Type 0 where
  pub machine_id : String
  pub name : Option Value
  pub kind : Option Value
  pub status : Value
  pub last_seen_at : String
  pub last_event_id : String
  pub last_resource : Option MachineResourceSnapshot

pub record FrontendSessionSnapshot : Type 0 where
  pub session_id : String
  pub machine_id : String
  pub agent_id : Value
  pub state : Value
  pub created_at : String
  pub updated_at : String
  pub ended_at : Option String
  pub last_event_id : String

pub record FrontendRunSnapshot : Type 0 where
  pub run_id : String
  pub session_id : String
  pub machine_id : String
  pub agent_id : Value
  pub state : Value
  pub created_at : String
  pub updated_at : String
  pub ended_at : Option String
  pub failure_reason : Option Value
  pub last_event_id : String

pub data ToolStatus : Type 0 where
  tool_started tool_completed tool_failed tool_cancelled : ToolStatus

pub record FrontendToolCallSnapshot : Type 0 where
  pub tool_call_id : String
  pub tool_name : Value
  pub status : ToolStatus
  pub started_at : Value
  pub duration_ms : Option Value
  pub success : Option Value
  pub error_message : Option Value

-- `String(value)` of a value that is no text, `new Date(value).getTime()`, `toISOString`, the sum of two
-- numbers, the sort of tool calls by `localeCompare` of their starts, which may throw where a start is
-- no text, and `slice(0, n)`.
pub record FrontendRuntime : Type 0 where
  pub show : Value → String
  pub parse_date : Value → Option ℕ
  pub to_iso_string : ℕ → String
  pub add : Value → Value → Value
  pub sort_by_start : List FrontendToolCallSnapshot → Option (List FrontendToolCallSnapshot)
  pub first_units : ℕ → String → String

pub record FrontendModelUsageSnapshot : Type 0 where
  pub provider : Value
  pub model : Value
  pub input_tokens : Value
  pub output_tokens : Value
  pub total_tokens : Value
  pub estimated_cost_usd : Option Value

pub record MutableRunDetail : Type 0 where
  pub run_id : String
  pub tool_calls : List (String × FrontendToolCallSnapshot)
  pub model_usage : Option FrontendModelUsageSnapshot

pub record FrontendLogSnapshot : Type 0 where
  pub id : String
  pub run_id : String
  pub session_id : String
  pub machine_id : String
  pub level : Value
  pub message : Value
  pub ts : Value

pub record FrontendRecentEvent : Type 0 where
  pub id : String
  pub ts : String
  pub event_type : TelemetryEventType
  pub machine_id : String
  pub summary : String

-- The maps are in the order of insertion.
pub record SnapshotCollections : Type 0 where
  pub machines : List (String × FrontendMachineSnapshot)
  pub sessions : List (String × FrontendSessionSnapshot)
  pub runs : List (String × FrontendRunSnapshot)
  pub run_details : List (String × MutableRunDetail)
  pub logs : List FrontendLogSnapshot
  pub recent_events : List FrontendRecentEvent

abbrev pub max_tool_calls_per_run : ℕ
max_tool_calls_per_run = 50

abbrev pub max_logs : ℕ
max_logs = 200

abbrev pub max_recent_events : ℕ
max_recent_events = 50
