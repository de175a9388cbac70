-- ===== src/BridgeCommands/Types.antt =====
-- The record types of apps/api-server/src/bridge-command-store.ts. An ISO timestamp is kept as its
-- instant in milliseconds; an optional field is an `Option`.
use patze_control.Base.{ℕ, Bool, Option, String, List}
use patze_control.Value.{Value}

pub data BridgeCommandIntent : Type 0 where
  trigger_job agent_set_enabled approve_request run_command : BridgeCommandIntent

pub data BridgeCommandState : Type 0 where
  queued leased running succeeded failed rejected expired deadletter : BridgeCommandState

pub record BridgeCommandSnapshot : Type 0 where
  pub target_id : String
  pub machine_id : String
  pub target_version : String
  pub intent : BridgeCommandIntent
  pub args : Value
  pub created_by : String
  pub idempotency_key : String
  pub approval_required : Bool
  pub policy_version : Option String

pub data ResultStatus : Type 0 where
  result_succeeded result_failed : ResultStatus

-- Numbers of the runner's report are carried as values: the store never computes with them.
pub record BridgeCommandResult : Type 0 where
  pub status : ResultStatus
  pub exit_code : Value
  pub duration_ms : Value
  pub stdout : String
  pub stderr : String
  pub truncated : Bool
  pub artifact : Option String
  pub duplicate : Option Bool

pub record BridgeCommandRecord : Type 0 where
  pub id : String
  pub created_at : ℕ
  pub updated_at : ℕ
  pub state : BridgeCommandState
  pub lease_owner_machine_id : Option String
  pub lease_until : Option ℕ
  pub lease_attempts : ℕ
  pub execution_attempts : ℕ
  pub approved_at : Option ℕ
  pub approved_by : Option String
  pub rejected_reason : Option String
  pub result : Option BridgeCommandResult
  pub snapshot : BridgeCommandSnapshot

-- What a parsed file shows to `load`: `commands` is `none` if it is not an array.
pub record BridgeCommandStoreData : Type 0 where
  pub version : ℕ
  pub commands : Option (List BridgeCommandRecord)

pub record BridgeCommandFilter : Type 0 where
  pub target_id : Option String
  pub machine_id : Option String
  pub state : Option BridgeCommandState
  pub limit : Option ℕ

pub record ApproveBridgeCommandInput : Type 0 where
  pub command_id : String
  pub target_id : String
  pub target_version : String
  pub approved_by : String

pub record PollBridgeCommandInput : Type 0 where
  pub machine_id : String
  pub lease_ttl_ms : ℕ
  pub now_ms : ℕ

abbrev pub max_default_list : ℕ
max_default_list = 100

abbrev pub deadletter_failed_attempts : ℕ
deadletter_failed_attempts = 3

abbrev pub deadletter_expired_attempts : ℕ
deadletter_expired_attempts = 3
