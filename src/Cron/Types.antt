-- ===== src/Cron/Types.antt =====
-- The data of packages/telemetry-core/src/cron/types.ts. Times are milliseconds; an ISO timestamp
-- that the service writes is kept as its instant.
use patze_control.Base.{ℕ, ◌*◌, Option, String, List, [], ◌∷◌}
use patze_control.Value.{Value}

pub data TaskSchedule : Type 0 where
  at : String → TaskSchedule
  every : ℕ → Option ℕ → TaskSchedule
  cron : String → Option String → TaskSchedule

pub data TaskStatus : Type 0 where
  enabled disabled running error : TaskStatus

pub data TaskAction : Type 0 where
  health_check reconnect_endpoints cleanup_sessions generate_report : TaskAction
  custom_webhook openclaw_cron_run : TaskAction

pub record TaskActionConfig : Type 0 where
  pub action : TaskAction
  pub params : Option Value

pub data RunOutcome : Type 0 where
  ok error : RunOutcome

pub record ScheduledTask : Type 0 where
  pub id : String
  pub name : String
  pub description : Option String
  pub schedule : TaskSchedule
  pub action : TaskActionConfig
  pub status : TaskStatus
  pub created_at : ℕ
  pub updated_at : ℕ
  pub last_run_at : Option ℕ
  pub last_run_status : Option RunOutcome
  pub last_run_error : Option String
  pub next_run_at_ms : Option ℕ
  pub consecutive_errors : ℕ
  pub total_runs : ℕ
  pub timeout_ms : ℕ

pub data RunStatus : Type 0 where
  ok error timeout running : RunStatus

pub record TaskRunRecord : Type 0 where
  pub task_id : String
  pub run_id : String
  pub started_at : ℕ
  pub ended_at : Option ℕ
  pub status : RunStatus
  pub error : Option String
  pub duration_ms : Option ℕ

pub record TaskCreateInput : Type 0 where
  pub id : Option String
  pub name : String
  pub description : Option String
  pub schedule : TaskSchedule
  pub action : TaskActionConfig
  pub timeout_ms : Option ℕ

pub record TaskPatchInput : Type 0 where
  pub name : Option String
  pub description : Option String
  pub schedule : Option TaskSchedule
  pub action : Option TaskActionConfig
  pub status : Option TaskStatus
  pub timeout_ms : Option ℕ

abbrev pub default_timeout_ms : ℕ
default_timeout_ms = 10 * 60 * 1000

abbrev pub max_timer_delay_ms : ℕ
max_timer_delay_ms = 60_000

abbrev pub backoff_steps_ms : List ℕ
backoff_steps_ms = 30_000 ∷ 60_000 ∷ 300_000 ∷ 900_000 ∷ 3_600_000 ∷ []

abbrev pub run_history_max : ℕ
run_history_max = 100
