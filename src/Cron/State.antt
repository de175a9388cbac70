-- ===== src/Cron/State.antt =====
-- The state of `CronService` in packages/telemetry-core/src/cron/service.ts, and the private methods
-- that the operations share.
use patze_control.Base.{
  ℕ, ◌+◌, ◌-◌, min, Bool, true, false, not, ◌&&◌, Option, none, some, is_some, String, List, [],
  ◌∷◌, ◌++◌, ◌==◌, leb, if◌then◌else◌, or_else, keep, find_index, get_elem?, set,
}
use patze_control.Cron.Types.{
  TaskStatus, ScheduledTask, TaskRunRecord, TaskPatchInput, max_timer_delay_ms,
}
use patze_control.Cron.Store.{TasksFile, document, SnapshotSource, TaskSnapshotStore, capture}

pub data TaskEventKind : Type 0 where
  created updated removed started completed failed : TaskEventKind

pub record TaskEvent : Type 0 where
  pub kind : TaskEventKind
  pub task_id : String
  pub task : Option ScheduledTask
  pub run : Option TaskRunRecord
  pub ts : ℕ

-- `timer` is the moment at which the timer fires; `events` are those handed to `onTaskEvent`.
pub record CronService : Type 0 where
  pub tasks : List ScheduledTask
  pub file : Option TasksFile
  pub snapshots : TaskSnapshotStore
  pub run_log : List TaskRunRecord
  pub max_concurrent_runs : ℕ
  pub timer : Option ℕ
  pub running : Bool
  pub active_run_count : ℕ
  pub events : List TaskEvent

-- What an operation reads of the runtime: `Date.now()`, the share of a bound that
-- `Math.floor(Math.random() * bound)` takes, and the random id that it makes.
pub record Moment : Type 0 where
  pub now : ℕ
  pub share : ℕ → ℕ
  pub fresh_id : String

abbrev pub is_enabled : TaskStatus → Bool
is_enabled TaskStatus.enabled = true
is_enabled _ = false

abbrev pub is_status_running : TaskStatus → Bool
is_status_running TaskStatus.running = true
is_status_running _ = false

abbrev pub has_task_id : String → ScheduledTask → Bool
has_task_id id task = task.id == id

abbrev pub is_scheduled : ScheduledTask → Bool
is_scheduled task = is_enabled task.status && is_some task.next_run_at_ms

abbrev pub is_reached : ℕ → Option ℕ → Bool
is_reached now none = false
is_reached now (some next) = leb next now

-- The tasks that `onTick` and `catchUpMissedJobs` look for.
abbrev pub is_due : ℕ → ScheduledTask → Bool
is_due now task = is_enabled task.status && is_reached now task.next_run_at_ms

-- `Math.min` over the times of the scheduled tasks.
unfoldable pub earliest : List ScheduledTask → Option ℕ
earliest [] = none
earliest (task ∷ tasks) = elim (earliest tasks) [
  | none ↦ task.next_run_at_ms
  | some rest ↦ some (min (or_else task.next_run_at_ms rest) rest)
]

unfoldable pub emit_event : TaskEvent → CronService → CronService
emit_event event s = record s { events = s.events ++ (event ∷ []) }

unfoldable pub persist : CronService → CronService
persist s = record s { file = some (document 1 (some s.tasks)) }

unfoldable pub jitter_ms : Moment → ℕ → ℕ
jitter_ms m max_ms = m.share max_ms

abbrev pub max_jitter_ms : ℕ
max_jitter_ms = 5_000

-- Differences stop at 0 as `Math.max(0, …)` does.
unfoldable pub timer_delay : Moment → ℕ → ℕ
unfolding jitter_ms
timer_delay m earliest_ms =
    let raw_delay = min (earliest_ms - m.now) max_timer_delay_ms in
    raw_delay + jitter_ms m (min raw_delay max_jitter_ms)

abbrev timer_at : Moment → Option ℕ → Option ℕ
timer_at m none = none
timer_at m (some earliest_ms) = some (m.now + timer_delay m earliest_ms)

unfoldable pub arm_timer : Moment → CronService → CronService
arm_timer m s =
    if not s.running
    then record s { timer = none }
    else record s { timer = timer_at m (earliest (keep is_scheduled s.tasks)) }

unfoldable pub snapshot : Moment → SnapshotSource → String → CronService → CronService
snapshot m source description s = record s {
  snapshots = capture s.tasks source description m.now s.snapshots;
}

unfoldable pub stop : CronService → CronService
stop s = record s { running = false; timer = none }

-- `...filterDefined(patch)`: only the fields that are given.
unfoldable pub merge : TaskPatchInput → ScheduledTask → ℕ → ScheduledTask
merge patch task now = record task {
  name = or_else patch.name task.name;
  description = elim patch.description [ none ↦ task.description | some d ↦ some d ];
  schedule = or_else patch.schedule task.schedule;
  action = or_else patch.action task.action;
  status = or_else patch.status task.status;
  timeout_ms = or_else patch.timeout_ms task.timeout_ms;
  updated_at = now;
}

abbrev pub task_at : List ScheduledTask → Option ℕ → Option ScheduledTask
task_at tasks none = none
task_at tasks (some i) = get_elem? tasks i

-- `patch` is the spread of the fields that the caller changes.
unfoldable pub patch_at :
    Moment
    → (ScheduledTask → ScheduledTask)
    → CronService
    → Option ℕ
    → Option ScheduledTask
    → CronService
unfolding persist
patch_at m patch s (some i) (some task) =
    persist (record s { tasks = set s.tasks i (record (patch task) { updated_at = m.now }) })
patch_at m patch s _ _ = s

unfoldable pub patch_task_unsafe :
    Moment → String → (ScheduledTask → ScheduledTask) → CronService → CronService
unfolding patch_at
patch_task_unsafe m id patch s =
    let found = find_index (has_task_id id) s.tasks in
    patch_at m patch s found (task_at s.tasks found)
