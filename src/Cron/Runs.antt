-- ===== src/Cron/Runs.antt =====
-- The runs of tasks in packages/telemetry-core/src/cron/service.ts: `executeTask`, cut at its
-- awaits, and its callers.
use patze_control.Base.{
  ℕ, ◌+◌, ◌-◌, min, Bool, true, false, not, ◌&&◌, ◌||◌, Option, none, some, String, List, [], ◌∷◌,
  length, eqb, leb, ltb, if◌then◌else◌, or_else, take, keep, find, get_elem?,
}
use patze_control.Cron.Types.{
  TaskSchedule, at, TaskStatus, RunOutcome, RunStatus, ScheduledTask, TaskRunRecord,
  backoff_steps_ms,
}
use patze_control.Cron.Schedule.{Calendar, codes, compute_next_run_ms}
use patze_control.Cron.Store.{append_run_record}
use patze_control.Cron.State.{
  started, completed, failed, CronService, Moment, has_task_id, is_status_running, is_due,
  emit_event, arm_timer, patch_task_unsafe,
}

-- How the race of the executor and the timeout ends: with a result, that of the timeout being
-- `{ ok: false, error: 'Timeout after …ms' }`, or with an exception.
pub data RaceResult : Type 0 where
  finished : Bool → Option String → RaceResult
  threw : String → RaceResult

abbrev starts_with : List ℕ → List ℕ → Bool
starts_with [] cs = true
starts_with (p ∷ ps) [] = false
starts_with (p ∷ ps) (c ∷ cs) = eqb p c && starts_with ps cs

-- `text.includes(part)`.
unfoldable pub includes : List ℕ → List ℕ → Bool
includes [] part = starts_with part []
includes (c ∷ cs) part = let rest = includes cs part in starts_with part (c ∷ cs) || rest

abbrev names_timeout : Option String → Bool
names_timeout none = false
names_timeout (some error) = includes (codes error) (codes "Timeout")

unfoldable pub run_status : RaceResult → RunStatus
unfolding includes
run_status (finished true error) = RunStatus.ok
run_status (finished false error) =
    if names_timeout error then RunStatus.timeout else RunStatus.error
run_status (threw message) = RunStatus.error

abbrev pub run_error : RaceResult → Option String
run_error (finished true error) = none
run_error (finished false error) = error
run_error (threw message) = some message

abbrev pub is_ok : RunStatus → Bool
is_ok RunStatus.ok = true
is_ok _ = false

abbrev pub is_at : TaskSchedule → Bool
is_at (at date) = true
is_at _ = false

abbrev pub longest_backoff_ms : ℕ
longest_backoff_ms = 3_600_000

unfoldable pub backoff_ms : ℕ → ℕ
backoff_ms consecutive_errors =
    if ltb 0 consecutive_errors
    then or_else
        (get_elem? backoff_steps_ms (min (consecutive_errors - 1) (length backoff_steps_ms - 1)))
        longest_backoff_ms
    else 0

abbrev pub errors_after : RunStatus → ScheduledTask → ℕ
errors_after status task = if is_ok status then 0 else task.consecutive_errors + 1

unfoldable pub status_after : TaskSchedule → ℕ → TaskStatus
status_after schedule consecutive_errors =
    if is_at schedule
    then TaskStatus.disabled
    else if leb (length backoff_steps_ms) consecutive_errors
    then TaskStatus.error
    else TaskStatus.enabled

-- `executeTask` up to its first await: the run is refused with a record, or is counted.
unfoldable pub claim : Moment → ScheduledTask → CronService → CronService × Option TaskRunRecord
claim m task s =
    if is_status_running task.status
    then (
      s,
      some (record {
        task_id = task.id;
        run_id = m.fresh_id;
        started_at = m.now;
        ended_at = some m.now;
        status = RunStatus.error;
        error = some "Task already running";
        duration_ms = some 0;
      }),
    )
    else (record s { active_run_count = s.active_run_count + 1 }, none)

-- The block under the lock, and the event behind it, which has the time of the claim.
unfoldable pub mark_running : Moment → ScheduledTask → ℕ → CronService → CronService
unfolding patch_task_unsafe emit_event
mark_running m task started_at s =
    emit_event
      (record { kind = started; task_id = task.id; task = some task; run = none; ts = started_at })
      (patch_task_unsafe m task.id (λ t. record t { status = TaskStatus.running }) s)

-- The end of the race. The count was raised by the claim of the run, and is not 0.
unfoldable pub unclaim : CronService → CronService
unclaim s = record s { active_run_count = s.active_run_count - 1 }

unfoldable pub run_record : ScheduledTask → String → ℕ → RaceResult → ℕ → TaskRunRecord
unfolding run_status
run_record task run_id started_at result ended_at = record {
  task_id = task.id;
  run_id = run_id;
  started_at = started_at;
  ended_at = some ended_at;
  status = run_status result;
  error = run_error result;
  duration_ms = some (ended_at - started_at);
}

-- `runNow` up to its first await; `none` if there is no such task.
unfoldable pub run_now :
    Moment → String → CronService → Option (ScheduledTask × CronService × Option TaskRunRecord)
unfolding claim
run_now m id s = elim (find (has_task_id id) s.tasks) [
  | none ↦ none
  | some task ↦ let (s', refused) = claim m task s in some (task, s', refused)
]

unfoldable pub claim_all : Moment → List ScheduledTask → CronService → CronService
unfolding claim
claim_all m [] s = s
claim_all m (task ∷ tasks) s = claim_all m tasks (claim m task s).0

-- The tasks that a tick starts.
unfoldable pub tick_batch : ℕ → CronService → List ScheduledTask
tick_batch now s = take (s.max_concurrent_runs - s.active_run_count) (keep (is_due now) s.tasks)

-- `onTick` up to its await. The timer is armed again once all the runs have ended.
unfoldable pub tick_begin : Moment → CronService → CronService × List ScheduledTask
unfolding claim_all tick_batch
tick_begin m s =
    if not s.running
    then (s, [])
    else let batch = tick_batch m.now s in (claim_all m batch s, batch)

unfoldable pub tick_end : Moment → CronService → CronService
unfolding arm_timer
tick_end m s = arm_timer m s

-- The tasks that `catchUpMissedJobs` goes through.
unfoldable pub missed_jobs : ℕ → CronService → List ScheduledTask
missed_jobs now s = keep (is_due now) s.tasks

module _ (calendar : Calendar) where
  unfoldable pub next_run_after : TaskSchedule → ℕ → ℕ → Option ℕ
  unfolding backoff_ms
  next_run_after schedule consecutive_errors now =
      if is_at schedule
      then none
      else if ltb 0 (backoff_ms consecutive_errors)
      then some (now + backoff_ms consecutive_errors)
      else compute_next_run_ms calendar schedule now

  -- The fields that the end of a run writes. All come from the task as it was when the run began.
  unfoldable pub run_patch : ScheduledTask → RaceResult → ℕ → ScheduledTask → ScheduledTask
  unfolding run_status next_run_after status_after
  run_patch task result now current =
      let status = run_status result in
      let consecutive_errors = errors_after status task in
      record current {
        status = status_after task.schedule consecutive_errors;
        last_run_at = some now;
        last_run_status = some (if is_ok status then RunOutcome.ok else RunOutcome.error);
        last_run_error = run_error result;
        next_run_at_ms = next_run_after task.schedule consecutive_errors now;
        consecutive_errors = consecutive_errors;
        total_runs = task.total_runs + 1;
      }

  -- The second block under the lock, and what follows it. `ended_at` is when the race ended.
  unfoldable pub settle :
      Moment
      → ScheduledTask
      → String
      → ℕ
      → RaceResult
      → ℕ
      → CronService
      → CronService × TaskRunRecord
  unfolding patch_task_unsafe run_patch run_record append_run_record emit_event
  settle m task run_id started_at result ended_at s =
      let done = run_record task run_id started_at result ended_at in
      let s1 = patch_task_unsafe m task.id (run_patch task result ended_at) s in
      let s2 : CronService = record s1 { run_log = append_run_record done s1.run_log } in
      (
        emit_event
            (record {
              kind = if is_ok (run_status result) then completed else failed;
              task_id = task.id;
              task = none;
              run = some done;
              ts = ended_at;
            })
            s2,
        done,
      )
