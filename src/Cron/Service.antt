-- ===== src/Cron/Service.antt =====
-- The operations of `CronService` in packages/telemetry-core/src/cron/service.ts that run under its
-- lock. All calls of `Date.now()` inside one of them read the same moment.
use patze_control.Base.{
  ℕ, Bool, true, false, not, Option, none, some, String, List, [], ◌∷◌, ◌++◌, map, if◌then◌else◌,
  or_else, keep, find, find_index, set,
}
use Prim.Native.String.{◌++◌ as append_text}
use patze_control.Cron.Types.{
  TaskSchedule, TaskStatus, ScheduledTask, TaskCreateInput, TaskPatchInput, default_timeout_ms,
}
use patze_control.Cron.Schedule.{Calendar, compute_next_run_ms}
use patze_control.Cron.Store.{
  load, add, update, remove, rollback, SnapshotName, SnapshotData, absent, tasks_of, without_tasks,
  get_snapshot_data,
}
use patze_control.Cron.State.{
  created, updated, removed, TaskEvent, CronService, Moment, is_enabled, is_status_running,
  has_task_id, emit_event, persist, arm_timer, snapshot, merge, task_at,
}

unfoldable pub remove_found :
    Moment → String → CronService → Option ScheduledTask → CronService × Bool
unfolding snapshot persist emit_event arm_timer
remove_found m id s none = (s, false)
remove_found m id s (some target) =
    let s1 = snapshot m remove (append_text "Remove task: " target.name) s in
    let s2 = persist (record s1 { tasks = keep (λ t. not (has_task_id id t)) s1.tasks }) in
    let event : TaskEvent = record {
      kind = removed;
      task_id = id;
      task = none;
      run = none;
      ts = m.now;
    } in
    (arm_timer m (emit_event event s2), true)

unfoldable pub remove_task : Moment → String → CronService → CronService × Bool
unfolding remove_found
remove_task m id s = remove_found m id s (find (has_task_id id) s.tasks)

-- How `rollback` ends: with the tasks, `null`, or the TypeError of spreading `undefined`.
pub data RollbackResult : Type 0 where
  restored : List ScheduledTask → RollbackResult
  unknown_snapshot : RollbackResult
  type_error : RollbackResult

-- A task that was running when the process ended.
abbrev pub freed : ℕ → ScheduledTask → ScheduledTask
freed now task =
    if is_status_running task.status
    then record task { status = TaskStatus.enabled; updated_at = now }
    else task

module _ (calendar : Calendar) where
  unfoldable pub recompute_next_run : ℕ → ScheduledTask → ScheduledTask
  recompute_next_run now task =
      if is_enabled task.status
      then record task { next_run_at_ms = compute_next_run_ms calendar task.schedule now }
      else task

  unfoldable pub recompute_all_next_runs : Moment → CronService → CronService
  unfolding recompute_next_run
  recompute_all_next_runs m s = record s { tasks = map (recompute_next_run m.now) s.tasks }

  -- `start` up to the end of its block under the lock.
  unfoldable pub start_loading : Moment → CronService → CronService
  unfolding load recompute_all_next_runs persist
  start_loading m s =
      if s.running
      then s
      else persist (
          recompute_all_next_runs m
            (record s { running = true; tasks = map (freed m.now) (load s.file) }))

  unfoldable pub new_task : Moment → TaskCreateInput → ScheduledTask
  new_task m input = record {
    id = or_else input.id m.fresh_id;
    name = input.name;
    description = input.description;
    schedule = input.schedule;
    action = input.action;
    status = TaskStatus.enabled;
    created_at = m.now;
    updated_at = m.now;
    last_run_at = none;
    last_run_status = none;
    last_run_error = none;
    next_run_at_ms = compute_next_run_ms calendar input.schedule m.now;
    consecutive_errors = 0;
    total_runs = 0;
    timeout_ms = or_else input.timeout_ms default_timeout_ms;
  }

  unfoldable pub add_task : Moment → TaskCreateInput → CronService → CronService × ScheduledTask
  unfolding snapshot new_task persist emit_event arm_timer
  add_task m input s =
      let s1 = snapshot m add (append_text "Add task: " input.name) s in
      let task = new_task m input in
      let s2 = persist (record s1 { tasks = s1.tasks ++ (task ∷ []) }) in
      let event : TaskEvent = record {
        kind = created;
        task_id = task.id;
        task = some task;
        run = none;
        ts = m.now;
      } in
      (arm_timer m (emit_event event s2), task)

  abbrev pub rescheduled : Moment → Option TaskSchedule → ScheduledTask → ScheduledTask
  rescheduled m none task = task
  rescheduled m (some schedule) task = record task {
    next_run_at_ms = compute_next_run_ms calendar schedule m.now;
  }

  unfoldable pub update_at :
      Moment
      → String
      → TaskPatchInput
      → CronService
      → Option ℕ
      → Option ScheduledTask
      → CronService × Option ScheduledTask
  unfolding snapshot merge persist emit_event arm_timer
  update_at m id patch s none found = (s, none)
  update_at m id patch s (some i) none = (s, none)
  update_at m id patch s (some i) (some existing) =
      let s1 = snapshot m update (append_text "Update task: " existing.name) s in
      let merged = rescheduled m patch.schedule (merge patch existing m.now) in
      let s2 = persist (record s1 { tasks = set s1.tasks i merged }) in
      let event : TaskEvent = record {
        kind = updated;
        task_id = id;
        task = some merged;
        run = none;
        ts = m.now;
      } in
      (arm_timer m (emit_event event s2), some merged)

  unfoldable pub update_task :
      Moment → String → TaskPatchInput → CronService → CronService × Option ScheduledTask
  unfolding update_at
  update_task m id patch s =
      let found = find_index (has_task_id id) s.tasks in
      update_at m id patch s found (task_at s.tasks found)

  unfoldable pub rollback_to :
      Moment → String → CronService → SnapshotData → CronService × RollbackResult
  unfolding snapshot recompute_all_next_runs persist arm_timer
  rollback_to m description s absent = (s, unknown_snapshot)
  rollback_to m description s without_tasks = (snapshot m rollback description s, type_error)
  rollback_to m description s (tasks_of tasks) =
      let s1 = snapshot m rollback description s in
      let s2 = persist (recompute_all_next_runs m (record s1 { tasks = tasks })) in
      let s3 = arm_timer m s2 in (s3, restored s3.tasks)

  -- `description` is `Rollback to ${snapshotId}`.
  unfoldable pub rollback_tasks :
      Moment → SnapshotName → String → CronService → CronService × RollbackResult
  unfolding rollback_to
  rollback_tasks m name description s =
      rollback_to m description s (get_snapshot_data name s.snapshots)
