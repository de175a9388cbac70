-- ===== src/Cron/History.antt =====
-- What every operation of the scheduler keeps, in whatever order operations and the parts of runs
-- come.
use patze_control.Base.{ℕ, String, List, [], ◌∷◌}
use patze_control.Cron.Types.{ScheduledTask, TaskCreateInput, TaskPatchInput}
use patze_control.Cron.Schedule.{Calendar}
use patze_control.Cron.Store.{SnapshotName}
use patze_control.Cron.State.{CronService, Moment, stop}
use patze_control.Cron.Service.{add_task, update_task, remove_task, rollback_tasks}
use patze_control.Cron.Runs.{RaceResult, claim, mark_running, unclaim, settle, tick_begin, tick_end}

-- An operation, or one of the parts that a run is cut into at its awaits.
pub data Operation : Type 0 where
  adds : TaskCreateInput → Operation
  updates : String → TaskPatchInput → Operation
  removes : String → Operation
  rolls_back : SnapshotName → String → Operation
  claims marks : ScheduledTask → Operation
  unclaims ticks rearms stops : Operation
  settles : ScheduledTask → String → ℕ → RaceResult → Operation

module _ (calendar : Calendar) where
  unfoldable pub perform : CronService → Moment × Operation → CronService
  perform s (m, adds input) = (add_task calendar m input s).0
  perform s (m, updates id patch) = (update_task calendar m id patch s).0
  perform s (m, removes id) = (remove_task m id s).0
  perform s (m, rolls_back name description) = (rollback_tasks calendar m name description s).0
  perform s (m, claims task) = (claim m task s).0
  perform s (m, marks task) = mark_running m task m.now s
  perform s (m, unclaims) = unclaim s
  perform s (m, ticks) = (tick_begin m s).0
  perform s (m, rearms) = tick_end m s
  perform s (m, stops) = stop s
  perform s (m, settles task run_id started_at result) =
      (settle calendar m task run_id started_at result m.now s).0

  unfoldable pub perform_all : CronService → List (Moment × Operation) → CronService
  perform_all s [] = s
  perform_all s (o ∷ os) = perform_all (perform s o) os
