-- ===== src/Cron/Undo.antt =====
-- Undoing a change of the task list with the snapshot that it took.
use patze_control.Base.{Bool, Option, none, some, String, if◌then◌else◌}
use Prim.Native.String.{◌++◌ as append_text}
use patze_control.Cron.Types.{ScheduledTask, TaskCreateInput, TaskPatchInput}
use patze_control.Cron.Schedule.{Calendar}
use patze_control.Cron.Store.{SnapshotSource, add, update, remove}
use patze_control.Cron.State.{CronService, Moment}
use patze_control.Cron.Service.{add_task, update_task, remove_task}

-- A change of the task list by a user.
pub data Change : Type 0 where
  adds : TaskCreateInput → Change
  updates : String → TaskPatchInput → Change
  removes : String → Change

abbrev pub source_of : Change → SnapshotSource
source_of (adds input) = add
source_of (updates id patch) = update
source_of (removes id) = remove

abbrev updated_service : CronService × Option ScheduledTask → Option CronService
updated_service (s', none) = none
updated_service (s', some task) = some s'

abbrev removed_service : CronService × Bool → Option CronService
removed_service (s', done) = if done then some s' else none

module _ (calendar : Calendar) where
  -- The service after the change, if a task was there to be changed.
  unfoldable pub make : Moment → Change → CronService → Option CronService
  make m (adds input) s = some (add_task calendar m input s).0
  make m (updates id patch) s = updated_service (update_task calendar m id patch s)
  make m (removes id) s = removed_service (remove_task m id s)
