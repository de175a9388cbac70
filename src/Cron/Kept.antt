-- ===== src/Cron/Kept.antt =====
-- What each operation of the scheduler keeps.
use patze_control.Base.{
  ℕ, ◌-◌, ◌≤◌, Option, none, some, String, List, [], ◌∷◌, ◌++◌, length, length-drop, ltb,
  find_index, get_elem?, Bool-cases, Option-cases, ◌≡◌, refl, inl, inr, arith,
}
use patze_control.Cron.Types.{
  TaskStatus, ScheduledTask, TaskRunRecord, TaskCreateInput, TaskPatchInput,
}
use patze_control.Cron.Schedule.{Calendar}
use patze_control.Cron.Store.{
  document, SnapshotSource, TaskSnapshot, TaskSnapshotStore, SnapshotData, absent, tasks_of,
  without_tasks, capture, append_run_record,
}
use patze_control.Cron.State.{
  is_status_running, CronService, Moment, has_task_id, task_at, arm_timer, patch_at,
  patch_task_unsafe,
}
use patze_control.Cron.Service.{add_task, update_at, remove_found, rollback_to}
use patze_control.Cron.Runs.{
  RaceResult, claim, mark_running, settle, tick_begin, claim_all, tick_batch, run_patch, run_record,
}

-- The file holds the tasks, and the two histories are within their bounds.
pub record IsKept (s : CronService) : Type 0 where
  pub written : s.file ≡ some (document 1 (some s.tasks))
  pub log_bounded : length s.run_log ≤ 100
  pub index_bounded : length s.snapshots.index ≤ 100

append_run_record-length :
    (r : TaskRunRecord) (log : List TaskRunRecord) → length (append_run_record r log) ≤ 100
unfolding append_run_record
append_run_record-length r log =
    ground (arith, length-drop (length (log ++ (r ∷ [])) - 100) (log ++ (r ∷ [])))

capture-length :
    (tasks : List ScheduledTask) (source : SnapshotSource) (description : String) (now : ℕ)
    (store : TaskSnapshotStore)
    → length (capture tasks source description now store).index ≤ 100
unfolding capture
capture-length tasks source description now store = elim (Bool-cases (ltb 100 (length index))) [
  | inl full ↦ rw full (omega (arith, length-drop (length index - 100) index))
  | inr room ↦ rw room (ground arith)
]
  where
    index : List TaskSnapshot
    index =
        store.index
        ++ (record {
          id = record { time = now; source = source };
          description = description;
          task_count = length tasks;
        }
            ∷ [])

pub arm_timer-IsKept : (m : Moment) (s : CronService) → IsKept s → IsKept (arm_timer m s)
unfolding arm_timer
arm_timer-IsKept m s h = elim (Bool-cases s.running) [
  | inl e ↦
      rw e (record {
        written = h.written;
        log_bounded = h.log_bounded;
        index_bounded = h.index_bounded;
      })
  | inr e ↦
      rw e (record {
        written = h.written;
        log_bounded = h.log_bounded;
        index_bounded = h.index_bounded;
      })
]

patch_task_unsafe-IsKept :
    (m : Moment) (id : String) (patch : ScheduledTask → ScheduledTask) (s : CronService)
    → IsKept s
    → IsKept (patch_task_unsafe m id patch s)
unfolding patch_task_unsafe
patch_task_unsafe-IsKept m id patch s h = found_at (find_index (has_task_id id) s.tasks)
  where
    found_at : (i : Option ℕ) → IsKept (patch_at m patch s i (task_at s.tasks i))
    found_at none = h
    found_at (some i) = elim (Option-cases (get_elem? s.tasks i)) [
      | inl missing ↦ rw missing h
      | inr (t, there) ↦
          rw there (record {
            written = refl;
            log_bounded = h.log_bounded;
            index_bounded = h.index_bounded;
          })
    ]

pub settle-IsKept :
    (calendar : Calendar) (m : Moment) (task : ScheduledTask) (run_id : String) (started_at : ℕ)
    (result : RaceResult) (ended_at : ℕ) (s : CronService)
    → IsKept s
    → IsKept (settle calendar m task run_id started_at result ended_at s).0
unfolding settle
settle-IsKept calendar m task run_id started_at result ended_at s h =
    let p = patch_task_unsafe-IsKept m task.id (run_patch calendar task result ended_at) s h in
    record {
      written = p.written;
      log_bounded =
          append_run_record-length (run_record task run_id started_at result ended_at)
            (patch_task_unsafe m task.id (run_patch calendar task result ended_at) s).run_log;
      index_bounded = p.index_bounded;
    }

pub mark_running-IsKept :
    (m : Moment) (task : ScheduledTask) (started_at : ℕ) (s : CronService)
    → IsKept s
    → IsKept (mark_running m task started_at s)
unfolding mark_running
mark_running-IsKept m task started_at s h =
    let p =
      patch_task_unsafe-IsKept m task.id (λ t. record t { status = TaskStatus.running }) s h in
    record { written = p.written; log_bounded = p.log_bounded; index_bounded = p.index_bounded }

pub claim-IsKept :
    (m : Moment) (task : ScheduledTask) (s : CronService) → IsKept s → IsKept (claim m task s).0
unfolding claim
claim-IsKept m task s h = elim (Bool-cases (is_status_running task.status)) [
  | inl e ↦ rw e h
  | inr e ↦
      rw e (record {
        written = h.written;
        log_bounded = h.log_bounded;
        index_bounded = h.index_bounded;
      })
]

claim_all-IsKept :
    (m : Moment) (tasks : List ScheduledTask) (s : CronService)
    → IsKept s
    → IsKept (claim_all m tasks s)
unfolding claim_all
claim_all-IsKept m [] s h = h
claim_all-IsKept m (t ∷ ts) s h = claim_all-IsKept m ts (claim m t s).0 (claim-IsKept m t s h)

pub tick_begin-IsKept : (m : Moment) (s : CronService) → IsKept s → IsKept (tick_begin m s).0
unfolding tick_begin
tick_begin-IsKept m s h = elim (Bool-cases s.running) [
  | inl e ↦ simp e (claim_all-IsKept m (tick_batch m.now s) s h)
  | inr e ↦ simp e h
]

pub add_task-IsKept :
    (calendar : Calendar) (m : Moment) (input : TaskCreateInput) (s : CronService)
    → IsKept s
    → IsKept (add_task calendar m input s).0
unfolding add_task
add_task-IsKept calendar m input s h = elim (Bool-cases s.running) [
  | inl e ↦ rw e (record {
    written = refl;
    log_bounded = h.log_bounded;
    index_bounded = capture-length s.tasks _ _ m.now s.snapshots;
  })
  | inr e ↦ rw e (record {
    written = refl;
    log_bounded = h.log_bounded;
    index_bounded = capture-length s.tasks _ _ m.now s.snapshots;
  })
]

pub update_at-IsKept :
    (calendar : Calendar) (m : Moment) (id : String) (patch : TaskPatchInput) (s : CronService)
    (i : Option ℕ) (t : Option ScheduledTask)
    → IsKept s
    → IsKept (update_at calendar m id patch s i t).0
unfolding update_at
update_at-IsKept calendar m id patch s none t h = h
update_at-IsKept calendar m id patch s (some i) none h = h
update_at-IsKept calendar m id patch s (some i) (some t) h = elim (Bool-cases s.running) [
  | inl e ↦ rw e (record {
    written = refl;
    log_bounded = h.log_bounded;
    index_bounded = capture-length s.tasks _ _ m.now s.snapshots;
  })
  | inr e ↦ rw e (record {
    written = refl;
    log_bounded = h.log_bounded;
    index_bounded = capture-length s.tasks _ _ m.now s.snapshots;
  })
]

pub remove_found-IsKept :
    (m : Moment) (id : String) (s : CronService) (t : Option ScheduledTask)
    → IsKept s
    → IsKept (remove_found m id s t).0
unfolding remove_found
remove_found-IsKept m id s none h = h
remove_found-IsKept m id s (some t) h = elim (Bool-cases s.running) [
  | inl e ↦ rw e (record {
    written = refl;
    log_bounded = h.log_bounded;
    index_bounded = capture-length s.tasks _ _ m.now s.snapshots;
  })
  | inr e ↦ rw e (record {
    written = refl;
    log_bounded = h.log_bounded;
    index_bounded = capture-length s.tasks _ _ m.now s.snapshots;
  })
]

pub rollback_to-IsKept :
    (calendar : Calendar) (m : Moment) (description : String) (s : CronService)
    (data' : SnapshotData)
    → IsKept s
    → IsKept (rollback_to calendar m description s data').0
unfolding rollback_to
rollback_to-IsKept calendar m description s absent h = h
rollback_to-IsKept calendar m description s without_tasks h = record {
  written = h.written;
  log_bounded = h.log_bounded;
  index_bounded = capture-length s.tasks _ _ m.now s.snapshots;
}
rollback_to-IsKept calendar m description s (tasks_of tasks) h = elim (Bool-cases s.running) [
  | inl e ↦ rw e (record {
    written = refl;
    log_bounded = h.log_bounded;
    index_bounded = capture-length s.tasks _ _ m.now s.snapshots;
  })
  | inr e ↦ rw e (record {
    written = refl;
    log_bounded = h.log_bounded;
    index_bounded = capture-length s.tasks _ _ m.now s.snapshots;
  })
]
