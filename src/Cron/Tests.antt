-- ===== src/Cron/Tests.antt =====
-- The theorems about the scheduler at concrete inputs.
use patze_control.Base.{
  ℕ, ◌+◌, ◌*◌, ◌/◌, ◌%◌, ◌≤◌, ◌<◌, max, true, false, none, some, or_else, List, [], ◌∷◌, All,
  length, leb, if◌then◌else◌, ◌≡◌, refl, arith,
}
use patze_control.Cron.Types.{TaskStatus, every, ScheduledTask, TaskPatchInput, health_check}
use patze_control.Cron.Schedule.{
  Calendar, compute_next_run_ms, search_from, matches_cron, match_part, split,
}
use patze_control.Cron.Lock.{
  World, Step, enter, wait, Reach, here, next, idle, acquire, Moves, line, lock_is_a_queue,
}
use patze_control.Cron.Every.{IsAligned, IsPassedOver, every_next, search_finds_first}
use patze_control.Cron.Store.{document, load, no_snapshots}
use patze_control.Cron.State.{CronService, Moment, arm_timer}
use patze_control.Cron.Service.{start_loading}
use patze_control.Cron.Runs.{
  RaceResult, threw, backoff_ms, run_patch, run_status, run_now, tick_begin, missed_jobs,
}
use patze_control.Cron.Timer.{timer_serves_all}
use patze_control.Cron.Backoff.{after_runs, failing_runs}
use patze_control.Cron.Undo.{removes, make}
use patze_control.Cron.CatchUp.{CameUpBetween, nothing_missed}
use patze_control.Cron.History.{Operation, removes as removing, claims, marks, unclaims, settles}
use patze_control.Cron.Dispatch.{TickGives, tick_fills_slots, run_now_twice}

abbrev plain_calendar : Calendar
plain_calendar = record {
  parse_date = λ s. some 5;
  fields = λ t. record {
    minute = t / 60_000 % 60;
    hour = 0;
    day_of_month = 1;
    month = 1;
    day_of_week = 0;
  };
  start_of_minute = λ t. t / 60_000 * 60_000;
  to_tz_date = λ t tz. t;
  from_tz_date = λ t tz. t;
}

plain_start_ahead : (t : ℕ) → t < plain_calendar.start_of_minute t + 60_000
plain_start_ahead t = omega arith

abbrev star : List ℕ
star = 42 ∷ []

-- `2 * * * *`.
abbrev second_minute : List (List ℕ)
second_minute = (50 ∷ []) ∷ star ∷ star ∷ star ∷ star ∷ []

every_next_example :
    (next : ℕ) × (compute_next_run_ms plain_calendar (every 1000 (some 50)) 2345 ≡ some next)
    × (2345 < next)
    × (next ≤ 2345 + 1000)
    × IsAligned 50 1000 next
every_next_example = every_next plain_calendar 1000 (some 50) 2345 (omega arith)

search_finds_first_example :
    (k : ℕ) × (k < 5)
    × (120_000 ≡ 0 + k * 60_000)
    × (120_000 ≤ 500_000)
    × (matches_cron second_minute (plain_calendar.fields 120_000) ≡ true)
    × ((j : ℕ) → j < k → IsPassedOver plain_calendar second_minute (0 + j * 60_000))
search_finds_first_example =
    search_finds_first plain_calendar second_minute 500_000 5 0 120_000
      (unfold search_from matches_cron split match_part in refl)

abbrev held : World
held = record { lock = record { queue = []; locked = true }; inside = 7 ∷ [] }

abbrev contended : World
contended = record { lock = record { queue = 8 ∷ []; locked = true }; inside = 7 ∷ [] }

held_reached : Reach idle held
unfolding acquire
held_reached = next here (enter 7 refl)

held_contended : Step held contended
unfolding acquire
held_contended = wait 8 refl

lock_is_a_queue_example : (length held.inside ≤ 1) × Moves (line held) (line contended)
lock_is_a_queue_example = lock_is_a_queue held contended held_reached held_contended

abbrev task : ScheduledTask
task = record {
  id = "task_1";
  name = "check";
  description = none;
  schedule = every 1000 none;
  action = record { action = health_check; params = none };
  status = TaskStatus.enabled;
  created_at = 0;
  updated_at = 0;
  last_run_at = none;
  last_run_status = none;
  last_run_error = none;
  next_run_at_ms = some 900;
  consecutive_errors = 0;
  total_runs = 0;
  timeout_ms = 5000;
}

abbrev service : CronService
service = record {
  tasks = task ∷ [];
  file = some (document 1 (some (task ∷ [])));
  snapshots = no_snapshots;
  run_log = [];
  max_concurrent_runs = 3;
  timer = none;
  running = true;
  active_run_count = 0;
  events = [];
}

abbrev noon : Moment
noon = record { now = 1000; share = λ bound. bound / 2; fresh_id = "task_2" }

abbrev evening : Moment
evening = record noon { now = 2000 }

timer_serves_all_example :
    (fire : ℕ) × ((arm_timer noon service).timer ≡ some fire)
    × (1000 ≤ fire)
    × (fire ≤ 1000 + 65_000)
    × (fire ≤ max 1000 900 + 5_000)
timer_serves_all_example =
    timer_serves_all noon service 0 task 900 (λ bound. omega arith) refl refl refl refl

abbrev failures : List (RaceResult × ℕ)
failures = (threw "a", 10) ∷ (threw "b", 20) ∷ (threw "c", 30) ∷ (threw "d", 40) ∷ []

failing_runs_example :
    let before = after_runs plain_calendar failures task in
    let after = run_patch plain_calendar before (threw "e") 50 before in
    (after.consecutive_errors ≡ 5)
    × (after.status ≡ (if leb 5 5 then TaskStatus.error else TaskStatus.enabled))
    × (after.next_run_at_ms ≡ some (50 + backoff_ms 5))
    × (after.total_runs ≡ 0 + 5)
failing_runs_example =
    failing_runs plain_calendar failures (threw "e") 50 task
      (unfold run_status in (refl, (refl, (refl, (refl, tt))))) (unfold run_status in refl) refl
      refl

abbrev emptied : CronService
emptied = or_else (make plain_calendar noon (removes "task_1") service) service

nothing_missed_example :
    All
      (CameUpBetween 1000 2500)
      (missed_jobs 2500 (start_loading plain_calendar noon (record service { running = false })))
nothing_missed_example =
    nothing_missed plain_calendar plain_start_ahead noon 2500 (record service { running = false })
      refl (unfold load in (tt, tt))

tick_fills_slots_example : TickGives noon service (tick_begin noon service)
tick_fills_slots_example = tick_fills_slots noon service refl

run_now_twice_example :
    (s'' : CronService) × (run_now evening "task_1" (record service { active_run_count = 1 })
      ≡ some (task, s'', none))
    × (s''.active_run_count ≡ 0 + 2)
run_now_twice_example =
    run_now_twice noon evening "task_1" task service (record service { active_run_count = 1 })
      (unfold run_now in refl)

abbrev disabling : TaskPatchInput
disabling = record {
  name = none;
  description = none;
  schedule = none;
  action = none;
  status = some TaskStatus.disabled;
  timeout_ms = none;
}

abbrev busy_day : List (Moment × Operation)
busy_day =
    (noon, claims task)
    ∷ (noon, marks task)
    ∷ (evening, removing "task_1")
    ∷ (evening, unclaims)
    ∷ (evening, settles task "run_1" 1000 (threw "lost"))
    ∷ []
