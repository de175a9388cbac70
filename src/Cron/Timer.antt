-- ===== src/Cron/Timer.antt =====
-- When the timer of the scheduler fires.
use patze_control.Base.{
  ℕ, zero, suc, ◌+◌, ◌-◌, ◌≤◌, min, max, true, some, List, [], ◌∷◌, keep, get_elem?, Bool-cases,
  Option-cases, ◌≡◌, refl, inl, inr, arith,
}
use mathlib.Core.Option.{some-injective}
use patze_control.Cron.Types.{ScheduledTask}
use patze_control.Cron.State.{CronService, Moment, is_scheduled, earliest, timer_delay, arm_timer}

-- The earliest time is no later than that of any scheduled task.
earliest_le :
    (tasks : List ScheduledTask) (i : ℕ) (t : ScheduledTask) (next : ℕ)
    → get_elem? tasks i ≡ some t
    → is_scheduled t ≡ true
    → t.next_run_at_ms ≡ some next
    → (e : ℕ) × (earliest (keep is_scheduled tasks) ≡ some e) × (e ≤ next)
unfolding earliest
earliest_le [] i t next g sch n = absurd (cc g)
earliest_le (x ∷ xs) zero t next g sch n =
    let same : x ≡ t = some-injective x t g in
    rw (same, sch)
      (elim (Option-cases (earliest (keep is_scheduled xs))) [
        | inl none_left ↦ rw (none_left, n) (next, refl, omega arith)
        | inr (rest, some_left) ↦ rw (some_left, n) (min next rest, refl, omega arith)
      ])
earliest_le (x ∷ xs) (suc i) t next g sch n =
    let (e, found, le) = earliest_le xs i t next g sch n in
    elim (Bool-cases (is_scheduled x)) [
      | inl counted ↦ rw (counted, found) (min _ e, refl, omega (arith, le))
      | inr idle ↦ rw idle (e, found, le)
    ]

-- While the service runs, arming the timer overlooks no task: for every task that is enabled and has
-- a next run, the timer is set, fires after 65 seconds at the latest, and fires within 5 seconds of
-- the task's time, or of the present if that has passed. The jitter takes at most its bound.
pub timer_serves_all :
    (m : Moment) (s : CronService) (i : ℕ) (t : ScheduledTask) (next : ℕ)
    → ((bound : ℕ) → m.share bound ≤ bound)
    → s.running ≡ true
    → get_elem? s.tasks i ≡ some t
    → is_scheduled t ≡ true
    → t.next_run_at_ms ≡ some next
    → (fire : ℕ) × ((arm_timer m s).timer ≡ some fire)
      × (m.now ≤ fire)
      × (fire ≤ m.now + 65_000)
      × (fire ≤ max m.now next + 5_000)
unfolding arm_timer timer_delay
timer_serves_all m s i t next share active g sch n =
    let (e, found, le) = earliest_le s.tasks i t next g sch n in
    rw (active, found)
      (
        m.now + timer_delay m e,
        refl,
        omega arith,
        omega (arith, share (min (min (e - m.now) 60_000) 5_000)),
        omega (arith, le, share (min (min (e - m.now) 60_000) 5_000)),
      )
