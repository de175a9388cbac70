-- ===== src/Cron/Backoff.antt =====
-- What a row of failing runs makes of a recurring task.
use patze_control.Base.{
  ℕ, zero, suc, ◌+◌, ◌≤◌, false, some, List, [], ◌∷◌, length, leb, All, if◌then◌else◌, ◌≡◌, refl,
  arith,
}
use patze_control.Cron.Types.{TaskStatus, ScheduledTask}
use patze_control.Cron.Schedule.{Calendar}
use patze_control.Cron.Runs.{
  RaceResult, is_ok, is_at, run_status, backoff_ms, status_after, next_run_after, run_patch,
}

-- The waits grow with the errors, from half a minute to an hour.
pub backoff_bounds :
    (k : ℕ)
    → (30_000 ≤ backoff_ms (suc k))
      × (backoff_ms (suc k) ≤ backoff_ms (suc (suc k)))
      × (backoff_ms (suc k) ≤ 3_600_000)
unfolding backoff_ms
backoff_bounds zero = (omega arith, omega arith, omega arith)
backoff_bounds (suc zero) = (omega arith, omega arith, omega arith)
backoff_bounds (suc (suc zero)) = (omega arith, omega arith, omega arith)
backoff_bounds (suc (suc (suc zero))) = (omega arith, omega arith, omega arith)
backoff_bounds (suc (suc (suc (suc k)))) = ground arith

-- A run that does not end well.
abbrev pub IsFailure : RaceResult × ℕ → Type 0
IsFailure (result, now) = is_ok (run_status result) ≡ false

module _ (calendar : Calendar) where
  -- The task after runs, each begun once the one before has been written.
  unfoldable pub after_runs : List (RaceResult × ℕ) → ScheduledTask → ScheduledTask
  after_runs [] task = task
  after_runs ((result, now) ∷ rest) task = after_runs rest (run_patch calendar task result now task)

  errors_counted :
      (runs : List (RaceResult × ℕ)) (task : ScheduledTask)
      → All IsFailure runs
      → ((after_runs runs task).consecutive_errors ≡ task.consecutive_errors + length runs)
        × ((after_runs runs task).schedule ≡ task.schedule)
        × ((after_runs runs task).total_runs ≡ task.total_runs + length runs)
  unfolding after_runs run_patch
  errors_counted [] task h = (omega arith, refl, omega arith)
  errors_counted ((result, now) ∷ rest) task (bad, bads) =
      let (a, b, c) = errors_counted rest (run_patch calendar task result now task) bads in
      (ground (arith, a, bad), b, ground (arith, c))

  -- After a row of failing runs of a recurring task without earlier errors, the last at `now`, the
  -- task has as many errors as there were runs, it is taken out of service from the fifth on, and
  -- its next run comes after the wait for that many errors.
  pub failing_runs :
      (runs : List (RaceResult × ℕ)) (result : RaceResult) (now : ℕ) (task : ScheduledTask)
      → All IsFailure runs
      → IsFailure (result, now)
      → is_at task.schedule ≡ false
      → task.consecutive_errors ≡ 0
      → let before = after_runs runs task in
        let after = run_patch calendar before result now before in
        let k = suc (length runs) in
        (after.consecutive_errors ≡ k)
        × (after.status ≡ (if leb 5 k then TaskStatus.error else TaskStatus.enabled))
        × (after.next_run_at_ms ≡ some (now + backoff_ms k))
        × (after.total_runs ≡ task.total_runs + k)
  unfolding run_patch status_after next_run_after
  failing_runs runs result now task bads bad recurring fresh =
      let (a, b, c) = errors_counted runs task bads in
      let k : (after_runs runs task).consecutive_errors + 1 ≡ suc (length runs) = omega arith in
      let wait = backoff_bounds (length runs) in
      rw (b, recurring, bad, k) (refl, refl, ground (arith, wait), omega (arith, c))
