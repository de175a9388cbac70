-- ===== src/Cron/CatchUp.antt =====
-- Which jobs the service catches up with when it starts.
use patze_control.Base.{
  ℕ, ◌+◌, ◌≤◌, ◌<◌, true, false, none, some, List, [], ◌∷◌, map, keep, All, ltb, eqb, length, ◌||◌,
  if◌then◌else◌, Bool-cases, Option-cases, ◌≡◌, refl, sym, ◌∙◌, inl, inr, arith,
}
use mathlib.Core.Option.{some-injective}
use patze_control.Cron.Types.{TaskSchedule, at, every, cron, ScheduledTask}
use patze_control.Cron.Schedule.{
  Calendar, codes, words, search_from, map_found, compute_cron_next, compute_next_run_ms,
}
use patze_control.Cron.Every.{every_next, search_finds_first}
use patze_control.Cron.Store.{load}
use patze_control.Cron.State.{CronService, Moment, is_due, is_enabled, is_status_running}
use patze_control.Cron.Service.{freed, recompute_next_run, start_loading}
use patze_control.Cron.Runs.{missed_jobs}

-- A cron expression is read in local time.
abbrev pub HasNoZone : TaskSchedule → Type 0
HasNoZone (cron expr tz) = tz ≡ none
HasNoZone _ = Unit

-- The task comes up after `now`, and has by `later`.
abbrev pub CameUpBetween : ℕ → ℕ → ScheduledTask → Type 0
CameUpBetween now later task =
    (next : ℕ) × (task.next_run_at_ms ≡ some next) × (now < next) × (next ≤ later)

module _ (calendar : Calendar)
    (start_ahead : (t : ℕ) → t < calendar.start_of_minute t + 60_000) where
  cron_ahead :
      (expr : List ℕ) (now next : ℕ)
      → compute_cron_next calendar expr none now ≡ some next
      → now < next
  unfolding compute_cron_next
  cron_ahead expr now next e = found_ahead (words expr) _ _ e
    where
      found_ahead :
          (parts : List (List ℕ)) (limit rounds : ℕ)
          → (if ltb (length parts) 5 || ltb 6 (length parts)
              then none
              else map_found calendar none (
                  search_from calendar parts limit rounds
                    (calendar.start_of_minute (now + 60_000))))
            ≡ some next
          → now < next
      found_ahead parts limit rounds q =
          elim (Bool-cases (ltb (length parts) 5 || ltb 6 (length parts))) [
            | inl bad ↦ cc (rw bad at q)
            | inr fine ↦
                elim (Option-cases (
                  search_from calendar parts limit rounds
                    (calendar.start_of_minute (now + 60_000)))) [
                      | inl missing ↦ cc (rw (fine, missing) at q)
                      | inr (t, found) ↦
                          let same : t ≡ next = some-injective t next (rw (fine, found) at q) in
                          let (k, lt, place, within, hit, rest) =
                            search_finds_first calendar parts limit rounds _ t found in
                          omega (arith, start_ahead (now + 60_000))
                    ]
          ]

  next_ahead :
      (schedule : TaskSchedule) (now next : ℕ)
      → HasNoZone schedule
      → compute_next_run_ms calendar schedule now ≡ some next
      → now < next
  unfolding compute_next_run_ms
  next_ahead (at date) now next z e = ground arith
  next_ahead (every every_ms anchor) now next z e = elim (Bool-cases (eqb every_ms 0)) [
    | inl never ↦ cc (rw never at e)
    | inr some_time ↦
        let (t, found, ahead, near, rest) =
          every_next calendar every_ms anchor now (ground arith) in
        let same : t ≡ next = some-injective t next (sym found ∙ unfold compute_next_run_ms in e) in
        omega arith
  ]
  next_ahead (cron expr tz) now next z e = cron_ahead (codes expr) now next (rw z at e)

  due_later :
      (now later : ℕ) (task : ScheduledTask)
      → HasNoZone task.schedule
      → is_due later (recompute_next_run calendar now task) ≡ true
      → CameUpBetween now later (recompute_next_run calendar now task)
  unfolding recompute_next_run
  due_later now later task z e = elim (Bool-cases (is_enabled task.status)) [
    | inr off ↦ cc (rw (off, off) at e)
    | inl on ↦ elim (Option-cases (compute_next_run_ms calendar task.schedule now)) [
      | inl never ↦ cc (rw (on, on, never) at e)
      | inr (next, found) ↦
          rw (on, found)
            (
              next,
              refl,
              next_ahead task.schedule now next z found,
              ground (arith, rw (on, on, found) at e),
            )
    ]
  ]

  All-later :
      (now later : ℕ) (tasks : List ScheduledTask)
      → All (λ t. HasNoZone t.schedule) tasks
      → All
          (CameUpBetween now later)
          (keep (is_due later) (map (recompute_next_run calendar now) (map (freed now) tasks)))
  All-later now later [] z = tt
  All-later now later (t ∷ ts) z =
      let task = recompute_next_run calendar now (freed now t) in
      elim (Bool-cases (is_due later task)) [
        | inl due ↦
            rw due
              (due_later now later (freed now t) (freed-zone t z.0) due, All-later now later ts z.1)
        | inr idle ↦ rw idle (All-later now later ts z.1)
      ]
    where
      freed-zone : (t : ScheduledTask) → HasNoZone t.schedule → HasNoZone (freed now t).schedule
      freed-zone t z = elim (Bool-cases (is_status_running t.status)) [
        | inl was ↦ rw was z
        | inr other ↦ rw other z
      ]

  -- Starting catches up with no job that was missed while the service was down: every job that it
  -- goes through came up after the start had read the clock. The tasks in the file are without time
  -- zones, and a minute's start lies less than a minute back.
  pub nothing_missed :
      (m : Moment) (later : ℕ) (s : CronService)
      → s.running ≡ false
      → All (λ t. HasNoZone t.schedule) (load s.file)
      → All (CameUpBetween m.now later) (missed_jobs later (start_loading calendar m s))
  unfolding missed_jobs start_loading
  nothing_missed m later s stopped z = rw stopped (All-later m.now later (load s.file) z)
