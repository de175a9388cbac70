-- ===== src/Cron/Dispatch.antt =====
-- Which runs begin, and what their end writes.
use patze_control.Base.{
  ℕ, ◌+◌, ◌-◌, ◌≤◌, min, true, none, some, String, List, [], ◌∷◌, keep, All, All-take, length,
  length-take, subst, find, Bool-cases, Option-cases, ◌≡◌, refl, sym, ap, ◌∙◌, inl, inr, arith,
}
use mathlib.Core.Option.{some-injective}
use patze_control.Cron.Types.{ScheduledTask}
use patze_control.Cron.State.{CronService, Moment, has_task_id, is_due, is_status_running}
use patze_control.Cron.Runs.{claim, claim_all, tick_batch, tick_begin, run_now}

abbrev IsDue : ℕ → ScheduledTask → Type 0
IsDue now task = is_due now task ≡ true

keep-IsDue : (now : ℕ) (tasks : List ScheduledTask) → All (IsDue now) (keep (is_due now) tasks)
keep-IsDue now [] = tt
keep-IsDue now (t ∷ ts) = elim (Bool-cases (is_due now t)) [
  | inl due ↦ rw due (due, keep-IsDue now ts)
  | inr idle ↦ rw idle (keep-IsDue now ts)
]

claim_due :
    (m : Moment) (t : ScheduledTask) (s : CronService)
    → IsDue m.now t
    → (claim m t s).0 ≡ record s { active_run_count = s.active_run_count + 1 }
unfolding claim
claim_due m t s h = ground arith

claim_all_due :
    (m : Moment) (batch : List ScheduledTask) (s : CronService)
    → All (IsDue m.now) batch
    → claim_all m batch s ≡ record s { active_run_count = s.active_run_count + length batch }
unfolding claim_all
claim_all_due m [] s h =
    let e : s.active_run_count + 0 ≡ s.active_run_count = omega arith in rw e refl
claim_all_due m (t ∷ ts) s h = rw (claim_due m t s h.0) (
    claim_all_due m ts (record s { active_run_count = s.active_run_count + 1 }) h.1
    ∙ ap (λ n. record s { active_run_count = n }) (omega arith))

-- The service and the batch that a tick gives.
abbrev pub TickGives : Moment → CronService → CronService × List ScheduledTask → Type 0
TickGives m s out =
    All (IsDue m.now) out.1
    × (length out.1
        ≡ min (s.max_concurrent_runs - s.active_run_count) (length (keep (is_due m.now) s.tasks)))
    × (out.0 ≡ record s { active_run_count = s.active_run_count + length out.1 })
    × (s.active_run_count ≤ s.max_concurrent_runs → out.0.active_run_count ≤ s.max_concurrent_runs)

tick_begin_running :
    (m : Moment) (s : CronService)
    → s.running ≡ true
    → tick_begin m s ≡ (claim_all m (tick_batch m.now s) s, tick_batch m.now s)
unfolding tick_begin
tick_begin_running m s active = simp active refl

batch_lem :
    (m : Moment) (s : CronService)
    → TickGives m s (claim_all m (tick_batch m.now s) s, tick_batch m.now s)
unfolding tick_batch
batch_lem m s =
    let room = s.max_concurrent_runs - s.active_run_count in
    let due = All-take (IsDue m.now) room _ (keep-IsDue m.now s.tasks) in
    let size = length-take room (keep (is_due m.now) s.tasks) in
    let counted = claim_all_due m _ s due in
    (due, size, counted, λ h. rw counted (omega (arith, size)))

-- A tick of the running service begins a run of tasks that are due, of as many as there are and as
-- the limit leaves room for, and counts them all; runs within the limit stay within it.
pub tick_fills_slots :
    (m : Moment) (s : CronService) → s.running ≡ true → TickGives m s (tick_begin m s)
tick_fills_slots m s active =
    subst (TickGives m s) (sym (tick_begin_running m s active)) (batch_lem m s)

-- A task can be claimed again until the block that marks it as running: a second `runNow` that comes
-- before begins a second run of the task.
pub run_now_twice :
    (m m' : Moment) (id : String) (task : ScheduledTask) (s s' : CronService)
    → run_now m id s ≡ some (task, s', none)
    → (s'' : CronService) × (run_now m' id s' ≡ some (task, s'', none))
      × (s''.active_run_count ≡ s.active_run_count + 2)
unfolding run_now
run_now_twice m m' id task s s' e = elim (Option-cases (find (has_task_id id) s.tasks)) [
  | inl missing ↦ cc (rw (run_now, missing) at e)
  | inr (t, found) ↦ elim (Bool-cases (is_status_running t.status)) [
    | inl busy ↦ cc (rw (run_now, found, busy) at e)
    | inr free ↦
        let same = some-injective _ _ (rw (run_now, found, free) at e) in
        let a : t ≡ task = ap (λ p. p.0) same in
        let b : record s { active_run_count = s.active_run_count + 1 } ≡ s' = ap (λ p. p.1) same in
        let count : s.active_run_count + 1 ≡ s'.active_run_count = ap (λ x. x.active_run_count) b in
        rw (run_now, ← b, ← a, found, free) (_, refl, omega (arith, count))
  ]
]
