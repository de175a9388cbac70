-- ===== src/Mapper/Reporting.antt =====
-- What a poll adds to the sets of what has been emitted.
use mathlib.Core.List.{append-nil}
use patze_control.Base.{
  ℕ, Bool, true, false, Option, String, List, [], ◌∷◌, ◌++◌, Bool-cases, ◌≡◌, refl, ap, ◌∙◌, inl,
  inr,
}
use patze_control.Telemetry.Timestamps.{Runtime}
use patze_control.Mapper.Types.{
  SessionRunLifecycleState, DetectedRun, MapperState, MappedEvent, same_state,
}
use patze_control.Mapper.Runs.{
  to_run_tool_events, to_run_log_events, to_run_model_usage_event, run_details,
  to_run_state_changed_event, report_change, map_run, map_runs,
}
use patze_control.Mapper.Cases.{map_run_cases}
use patze_control.Mapper.Sessions.{absorb_events, evict, evict_stale_sessions, infer_session_events}
use patze_control.Mapper.Poll.{map_all_runs, map_run_state_changed_events, map_polls}
use patze_control.Mapper.Keys.{
  tool_reported, log_reported, usage_reported, reported, reported-append, AllDifferent, Grows,
  Grows-none, Grows-trans, tools-Grows, logs-Grows, usage-Grows,
}
use patze_control.Mapper.Quiet.{
  AreQuiet, none-AreQuiet, append-AreQuiet, change_event-AreQuiet, vanished-AreQuiet,
  absorb_events-AreQuiet, settle_sessions-AreQuiet,
}

-- The three sets grow by what the events report, and hold everything once.
pub record ReportsOnce (before : MapperState) (out : MapperState × List MappedEvent) : Type 0 where
  pub tools : Grows tool_reported before.emitted_tool_call_ids (out.0.emitted_tool_call_ids, out.1)
  pub logs : Grows log_reported before.emitted_log_ids (out.0.emitted_log_ids, out.1)
  pub usages :
      Grows usage_reported before.emitted_model_usage_run_ids
        (out.0.emitted_model_usage_run_ids, out.1)

ReportsOnce-trans :
    (a b c : MapperState) (es fs : List MappedEvent)
    → ReportsOnce a (b, es)
    → ReportsOnce b (c, fs)
    → ReportsOnce a (c, es ++ fs)
ReportsOnce-trans a b c es fs p q = record {
  tools = Grows-trans tool_reported _ _ _ es fs p.tools q.tools;
  logs = Grows-trans log_reported _ _ _ es fs p.logs q.logs;
  usages = Grows-trans usage_reported _ _ _ es fs p.usages q.usages;
}

-- Quiet events that leave the sets as they are.
quiet-ReportsOnce :
    (a b : MapperState) (es : List MappedEvent)
    → AreQuiet es
    → b.emitted_tool_call_ids ≡ a.emitted_tool_call_ids
    → b.emitted_log_ids ≡ a.emitted_log_ids
    → b.emitted_model_usage_run_ids ≡ a.emitted_model_usage_run_ids
    → ReportsOnce a (b, es)
quiet-ReportsOnce a b es quiet t l u = record {
  tools = rw t (Grows-none tool_reported a.emitted_tool_call_ids es quiet.no_tools);
  logs = rw l (Grows-none log_reported a.emitted_log_ids es quiet.no_logs);
  usages = rw u (Grows-none usage_reported a.emitted_model_usage_run_ids es quiet.no_usages);
}

-- Of three parts one after the other, one reports and the others are quiet.
module _ (key : MappedEvent → Option String) (before : List String) (after : List String)
    (es fs gs : List MappedEvent) where
  parts : reported key (es ++ (fs ++ gs)) ≡ reported key es ++ (reported key fs ++ reported key gs)
  parts =
      reported-append key es (fs ++ gs) ∙ ap (λ l. reported key es ++ l) (reported-append key fs gs)

  Grows-first :
      reported key fs ≡ []
      → reported key gs ≡ []
      → Grows key before (after, es)
      → Grows key before (after, es ++ (fs ++ gs))
  Grows-first f g grows = record {
    grown = rw (parts, f, g, append-nil (reported key es)) grows.grown;
    different = grows.different;
  }

  Grows-second :
      reported key es ≡ []
      → reported key gs ≡ []
      → Grows key before (after, fs)
      → Grows key before (after, es ++ (fs ++ gs))
  Grows-second e g grows = record {
    grown = rw (parts, e, g, append-nil (reported key fs)) grows.grown;
    different = grows.different;
  }

  Grows-third :
      reported key es ≡ []
      → reported key fs ≡ []
      → Grows key before (after, gs)
      → Grows key before (after, es ++ (fs ++ gs))
  Grows-third e f grows = record {
    grown = rw (parts, e, f) grows.grown;
    different = grows.different;
  }

run_details-ReportsOnce :
    (run : DetectedRun) (state : MapperState) → ReportsOnce state (run_details run state)
unfolding run_details
run_details-ReportsOnce run state =
    let t = to_run_tool_events run run.tool_calls state.emitted_tool_call_ids in
    let l = to_run_log_events run run.logs state.emitted_log_ids in
    let u = to_run_model_usage_event run state.emitted_model_usage_run_ids in
    let (tools, t_logs, t_usages) = tools-Grows run run.tool_calls state.emitted_tool_call_ids in
    let (logs, l_tools, l_usages) = logs-Grows run run.logs state.emitted_log_ids in
    let (usages, u_tools, u_logs) = usage-Grows run state.emitted_model_usage_run_ids in
    record {
      tools = Grows-first tool_reported _ t.0 t.1 l.1 u.1 l_tools u_tools tools;
      logs = Grows-second log_reported _ l.0 t.1 l.1 u.1 t_logs u_logs logs;
      usages = Grows-third usage_reported _ u.0 t.1 l.1 u.1 t_usages l_usages usages;
    }

nothing-ReportsOnce : (state : MapperState) → ReportsOnce state (state, [])
nothing-ReportsOnce state = quiet-ReportsOnce state state [] none-AreQuiet refl refl refl

report_change-ReportsOnce :
    (runtime : Runtime) (run : DetectedRun) (from : SessionRunLifecycleState) (first : Bool)
    (state : MapperState)
    → ReportsOnce state (report_change runtime run from first state)
unfolding report_change
report_change-ReportsOnce runtime run from first state =
    elim (Bool-cases (same_state from run.state)) [
      | inl same ↦ rw (report_change, same) (nothing-ReportsOnce state)
      | inr other ↦
          rw (report_change, other)
            (ReportsOnce-trans state state _
              (to_run_state_changed_event runtime run from run.state first ∷ []) _
              (quiet-ReportsOnce state state _
                (change_event-AreQuiet runtime run from run.state first) refl refl refl)
              (run_details-ReportsOnce run state))
    ]

map_run-ReportsOnce :
    (runtime : Runtime) (run : DetectedRun) (state : MapperState)
    → ReportsOnce state (map_run runtime run state)
map_run-ReportsOnce runtime run state = elim (map_run_cases runtime run state) [
  | inl (new, q) ↦ rw q (report_change-ReportsOnce runtime run _ true state)
  | inr (previous, old, inl (same, q)) ↦ rw q (run_details-ReportsOnce run state)
  | inr (previous, old, inr (inl (over, q))) ↦ rw q (nothing-ReportsOnce state)
  | inr (previous, old, inr (inr (going, q))) ↦
      rw q (report_change-ReportsOnce runtime run previous.state false state)
]

map_runs-ReportsOnce :
    (runtime : Runtime) (runs : List DetectedRun) (state : MapperState)
    → ReportsOnce state (map_runs runtime runs state)
unfolding map_runs
map_runs-ReportsOnce runtime [] state = nothing-ReportsOnce state
map_runs-ReportsOnce runtime (run ∷ runs) state =
    let first = map_run runtime run state in
    ReportsOnce-trans state first.0 _ first.1 _ (map_run-ReportsOnce runtime run state)
      (map_runs-ReportsOnce runtime runs first.0)

map_all_runs-ReportsOnce :
    (runtime : Runtime) (runs : List DetectedRun) (state : MapperState)
    → ReportsOnce state (map_all_runs runtime runs state)
unfolding map_all_runs
map_all_runs-ReportsOnce runtime runs state =
    let mapped = map_runs runtime runs state in
    ReportsOnce-trans state mapped.0 _ mapped.1 _ (map_runs-ReportsOnce runtime runs state) (
      quiet-ReportsOnce mapped.0 _ _ (vanished-AreQuiet runtime _ mapped.0.known_runs) refl refl
        refl)

infer-ReportsOnce :
    (machine_id : String) (now : ℕ) (events : List MappedEvent) (state : MapperState)
    → ReportsOnce state (infer_session_events machine_id now events state)
unfolding infer_session_events evict_stale_sessions evict
infer-ReportsOnce machine_id now events state =
    let absorbed = absorb_events machine_id events state.known_sessions in
    quiet-ReportsOnce state _ _
      (append-AreQuiet absorbed.1 _ (absorb_events-AreQuiet machine_id events state.known_sessions)
        (settle_sessions-AreQuiet now state.known_runs absorbed.0))
      refl refl refl

map_polls-ReportsOnce :
    (runtime : Runtime) (machine_id : String) (polls : List (ℕ × List DetectedRun))
    (state : MapperState)
    → ReportsOnce state (map_polls runtime machine_id polls state)
unfolding map_polls map_run_state_changed_events
map_polls-ReportsOnce runtime machine_id [] state = nothing-ReportsOnce state
map_polls-ReportsOnce runtime machine_id (poll ∷ polls) state =
    let runs = map_all_runs runtime poll.1 state in
    let sessions = infer_session_events machine_id poll.0 runs.1 runs.0 in
    ReportsOnce-trans state sessions.0 _ (runs.1 ++ sessions.1) _
      (ReportsOnce-trans state runs.0 sessions.0 runs.1 sessions.1
        (map_all_runs-ReportsOnce runtime poll.1 state)
        (infer-ReportsOnce machine_id poll.0 runs.1 runs.0))
      (map_polls-ReportsOnce runtime machine_id polls sessions.0)

-- What a poll or several say of the three sets.
pub record IsReportedOnce (before : MapperState) (out : MapperState × List MappedEvent)
    : Type 0 where
  pub tools :
      out.0.emitted_tool_call_ids ≡ before.emitted_tool_call_ids ++ reported tool_reported out.1
  pub logs : out.0.emitted_log_ids ≡ before.emitted_log_ids ++ reported log_reported out.1
  pub usages :
      out.0.emitted_model_usage_run_ids
      ≡ before.emitted_model_usage_run_ids ++ reported usage_reported out.1
  pub different_tools : AllDifferent out.0.emitted_tool_call_ids
  pub different_logs : AllDifferent out.0.emitted_log_ids
  pub different_usages : AllDifferent out.0.emitted_model_usage_run_ids

-- However often the same runs are detected: over any polls, the keys of the tool calls, logs and model
-- usages that are reported are, in their order, what the three sets grow by, and where the sets hold
-- no key twice at first, they hold none twice afterwards. So none of the three is reported twice.
pub map_polls-IsReportedOnce :
    (runtime : Runtime) (machine_id : String) (polls : List (ℕ × List DetectedRun))
    (state : MapperState)
    → AllDifferent state.emitted_tool_call_ids
    → AllDifferent state.emitted_log_ids
    → AllDifferent state.emitted_model_usage_run_ids
    → IsReportedOnce state (map_polls runtime machine_id polls state)
map_polls-IsReportedOnce runtime machine_id polls state tools logs usages =
    let r = map_polls-ReportsOnce runtime machine_id polls state in
    record {
      tools = r.tools.grown;
      logs = r.logs.grown;
      usages = r.usages.grown;
      different_tools = r.tools.different tools;
      different_logs = r.logs.different logs;
      different_usages = r.usages.different usages;
    }
