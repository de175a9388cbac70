-- ===== src/Frontend/Entries.antt =====
-- The entries that `upsertFromEvent` of packages/telemetry-core/src/frontend-reducer.ts writes, and the
-- limit on tool calls.
use patze_control.Base.{
  ℕ, ◌-◌, not, ◌&&◌, Option, none, some, String, List, [], ◌∷◌, length, take, drop, keep, leb, ltb,
  if◌then◌else◌,
}
use patze_control.Value.{Value, text, number, is_truthy, get, equals_text}
use patze_control.Telemetry.Events.{TelemetryEvent}
use patze_control.Telemetry.Projections.{is_terminal_state, resource_snapshot, if_defined}
use patze_control.Mapper.Types.{has_key}
use patze_control.Frontend.Types.{
  FrontendRuntime, FrontendMachineSnapshot, FrontendSessionSnapshot, FrontendRunSnapshot,
  ToolStatus, tool_started, tool_completed, tool_failed, tool_cancelled, FrontendToolCallSnapshot,
  FrontendModelUsageSnapshot, MutableRunDetail, FrontendLogSnapshot, max_tool_calls_per_run,
  max_logs,
}

-- `current?.field`.
abbrev pub name_of_machine : Option FrontendMachineSnapshot → Option Value
name_of_machine none = none
name_of_machine (some m) = m.name

abbrev pub kind_of_machine : Option FrontendMachineSnapshot → Option Value
kind_of_machine none = none
kind_of_machine (some m) = m.kind

abbrev pub session_created : Option FrontendSessionSnapshot → String → String
session_created none ts = ts
session_created (some s) ts = s.created_at

abbrev pub run_created : Option FrontendRunSnapshot → String → String
run_created none ts = ts
run_created (some r) ts = r.created_at

abbrev pub call_started : Option FrontendToolCallSnapshot → String → Value
call_started none ts = text ts
call_started (some c) ts = c.started_at

abbrev pub or_zero : Option Value → Value
or_zero none = number 0
or_zero (some n) = n

abbrev pub Calls : Type 0
Calls = List (String × FrontendToolCallSnapshot)

module _ (runtime : FrontendRuntime) where
  -- `String(value)`.
  abbrev pub string_of : Value → String
  string_of (text s) = s
  string_of v = runtime.show v

  abbrev iso_or : Option ℕ → String → String
  iso_or none fallback = fallback
  iso_or (some t) fallback = runtime.to_iso_string t

  unfoldable pub normalize_iso_timestamp : Value → String → String
  normalize_iso_timestamp candidate fallback = iso_or (runtime.parse_date candidate) fallback

  -- `Map.prototype.values`.
  abbrev pub values : Calls → List FrontendToolCallSnapshot
  values [] = []
  values (e ∷ es) = e.1 ∷ values es

  abbrev pub call_ids : List FrontendToolCallSnapshot → List String
  call_ids [] = []
  call_ids (call ∷ calls) = call.tool_call_id ∷ call_ids calls

  abbrev pub delete_first : List FrontendToolCallSnapshot → MutableRunDetail → MutableRunDetail
  delete_first sorted detail =
      let dropped = call_ids (take (length sorted - max_tool_calls_per_run) sorted) in
      record detail { tool_calls = keep (λ e. not (has_key e.0 dropped)) detail.tool_calls }

  unfoldable pub trim_tool_calls : MutableRunDetail → Option MutableRunDetail
  trim_tool_calls detail =
      if leb (length detail.tool_calls) max_tool_calls_per_run
      then some detail
      else elim (runtime.sort_by_start (values detail.tool_calls)) [
        | none ↦ none
        | some sorted ↦ some (delete_first sorted detail)
      ]

  -- `getOrCreateRunDetail`.
  abbrev pub detail_of : String → Option MutableRunDetail → MutableRunDetail
  detail_of id none = record { run_id = id; tool_calls = []; model_usage = none }
  detail_of id (some detail) = detail

  unfoldable pub registered : TelemetryEvent → FrontendMachineSnapshot
  unfolding normalize_iso_timestamp
  registered event = record {
    machine_id = string_of (get event.payload "machineId");
    name = if_defined (get event.payload "name");
    kind = if_defined (get event.payload "kind");
    status = get event.payload "status";
    last_seen_at = normalize_iso_timestamp (get event.payload "registeredAt") event.ts;
    last_event_id = event.id;
    last_resource = none;
  }

  unfoldable pub after_heartbeat :
      Option FrontendMachineSnapshot → TelemetryEvent → FrontendMachineSnapshot
  unfolding resource_snapshot
  after_heartbeat current event = record {
    machine_id = string_of (get event.payload "machineId");
    name = name_of_machine current;
    kind = kind_of_machine current;
    status = get event.payload "status";
    last_seen_at = event.ts;
    last_event_id = event.id;
    last_resource = some (resource_snapshot (get event.payload "resource"));
  }

  unfoldable pub session_upserted :
      Option FrontendSessionSnapshot → TelemetryEvent → FrontendSessionSnapshot
  session_upserted current event = record {
    session_id = string_of (get event.payload "sessionId");
    machine_id = string_of (get event.payload "machineId");
    agent_id = get event.payload "agentId";
    state = get event.payload "to";
    created_at = session_created current event.ts;
    updated_at = event.ts;
    ended_at = if is_terminal_state (get event.payload "to") then some event.ts else none;
    last_event_id = event.id;
  }

  unfoldable pub run_upserted : Option FrontendRunSnapshot → TelemetryEvent → FrontendRunSnapshot
  run_upserted current event = record {
    run_id = string_of (get event.payload "runId");
    session_id = string_of (get event.payload "sessionId");
    machine_id = event.machine_id;
    agent_id = get event.payload "agentId";
    state = get event.payload "to";
    created_at = run_created current event.ts;
    updated_at = event.ts;
    ended_at = if is_terminal_state (get event.payload "to") then some event.ts else none;
    failure_reason =
        if equals_text (get event.payload "to") "failed" && is_truthy (get event.payload "reason")
        then some (get event.payload "reason")
        else none;
    last_event_id = event.id;
  }

  unfoldable pub tool_status : Value → ToolStatus
  tool_status status =
      if equals_text status "completed"
      then tool_completed
      else if equals_text status "failed"
      then tool_failed
      else tool_cancelled

  unfoldable pub started_call : TelemetryEvent → FrontendToolCallSnapshot
  started_call event = record {
    tool_call_id = string_of (get event.payload "toolCallId");
    tool_name = get event.payload "toolName";
    status = tool_started;
    started_at = get event.payload "startedAt";
    duration_ms = none;
    success = none;
    error_message = none;
  }

  unfoldable pub completed_call :
      Option FrontendToolCallSnapshot → TelemetryEvent → FrontendToolCallSnapshot
  unfolding tool_status
  completed_call existing event = record {
    tool_call_id = string_of (get event.payload "toolCallId");
    tool_name = get event.payload "toolName";
    status = tool_status (get event.payload "status");
    started_at = call_started existing event.ts;
    duration_ms = some (get event.payload "durationMs");
    success = some (get event.payload "success");
    error_message = if_defined (get event.payload "errorMessage");
  }

  abbrev pub usage_field :
      (FrontendModelUsageSnapshot → Value) → Option FrontendModelUsageSnapshot → Value
  usage_field field none = number 0
  usage_field field (some usage) = field usage

  abbrev cost_of : Option FrontendModelUsageSnapshot → Value
  cost_of none = number 0
  cost_of (some usage) = or_zero usage.estimated_cost_usd

  -- The cost is dropped where the event has none.
  abbrev pub add_cost : Option Value → Value → Option Value
  add_cost none before = none
  add_cost (some cost) before = some (runtime.add before cost)

  unfoldable pub usage_after :
      Option FrontendModelUsageSnapshot → TelemetryEvent → FrontendModelUsageSnapshot
  usage_after existing event = record {
    provider = get event.payload "provider";
    model = get event.payload "model";
    input_tokens =
        runtime.add (usage_field (λ u. u.input_tokens) existing) (get event.payload "inputTokens");
    output_tokens =
        runtime.add (usage_field (λ u. u.output_tokens) existing)
          (get event.payload "outputTokens");
    total_tokens =
        runtime.add (usage_field (λ u. u.total_tokens) existing) (get event.payload "totalTokens");
    estimated_cost_usd =
        add_cost (if_defined (get event.payload "estimatedCostUsd")) (cost_of existing);
  }

  unfoldable pub log_entry : TelemetryEvent → FrontendLogSnapshot
  log_entry event = record {
    id = string_of (get event.payload "logEntryId");
    run_id = string_of (get event.payload "runId");
    session_id = string_of (get event.payload "sessionId");
    machine_id = event.machine_id;
    level = get event.payload "level";
    message = get event.payload "message";
    ts = get event.payload "ts";
  }

  abbrev pub last_logs : List FrontendLogSnapshot → List FrontendLogSnapshot
  last_logs logs = if ltb max_logs (length logs) then drop (length logs - max_logs) logs else logs
