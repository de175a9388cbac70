-- ===== src/Telemetry/Projections.antt =====
-- The projections of packages/telemetry-core/src/projections.ts. Maps are association lists in the
-- order of insertion; a function that may throw a TypeError gives an `Option`.
use patze_control.Base.{Bool, ◌&&◌, ◌||◌, Option, none, some, String, List, [], ◌∷◌, if◌then◌else◌}
use patze_control.Value.{
  Value, text, is_nullish, is_undefined, is_truthy, get, equals_text, same_key,
}
use patze_control.Telemetry.Events.{
  machine_registered, machine_heartbeat, session_state_changed, run_state_changed, TelemetryEvent,
}

module _ {ℓ} {V : Type ℓ} where
  unfoldable pub map_get : Value → List (Value × V) → Option V
  map_get k [] = none
  map_get k ((j, v) ∷ m) = if same_key j k then some v else map_get k m

  unfoldable pub map_set : Value → V → List (Value × V) → List (Value × V)
  map_set k v [] = (k, v) ∷ []
  map_set k v ((j, w) ∷ m) = if same_key j k then (j, v) ∷ m else (j, w) ∷ map_set k v m

pub record MachineResourceSnapshot : Type 0 where
  pub cpu_pct : Value
  pub memory_bytes : Value
  pub memory_total_bytes : Option Value
  pub memory_pct : Value
  pub net_rx_bytes : Option Value
  pub net_tx_bytes : Option Value
  pub disk_usage_bytes : Option Value
  pub disk_total_bytes : Option Value
  pub disk_pct : Option Value

pub record MachineProjection : Type 0 where
  pub id : Value
  pub name : Option Value
  pub kind : Option Value
  pub status : Value
  pub last_seen_at : Value
  pub last_event_id : String
  pub last_resource : Option MachineResourceSnapshot

pub record SessionProjection : Type 0 where
  pub id : Value
  pub machine_id : Value
  pub agent_id : Value
  pub state : Value
  pub created_at : String
  pub updated_at : String
  pub ended_at : Option String
  pub last_event_id : String

pub record RunProjection : Type 0 where
  pub id : Value
  pub session_id : Value
  pub machine_id : String
  pub agent_id : Value
  pub state : Value
  pub created_at : String
  pub updated_at : String
  pub ended_at : Option String
  pub failure_reason : Option Value
  pub last_event_id : String

pub record ProjectionState : Type 0 where
  pub machines : List (Value × MachineProjection)
  pub sessions : List (Value × SessionProjection)
  pub runs : List (Value × RunProjection)

abbrev pub create_empty_state : ProjectionState
create_empty_state = record { machines = []; sessions = []; runs = [] }

unfoldable pub is_terminal_state : Value → Bool
is_terminal_state state =
    equals_text state "completed" || equals_text state "failed" || equals_text state "cancelled"

-- `...(value !== undefined ? { field: value } : {})`, and the same with the value as a condition.
abbrev pub if_defined : Value → Option Value
if_defined v = if is_undefined v then none else some v

abbrev pub if_truthy : Value → Option Value
if_truthy v = if is_truthy v then some v else none

abbrev pub keep_truthy : Option Value → Option Value
keep_truthy none = none
keep_truthy (some v) = if_truthy v

abbrev pub name_of : Option MachineProjection → Option Value
name_of none = none
name_of (some p) = p.name

abbrev pub kind_of : Option MachineProjection → Option Value
kind_of none = none
kind_of (some p) = p.kind

unfoldable pub resource_snapshot : Value → MachineResourceSnapshot
resource_snapshot resource = record {
  cpu_pct = get resource "cpuPct";
  memory_bytes = get resource "memoryBytes";
  memory_total_bytes = if_defined (get resource "memoryTotalBytes");
  memory_pct = get resource "memoryPct";
  net_rx_bytes = if_defined (get resource "netRxBytes");
  net_tx_bytes = if_defined (get resource "netTxBytes");
  disk_usage_bytes = if_defined (get resource "diskUsageBytes");
  disk_total_bytes = if_defined (get resource "diskTotalBytes");
  disk_pct = if_defined (get resource "diskPct");
}

unfoldable pub registered_machine : TelemetryEvent → MachineProjection
registered_machine event = record {
  id = get event.payload "machineId";
  name = some (get event.payload "name");
  kind = some (get event.payload "kind");
  status = get event.payload "status";
  last_seen_at = get event.payload "registeredAt";
  last_event_id = event.id;
  last_resource = none;
}

unfoldable pub machine_after_heartbeat :
    Option MachineProjection → TelemetryEvent → MachineProjection
unfolding resource_snapshot
machine_after_heartbeat current event = record {
  id = get event.payload "machineId";
  name = keep_truthy (name_of current);
  kind = keep_truthy (kind_of current);
  status = get event.payload "status";
  last_seen_at = text event.ts;
  last_event_id = event.id;
  last_resource = some (resource_snapshot (get event.payload "resource"));
}

unfoldable pub reduce_machine_event : ProjectionState → TelemetryEvent → Option ProjectionState
reduce_machine_event state event = elim event.event_type [
  | machine_registered ↦
      if is_nullish event.payload
      then none
      else some (record state {
        machines =
            map_set (get event.payload "machineId") (registered_machine event) state.machines;
      })
  | machine_heartbeat ↦
      if is_nullish event.payload || is_nullish (get event.payload "resource")
      then none
      else some (record state {
        machines =
            map_set (get event.payload "machineId")
              (machine_after_heartbeat (map_get (get event.payload "machineId") state.machines)
                event)
              state.machines;
      })
  | _ ↦ some state
]

abbrev pub session_created_at : Option SessionProjection → String → String
session_created_at none ts = ts
session_created_at (some p) ts = p.created_at

unfoldable pub session_after : Option SessionProjection → TelemetryEvent → SessionProjection
session_after current event = record {
  id = get event.payload "sessionId";
  machine_id = get event.payload "machineId";
  agent_id = get event.payload "agentId";
  state = get event.payload "to";
  created_at = session_created_at current event.ts;
  updated_at = event.ts;
  ended_at = if is_terminal_state (get event.payload "to") then some event.ts else none;
  last_event_id = event.id;
}

unfoldable pub reduce_session_event : ProjectionState → TelemetryEvent → Option ProjectionState
reduce_session_event state event = elim event.event_type [
  | session_state_changed ↦
      if is_nullish event.payload
      then none
      else some (record state {
        sessions =
            map_set (get event.payload "sessionId")
              (session_after (map_get (get event.payload "sessionId") state.sessions) event)
              state.sessions;
      })
  | _ ↦ some state
]

abbrev pub run_created_at : Option RunProjection → String → String
run_created_at none ts = ts
run_created_at (some p) ts = p.created_at

unfoldable pub run_after : Option RunProjection → TelemetryEvent → RunProjection
run_after current event = record {
  id = get event.payload "runId";
  session_id = get event.payload "sessionId";
  machine_id = event.machine_id;
  agent_id = get event.payload "agentId";
  state = get event.payload "to";
  created_at = run_created_at current event.ts;
  updated_at = event.ts;
  ended_at = if is_terminal_state (get event.payload "to") then some event.ts else none;
  failure_reason =
      if equals_text (get event.payload "to") "failed" && is_truthy (get event.payload "reason")
      then some (get event.payload "reason")
      else none;
  last_event_id = event.id;
}

unfoldable pub reduce_run_event : ProjectionState → TelemetryEvent → Option ProjectionState
reduce_run_event state event = elim event.event_type [
  | run_state_changed ↦
      if is_nullish event.payload
      then none
      else some (record state {
        runs =
            map_set (get event.payload "runId")
              (run_after (map_get (get event.payload "runId") state.runs) event) state.runs;
      })
  | _ ↦ some state
]

infixl 5 ◌>>=◌
abbrev pub ◌>>=◌ {ℓ κ} : {A : Type ℓ} {B : Type κ} → Option A → (A → Option B) → Option B
none >>= f = none
some a >>= f = f a

unfoldable pub reduce_event : ProjectionState → TelemetryEvent → Option ProjectionState
unfolding reduce_machine_event reduce_session_event reduce_run_event
reduce_event state event = do
  state' ← reduce_machine_event state event
  state'' ← reduce_session_event state' event
  reduce_run_event state'' event

unfoldable pub build_from : ProjectionState → List TelemetryEvent → Option ProjectionState
build_from state [] = some state
build_from state (event ∷ events) = do state' ← reduce_event state event; build_from state' events

-- The frozen copies of the snapshot are equal to the projections.
unfoldable pub build_telemetry_snapshot : List TelemetryEvent → Option ProjectionState
unfolding build_from
build_telemetry_snapshot events = build_from create_empty_state events
