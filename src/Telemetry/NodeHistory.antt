-- ===== src/Telemetry/NodeHistory.antt =====
-- Any calls of a node's methods by its users, with the events that they report as accepted
-- (packages/telemetry-core/src/telemetry-node.ts).
use patze_control.Base.{ℕ, List, [], ◌∷◌, ◌++◌}
use patze_control.Value.{Value}
use patze_control.Telemetry.Events.{TelemetryEvent}
use patze_control.Telemetry.EventStore.{Listener}
use patze_control.Telemetry.Timestamps.{Runtime}
use patze_control.Telemetry.Ingestor.{Result, ok, fail}
use patze_control.Telemetry.Node.{
  TelemetryNode, node_subscribe, node_unsubscribe, node_ingest, node_ingest_many,
}

-- A call of a node's methods by its users.
pub data NodeCall (W : Type 0) : Type 0 where
  ingests : Value → NodeCall W
  ingests_many : List Value → NodeCall W
  subscribes : Listener W → NodeCall W
  unsubscribes : ℕ → NodeCall W

abbrev pub accepted_of : Result TelemetryEvent → List TelemetryEvent
accepted_of (ok event) = event ∷ []
accepted_of (fail e) = []

module _ {W : Type 0} (runtime : Runtime) where
  -- The node after a call, and the events that the call reports as accepted.
  unfoldable pub node_step : TelemetryNode W → NodeCall W → TelemetryNode W × List TelemetryEvent
  unfolding node_ingest node_ingest_many node_subscribe node_unsubscribe
  node_step node (ingests value) =
      let (node', result) = node_ingest runtime value node in (node', accepted_of result)
  node_step node (ingests_many values) =
      let (node', lists) = node_ingest_many runtime values node in (node', lists.0)
  node_step node (subscribes l) = (node_subscribe l node, [])
  node_step node (unsubscribes k) = (node_unsubscribe k node, [])

  unfoldable pub node_run :
      TelemetryNode W → List (NodeCall W) → TelemetryNode W × List TelemetryEvent
  node_run node [] = (node, [])
  node_run node (c ∷ cs) =
      let (node', accepted) = node_step node c in
      let (node'', more) = node_run node' cs in (node'', accepted ++ more)
