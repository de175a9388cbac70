-- ===== src/Telemetry/Node.antt =====
-- The projector and the node that wires the store, the projector and the ingestor together
-- (packages/telemetry-core/src/projections.ts and telemetry-node.ts).
use patze_control.Base.{ℕ, suc, Option, none, some, List}
use patze_control.Value.{Value}
use patze_control.Telemetry.Events.{TelemetryEvent}
use patze_control.Telemetry.EventStore.{
  Outcome, returned, threw, Listener, EventStore, new_store, subscribe, unsubscribe,
}
use patze_control.Telemetry.Timestamps.{Runtime}
use patze_control.Telemetry.Ingestor.{IngestError, Result, ingest, ingest_many}
use patze_control.Telemetry.Projections.{ProjectionState, create_empty_state, reduce_event}

-- What the listeners of a node's store act on: the projector's state, and the world outside.
pub record NodeWorld {ℓ} (W : Type ℓ) : Type ℓ where
  pub projections : ProjectionState
  pub outside : W

pub record TelemetryNode {ℓ} (W : Type ℓ) : Type ℓ where
  pub event_store : EventStore (NodeWorld W)
  pub world : NodeWorld W

module _ {ℓ} {W : Type ℓ} where
  abbrev pub project : NodeWorld W → Option ProjectionState → Outcome (NodeWorld W)
  project w none = threw w
  project w (some state) = returned (record w { projections = state })

  -- The listener of `bindToStore`; it has the key 0.
  unfoldable pub projector_listener : Listener (NodeWorld W)
  projector_listener = record {
    key = 0;
    call = λ event w. project w (reduce_event w.projections event);
  }

  unfoldable pub new_node : W → TelemetryNode W
  unfolding projector_listener
  new_node w = record {
    event_store = subscribe projector_listener (new_store none);
    world = record { projections = create_empty_state; outside = w };
  }

  abbrev pub lift_outcome : NodeWorld W → Outcome W → Outcome (NodeWorld W)
  lift_outcome w (returned o) = returned (record w { outside = o })
  lift_outcome w (threw o) = threw (record w { outside = o })

  -- A listener of the node's users sees the event and the world outside only. Its key is not 0.
  unfoldable pub outside_listener : Listener W → Listener (NodeWorld W)
  outside_listener l = record {
    key = suc l.key;
    call = λ event w. lift_outcome w (l.call event w.outside);
  }

  unfoldable pub node_subscribe : Listener W → TelemetryNode W → TelemetryNode W
  unfolding outside_listener
  node_subscribe l node = record node {
    event_store = subscribe (outside_listener l) node.event_store;
  }

  unfoldable pub node_unsubscribe : ℕ → TelemetryNode W → TelemetryNode W
  node_unsubscribe k node = record node { event_store = unsubscribe (suc k) node.event_store }

  unfoldable pub get_snapshot : TelemetryNode W → ProjectionState
  get_snapshot node = node.world.projections

  unfoldable pub get_event_log : TelemetryNode W → List TelemetryEvent
  get_event_log node = node.event_store.log

  -- `dispose` unbinds the projector.
  unfoldable pub dispose : TelemetryNode W → TelemetryNode W
  dispose node = record node { event_store = unsubscribe 0 node.event_store }

module _ {ℓ} {W : Type ℓ} (runtime : Runtime) where
  unfoldable pub node_ingest : Value → TelemetryNode W → TelemetryNode W × Result TelemetryEvent
  node_ingest value node =
      let (store, world, result) = ingest runtime node.event_store node.world value in
      (record { event_store = store; world = world }, result)

  unfoldable pub node_ingest_many :
      List Value → TelemetryNode W → TelemetryNode W × (List TelemetryEvent × List IngestError)
  node_ingest_many values node =
      let (store, world, result) = ingest_many runtime node.event_store node.world values in
      (record { event_store = store; world = world }, result)
