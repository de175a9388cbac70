-- ===== src/Telemetry/Replay.antt =====
-- The live projections of a node against a replay of all that it has accepted.
use patze_control.Base.{Option, none, some, List, [], ◌∷◌, ◌++◌, Option-cases, ◌≡◌, refl, inl, inr}
use mathlib.Core.List.{append_assoc, append-nil}
use mathlib.Core.Option.{some-injective}
use patze_control.Value.{Value}
use patze_control.Telemetry.Events.{TelemetryEvent, clone_and_freeze_event}
use patze_control.Telemetry.EventStore.{
  EventStore, emit, has_listener, bus_subscribe, subscribe, unsubscribe, new_store,
  default_max_log_size,
}
use patze_control.Telemetry.Timestamps.{Runtime}
use patze_control.Telemetry.Ingestor.{ingest, ingest_many}
use patze_control.Telemetry.Projections.{
  ProjectionState, create_empty_state, reduce_event, build_from, build_telemetry_snapshot,
}
use patze_control.Telemetry.Node.{NodeWorld, TelemetryNode, new_node, get_snapshot, get_event_log}
use patze_control.Telemetry.Log.{newest, newest-append}
use patze_control.Telemetry.Batch.{ingest_cases}
use patze_control.Telemetry.Reduction.{reduce_accepted}
use patze_control.Telemetry.Binding.{
  IsBound, emit-IsBound, bus_subscribe-IsBound, bus_unsubscribe-IsBound,
}
use patze_control.Telemetry.NodeHistory.{
  NodeCall, ingests, ingests_many, subscribes, unsubscribes, accepted_of, node_step, node_run,
}

build_from-snoc :
    (s s' s'' : ProjectionState) (xs : List TelemetryEvent) (x : TelemetryEvent)
    → build_from s xs ≡ some s'
    → reduce_event s' x ≡ some s''
    → build_from s (xs ++ (x ∷ [])) ≡ some s''
unfolding build_from
build_from-snoc s s' s'' [] x e q = rw (some-injective _ _ e, q) refl
build_from-snoc s s' s'' (y ∷ ys) x e q = elim (Option-cases (reduce_event s y)) [
  | inl none_given ↦ absurd (stuck (rw none_given at e))
  | inr (t, found) ↦ rw found (build_from-snoc t s' s'' ys x (rw found at e) q)
]
  where
    stuck : ¬ (◌≡◌ {A = Option ProjectionState} none (some s'))
    stuck r = cc

-- The node's state against the events that it has accepted since it was new.
record IsCurrent {W : Type 0} (node : TelemetryNode W) (accepted : List TelemetryEvent)
    : Type 0 where
  bound : IsBound node.event_store.listeners
  size : node.event_store.max_log_size ≡ default_max_log_size
  logged : node.event_store.log ≡ newest default_max_log_size accepted
  replayed : build_telemetry_snapshot accepted ≡ some node.world.projections

module _ {W : Type 0} where
  new_node-IsCurrent : (w : W) → IsCurrent (new_node w) []
  unfolding new_node build_telemetry_snapshot newest
  new_node-IsCurrent w = record {
    bound = unfold subscribe new_store bus_subscribe has_listener in (refl, tt);
    size = unfold subscribe new_store in refl;
    logged = unfold subscribe new_store in refl;
    replayed = refl;
  }

  -- One stored event keeps the node current.
  stored-IsCurrent :
      (node : TelemetryNode W) (accepted : List TelemetryEvent) (event : TelemetryEvent)
      (s : ProjectionState)
      → IsCurrent node accepted
      → reduce_event node.world.projections event ≡ some s
      → IsCurrent
          (record {
            event_store = record node.event_store {
              log = newest node.event_store.max_log_size (node.event_store.log ++ (event ∷ []));
            };
            world = emit node.event_store.listeners event node.world;
          })
          (accepted ++ (event ∷ []))
  unfolding build_telemetry_snapshot
  stored-IsCurrent node accepted event s c e =
      let world : (emit node.event_store.listeners event node.world).projections ≡ s =
        emit-IsBound node.event_store.listeners event node.world s c.bound e in
      record {
        bound = c.bound;
        size = c.size;
        logged = rw (c.size, c.logged) (newest-append default_max_log_size accepted (event ∷ []));
        replayed = rw world (
            build_from-snoc create_empty_state node.world.projections s accepted event c.replayed
              e);
      }

module _ {W : Type 0} (runtime : Runtime) where
  abbrev node_of : EventStore (NodeWorld W) → NodeWorld W → TelemetryNode W
  node_of store w = record { event_store = store; world = w }

  ingest-IsCurrent :
      (store : EventStore (NodeWorld W)) (w : NodeWorld W) (accepted : List TelemetryEvent)
      (value : Value)
      → IsCurrent (node_of store w) accepted
      → let (store', w', result) = ingest runtime store w value in
        IsCurrent (node_of store' w') (accepted ++ accepted_of result)
  ingest-IsCurrent store w accepted value c = elim (ingest_cases runtime store w value) [
    | inl (event, p, q) ↦
        let (s, e) = reduce_accepted runtime value event w.projections p in
        rw q (stored-IsCurrent (node_of store w) accepted (clone_and_freeze_event event) s c e)
    | inr (e, p, q) ↦ rw (q, append-nil accepted) c
  ]

  ingest_many-IsCurrent :
      (values : List Value) (store : EventStore (NodeWorld W)) (w : NodeWorld W)
      (accepted : List TelemetryEvent)
      → IsCurrent (node_of store w) accepted
      → let (store', w', lists) = ingest_many runtime store w values in
        IsCurrent (node_of store' w') (accepted ++ lists.0)
  unfolding ingest_many
  ingest_many-IsCurrent [] store w accepted c = rw (append-nil accepted) c
  ingest_many-IsCurrent (value ∷ values) store w accepted c =
      let first = ingest-IsCurrent store w accepted value c in
      elim (ingest_cases runtime store w value) [
        | inl (event, p, q) ↦ rw q (
            rw (← append_assoc accepted (clone_and_freeze_event event ∷ []) _) (
              ingest_many-IsCurrent values _ _ (accepted ++ (clone_and_freeze_event event ∷ []))
                (rw q at first)))
        | inr (e, p, q) ↦ rw q (ingest_many-IsCurrent values store w accepted c)
      ]

  node_step-IsCurrent :
      (node : TelemetryNode W) (accepted : List TelemetryEvent) (c : NodeCall W)
      → IsCurrent node accepted
      → IsCurrent (node_step runtime node c).0 (accepted ++ (node_step runtime node c).1)
  unfolding node_step subscribe unsubscribe
  node_step-IsCurrent node accepted (ingests value) h =
      ingest-IsCurrent node.event_store node.world accepted value h
  node_step-IsCurrent node accepted (ingests_many values) h =
      ingest_many-IsCurrent values node.event_store node.world accepted h
  node_step-IsCurrent node accepted (subscribes l) h = rw (append-nil accepted) (record {
    bound = bus_subscribe-IsBound l node.event_store.listeners h.bound;
    size = h.size;
    logged = h.logged;
    replayed = h.replayed;
  })
  node_step-IsCurrent node accepted (unsubscribes k) h = rw (append-nil accepted) (record {
    bound = bus_unsubscribe-IsBound k node.event_store.listeners h.bound;
    size = h.size;
    logged = h.logged;
    replayed = h.replayed;
  })

  node_run-IsCurrent :
      (node : TelemetryNode W) (accepted : List TelemetryEvent) (cs : List (NodeCall W))
      → IsCurrent node accepted
      → IsCurrent (node_run runtime node cs).0 (accepted ++ (node_run runtime node cs).1)
  unfolding node_run
  node_run-IsCurrent node accepted [] h = rw (append-nil accepted) h
  node_run-IsCurrent node accepted (c ∷ cs) h =
      rw
        (← append_assoc accepted (node_step runtime node c).1
          (node_run runtime (node_step runtime node c).0 cs).1)
        (node_run-IsCurrent (node_step runtime node c).0 _ cs
          (node_step-IsCurrent node accepted c h))

  -- After any calls of `ingest`, `ingestMany` and `subscribe`, with its undoing, on a new node, its
  -- live snapshot is the one that a replay of all events accepted so far builds, also of those that
  -- the log has dropped, and its log holds the newest of them.
  pub get_snapshot-node_run :
      (w : W) (cs : List (NodeCall W))
      → let (node, accepted) = node_run runtime (new_node w) cs in
        (build_telemetry_snapshot accepted ≡ some (get_snapshot node))
        × (get_event_log node ≡ newest default_max_log_size accepted)
  unfolding get_snapshot get_event_log
  get_snapshot-node_run w cs =
      let c = node_run-IsCurrent (new_node w) [] cs (new_node-IsCurrent w) in (c.replayed, c.logged)
