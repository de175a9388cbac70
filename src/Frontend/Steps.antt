-- ===== src/Frontend/Steps.antt =====
-- Event by event, both sides stay in agreement.
use patze_control.Base.{Option, some, ◌≡◌}
use patze_control.Telemetry.Events.{TelemetryEvent}
use patze_control.Telemetry.Projections.{ProjectionState}
use patze_control.Frontend.Types.{FrontendRuntime, SnapshotCollections}
use patze_control.Frontend.Recent.{recent_after}
use patze_control.Frontend.Agreement.{Agree}

module _ (runtime : FrontendRuntime) where
  -- The collections once the event is among the recent ones.
  abbrev recorded : SnapshotCollections → TelemetryEvent → SnapshotCollections
  recorded c event = record c { recent_events = recent_after runtime c.recent_events event }

-- What both sides make of the events.
abbrev pub BothAgree : Option ProjectionState → Option SnapshotCollections → Type 0
BothAgree p f =
    (state : ProjectionState) × (c : SnapshotCollections) × (p ≡ some state)
    × (f ≡ some c)
    × Agree state c
