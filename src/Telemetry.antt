-- ===== src/Telemetry.antt =====
-- Telemetry: events, their log, their ingestion and their projections
-- (packages/telemetry-core/src).
pub mod Events
pub mod EventStore
pub mod Payload
pub mod Timestamps
pub mod Ingestor
pub mod Projections
pub mod Node
pub mod Log
pub mod Acceptance
pub mod Batch
pub mod Reduction
pub mod NodeHistory
pub mod Binding
pub mod Replay
pub mod Stored
pub mod Tracking
pub mod Tests
