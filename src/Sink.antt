-- ===== src/Sink.antt =====
-- The sink that the bridge process sends its telemetry through: `HttpSinkAdapter` of
-- packages/telemetry-core/src/transports.ts.
pub mod Post
pub mod Queue
pub mod Rounds
pub mod Order
pub mod Close
pub mod Filling
pub mod Spool
pub mod Tests
