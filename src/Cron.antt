-- ===== src/Cron.antt =====
-- Scheduled tasks: schedules, the lock, snapshots and the service
-- (packages/telemetry-core/src/cron).
pub mod Types
pub mod Schedule
pub mod Lock
pub mod Every
pub mod Store
pub mod State
pub mod Service
pub mod Runs
pub mod Timer
pub mod Backoff
pub mod Captured
pub mod Undo
pub mod CatchUp
pub mod Dispatch
pub mod Kept
pub mod History
pub mod Tests
