-- ===== src/Bridge.antt =====
-- The bridge process on a machine (packages/openclaw-bridge/src) and the routes of the server that it
-- calls (apps/api-server/src/index.ts).
pub mod Controller
pub mod Poller
pub mod Receipts
pub mod Once
pub mod Allowed
pub mod Delta
pub mod Lines
pub mod Growing
pub mod Tests
