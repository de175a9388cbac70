-- ===== src/BridgeCommands.antt =====
-- The store of remote bridge commands (apps/api-server/src/bridge-command-store.ts).
pub mod Types
pub mod Store
pub mod Methods
pub mod Soundness
pub mod Modify
pub mod History
pub mod Lifecycle
pub mod Polling
pub mod Persistence
pub mod Listing
pub mod Reports
pub mod Tests
